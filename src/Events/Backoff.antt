-- ===== src/Events/Backoff.antt =====
-- `consumeBackoff`, in nanoseconds as `time.Duration` counts, a signed 64-bit integer.
use distributed_cloud_system.Base.{
  ℕ, zero, suc, ◌-◌, ◌*◌, ◌^◌, ◌%◌, ◌≤◌, ◌<◌, min, ◌≡◌, refl, sym, ◌∙◌, ==_iff, ltb→lt, Bool, true,
  false, ◌||◌, arith, if◌then◌else◌, ltb, leb, ◌==◌, Bool-cases, inl, inr,
}

abbrev pub base_consume_backoff : ℕ
base_consume_backoff = 250 * 1_000_000

abbrev pub max_consume_backoff : ℕ
max_consume_backoff = 15 * 1_000_000_000

abbrev pub max_shift : ℕ
max_shift = 32

-- `base << n` on 64 bits; from 2^63 on the bits stand for a number that is not positive.
unfoldable pub shifted : ℕ → ℕ
shifted n = base_consume_backoff * 2 ^ n % 2 ^ 64

abbrev pub is_not_positive : ℕ → Bool
is_not_positive d = d == 0 || leb (2 ^ 63) d

-- The source's `attempt` is counted up from 1, and never negative.
unfoldable pub consume_backoff : ℕ → ℕ
unfolding shifted
consume_backoff attempt =
    if ltb attempt 1
    then base_consume_backoff
    else if ltb max_shift (attempt - 1)
    then max_consume_backoff
    else let backoff = shifted (attempt - 1) in
      if is_not_positive backoff || ltb max_consume_backoff backoff
      then max_consume_backoff
      else backoff

-- Doubling with a cap, with no machine words: what the delays are meant to be.
unfoldable pub capped_doubling : ℕ → ℕ
capped_doubling zero = base_consume_backoff
capped_doubling (suc n) = min (2 * capped_doubling n) max_consume_backoff

-- A test of the attempts below a bound, by evaluation.
attempts_pass : (ℕ → Bool) → ℕ → Bool
attempts_pass test zero = true
attempts_pass test (suc bound) =
    let earlier = attempts_pass test bound in if test bound then earlier else false

attempts_pass_lem :
    (test : ℕ → Bool) (bound attempt : ℕ)
    → attempt < bound
    → attempts_pass test bound ≡ true
    → test attempt ≡ true
unfolding attempts_pass
attempts_pass_lem test zero attempt below passed = absurd (omega arith)
attempts_pass_lem test (suc bound) attempt below passed =
    let earlier = attempts_pass_lem test bound attempt in ground (arith, earlier)

agree_table : attempts_pass (λ n. consume_backoff (suc n) == capped_doubling n) 33 ≡ true
unfolding attempts_pass consume_backoff capped_doubling
agree_table = refl

capped_late : (n : ℕ) → 6 ≤ n → capped_doubling n ≡ max_consume_backoff
unfolding capped_doubling
capped_late zero h = absurd (omega arith)
capped_late (suc n) h = elim (Bool-cases (leb 6 n)) [
  | inl old ↦ let e = capped_late n (ground arith) in omega (arith, e)
  | inr new ↦ let e : n ≡ 5 = ground arith in rw e refl
]

abbrev is_early : ℕ → Bool
is_early n = ltb n 33

late_backoff : (n : ℕ) → is_early n ≡ false → consume_backoff (suc n) ≡ max_consume_backoff
unfolding consume_backoff
late_backoff n h = ground arith

-- The delay of every attempt is the first delay doubled once for each attempt before it, capped at
-- 15 seconds: the shift never wraps around, however large the attempt is.
pub consume_backoff-eq-capped_doubling : (n : ℕ) → consume_backoff (suc n) ≡ capped_doubling n
consume_backoff-eq-capped_doubling n = elim (Bool-cases (is_early n)) [
  | inl early ↦ (==_iff (consume_backoff (suc n)) (capped_doubling n)).0 (
      attempts_pass_lem (λ k. consume_backoff (suc k) == capped_doubling k) 33 n (ltb→lt n 33 early)
        agree_table)
  | inr late ↦ late_backoff n late ∙ sym (capped_late n (ground arith))
]
