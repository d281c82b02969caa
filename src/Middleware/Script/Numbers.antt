-- ===== src/Middleware/Script/Numbers.antt =====
-- internal/middleware/ratelimit_store.go: what `redisCounterScript` counts while its keys stay.
use distributed_cloud_system.Base.{
  ℕ, suc, ◌+◌, ◌-◌, ◌<◌, ◌≡◌, refl, ◌∙◌, ◌⊎◌, inl, inr, false, subst, sym, Option, none, some, List,
  [], ◌∷◌, if◌then◌else◌, leb, ◌==◌, Bool-cases, arith,
}
use distributed_cloud_system.Middleware.Counter.{RedisKey}
use distributed_cloud_system.Middleware.Shared.{same_key, same_key_sound, same_key-eq}
use distributed_cloud_system.Middleware.Script.{
  Commands, Entry, Expires, Call, elapse, duration, numbers, redis_counter_script, run_all,
}

-- An entry that counts what was counted, and stays for longer than is asked.
abbrev Agrees : ℕ → Option Entry → ℕ → Type 0
Agrees until o n =
    ((o ≡ none) × (n ≡ 0))
    ⊎ ((m : ℕ) × (t : ℕ) × (o ≡ some (record { count = suc m; left = some t }))
        × (n ≡ suc m)
        × (until < t))

elapse-Agrees :
    (d until : ℕ) (o : Option Entry) (n : ℕ) → Agrees (d + until) o n → Agrees until (elapse d o) n
elapse-Agrees d until o n (inl (e, z)) = inl (rw e refl, z)
elapse-Agrees d until o n (inr (m, t, e, z, later)) = elim (Bool-cases (leb t d)) [
  | inl gone ↦ absurd (ground (arith, gone))
  | inr there ↦ inr (m, t - d, rw (e, there) refl, z, ground (arith, there))
]

-- Only the first call finds a count of 1.
pub later_count : (m : ℕ) → (suc (suc m) == 1) ≡ false
later_count m = ground arith

module _ (R : Commands) (E : Expires R) where
  script_lem :
      (s : R.State) (key : RedisKey) (ttl until n : ℕ)
      → until < ttl
      → Agrees until (E.entry s key) n
      → let (count, s') = redis_counter_script R s key ttl in
        (count ≡ suc n)
        × Agrees until (E.entry s' key) (suc n)
        × ((k : RedisKey) → same_key key k ≡ false → E.entry s' k ≡ E.entry s k)
  unfolding redis_counter_script
  script_lem s key ttl until n lt (inl (e, z)) =
      let count : (R.incr s key).0 ≡ 1 = rw e at (E.incr-counted s key) in
      let there = rw (e, same_key-eq key key refl) at (E.entry-incr s key key) in
      rw count (
        rw z refl,
        inr (
          0,
          ttl,
          rw (same_key-eq key key refl) at (E.entry-pexpire (R.incr s key).1 key ttl _ key there),
          rw z refl,
          lt,
        ),
        λ k other.
            rw other at (E.entry-pexpire (R.incr s key).1 key ttl _ k there)
            ∙ rw other at (E.entry-incr s key k),
      )
  script_lem s key ttl until n lt (inr (m, t, e, z, later)) =
      let count : (R.incr s key).0 ≡ suc (suc m) = rw e at (E.incr-counted s key) in
      rw (count, later_count m)
        (
          rw z refl,
          inr (
            suc m,
            t,
            rw (e, same_key-eq key key refl) at (E.entry-incr s key key),
            rw z refl,
            later,
          ),
          λ k other. rw other at (E.entry-incr s key k),
        )

  run_all-numbers :
      (ttl : ℕ) (xs : List Call) (s : R.State) (before : RedisKey → ℕ)
      → duration xs < ttl
      → ((k : RedisKey) → Agrees (duration xs) (E.entry s k) (before k))
      → (run_all R ttl xs s).0 ≡ numbers before xs
  unfolding run_all duration
  run_all-numbers ttl [] s before lt h = refl
  run_all-numbers ttl (x ∷ xs) s before lt h =
      let waited = R.wait s x.pause in
      let h' : (k : RedisKey) → Agrees (duration xs) (E.entry waited k) (before k) = λ k.
        subst (λ o. Agrees (duration xs) o (before k)) (sym (E.entry-wait s x.pause k))
          (elapse-Agrees x.pause (duration xs) (E.entry s k) (before k) (h k)) in
      let (first, next, others) =
        script_lem waited x.key ttl (duration xs) (before x.key) (omega arith) (h' x.key) in
      let s' = (redis_counter_script R waited x.key ttl).1 in
      let rest =
        run_all-numbers ttl xs s' (λ k. if same_key x.key k then suc (before k) else before k)
          (omega arith)
          (λ k. elim (Bool-cases (same_key x.key k)) [
            | inl same ↦ rw same (
                subst (λ (j : RedisKey). Agrees (duration xs) (E.entry s' j) (suc (before j)))
                  (same_key_sound x.key k same) next)
            | inr other ↦ rw (other, others k other) (h' k)
          ]) in
      λ i. first i ∷ rest i

  -- While less than the time to live passes on Redis' clock, the script returns to each call the number
  -- of that call among those on its key, from keys that are not there, whatever keys are counted in
  -- between: no counter is lost before its time, and no call is counted on another key.
  pub run_all-eq-numbers :
      (ttl : ℕ) (xs : List Call) (s : R.State)
      → duration xs < ttl
      → ((k : RedisKey) → E.entry s k ≡ none)
      → (run_all R ttl xs s).0 ≡ numbers (λ k. 0) xs
  run_all-eq-numbers ttl xs s lt empty =
      run_all-numbers ttl xs s (λ k. 0) lt (λ k. inl (empty k, refl))
