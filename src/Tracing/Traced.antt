-- ===== src/Tracing/Traced.antt =====
-- A request always has a trace id.
use Prim.Native.String.{◌++◌ as ◌+++◌}
use text.Mathlib.TextLemmas.{append-eq-nil_iff}
use distributed_cloud_system.Base.{
  ℕ, zero, suc, ◌/◌, ◌<◌, ◌≡◌, refl, String, List, [], ◌∷◌, All, length, false, arith, str_eq,
  str_eq_iff, Bool-cases, inl, inr,
}
use distributed_cloud_system.Tracing.{
  digits, nth_digit, encode_to_string, Random, bytes, unavailable, generate_trace_id,
  request_trace_id,
}

-- What `crypto/rand` gives are bytes.
abbrev pub AreBytes : Random → Type 0
AreBytes (bytes a b c d e f g h) = a < 256
AreBytes (unavailable nanoseconds) = Unit

append-full : (s t : String) → str_eq s "" ≡ false → str_eq (s +++ t) "" ≡ false
append-full s t full = elim (Bool-cases (str_eq (s +++ t) "")) [
  | inr f ↦ f
  | inl empty ↦
      let e = (append-eq-nil_iff.0 ((str_eq_iff (s +++ t) "").0 empty)).0 in
      let f = (str_eq_iff s "").1 e in ground (arith, f)
]

nth_digit-full :
    (n : ℕ) (ds : List String)
    → n < length ds
    → All (λ (d : String). str_eq d "" ≡ false) ds
    → str_eq (nth_digit n ds) "" ≡ false
unfolding nth_digit
nth_digit-full n [] lt h = absurd (omega arith)
nth_digit-full zero (d ∷ ds) lt h = h.0
nth_digit-full (suc n) (d ∷ ds) lt h = nth_digit-full n ds (omega arith) h.1

encode_to_string-full :
    (b : ℕ) (bs : List ℕ) → b < 256 → str_eq (encode_to_string (b ∷ bs)) "" ≡ false
unfolding encode_to_string
encode_to_string-full b bs lt = append-full (nth_digit (b / 16) digits) _ (
    nth_digit-full (b / 16) digits (omega arith) (
      refl,
      (
        refl,
        (
          refl,
          (
            refl,
            (
              refl,
              (
                refl,
                (refl, (refl, (refl, (refl, (refl, (refl, (refl, (refl, (refl, (refl, tt)))))))))),
              ),
            ),
          ),
        ),
      ),
    ))

generate_trace_id-full :
    (random : Random) → AreBytes random → str_eq (generate_trace_id random) "" ≡ false
unfolding generate_trace_id
generate_trace_id-full (unavailable nanoseconds) h = append-full "trace-" nanoseconds refl
generate_trace_id-full (bytes a b c d e f g h) lt =
    encode_to_string-full a (b ∷ c ∷ d ∷ e ∷ f ∷ g ∷ h ∷ []) lt

pub request_trace_id-full :
    (header : String) (random : Random)
    → AreBytes random
    → str_eq (request_trace_id header random) "" ≡ false
unfolding request_trace_id
request_trace_id-full header random h = elim (Bool-cases (str_eq header "")) [
  | inl empty ↦ rw empty (generate_trace_id-full random h)
  | inr full ↦ rw full full
]
