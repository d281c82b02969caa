-- ===== src/Base/Texts.antt =====
-- What the program uses of package strings: `Split` at one character, and `TrimSpace`.
use Prim.Native.Char.{Char, code}
use Prim.Native.Nat.{ℕ}
use Prim.Native.String.{String, [], ◌∷◌, ◌++◌ as ◌+++◌}
use mathlib.Core.Path.{◌≡◌, refl}
use mathlib.Core.Bool.{Bool, ◌&&◌, ◌||◌}
use text.Mathlib.Text.{◌==◌ as str_eq}
use mathlib.Core.Logic.{inl, inr}
use mathlib.Core.List.{List, [], ◌∷◌, ◌++◌}
use text.Mathlib.TextLemmas.{nil-append, cons-append}
use distributed_cloud_system.Base.Tests.{leb, ◌==◌, if◌then◌else◌, ==_refl, Bool-cases}

-- `unicode.IsSpace`
abbrev pub is_space : ℕ → Bool
is_space n =
    (leb 9 n && leb n 13)
    || (n == 32
        || (n == 0x85
            || (n == 0xA0
                || (n == 0x1680
                    || ((leb 0x2000 n && leb n 0x200A)
                        || (n == 0x2028
                            || (n == 0x2029 || (n == 0x202F || (n == 0x205F || n == 0x3000)))))))))

unfoldable pub trim_left : String → String
trim_left [] = ""
trim_left (c ∷ s) = let rest = trim_left s in if is_space (code c) then rest else c ∷ s

unfoldable pub trim_right : String → String
trim_right [] = ""
trim_right (c ∷ s) =
    let rest = trim_right s in if is_space (code c) && str_eq rest "" then "" else c ∷ rest

-- `strings.TrimSpace`
unfoldable pub trim_space : String → String
unfolding trim_left trim_right
trim_space s = trim_left (trim_right s)

abbrev pub push : Char → List String → List String
push c [] = (c ∷ []) ∷ []
push c (w ∷ ws) = (c ∷ w) ∷ ws

-- `strings.Split(s, sep)`, for a separator of one character.
unfoldable pub split : ℕ → String → List String
split sep [] = "" ∷ []
split sep (c ∷ s) = let rest = split sep s in if code c == sep then "" ∷ rest else push c rest

module _ (sep : Char) where
  split-cons :
      (c : Char) (s : String)
      → split (code sep) (c ∷ s)
        ≡ (if code c == code sep then "" ∷ split (code sep) s else push c (split (code sep) s))
  unfolding split
  split-cons c s = refl

  split-nil : split (code sep) "" ≡ "" ∷ []
  unfolding split
  split-nil = refl

  -- There is a first part.
  pushed : (c : Char) (ws : List String) → (w : String) × (vs : List String) × (push c ws ≡ w ∷ vs)
  pushed c [] = (c ∷ [], [], refl)
  pushed c (w ∷ ws) = (c ∷ w, ws, refl)

  split_first : (s : String) → (w : String) × (vs : List String) × (split (code sep) s ≡ w ∷ vs)
  split_first [] = ("", [], split-nil)
  split_first (c ∷ s) = elim (Bool-cases (code c == code sep)) [
    | inl same ↦ ("", split (code sep) s, rw (split-cons c s, same) refl)
    | inr other ↦
        let (w, vs, e) = pushed c (split (code sep) s) in (w, vs, rw (split-cons c s, other) e)
  ]

  push-append :
      (c : Char) (s : String) (vs : List String)
      → push c (split (code sep) s ++ vs) ≡ push c (split (code sep) s) ++ vs
  push-append c s vs = let (w, ws, e) = split_first s in rw e refl

  -- A separator between two texts splits them.
  pub split-append :
      (s t : String) → split (code sep) (s +++ (sep ∷ t)) ≡ split (code sep) s ++ split (code sep) t
  split-append [] t =
      rw (nil-append (sep ∷ t), split-cons sep t, ==_refl (code sep), split-nil) refl
  split-append (c ∷ s) t =
      rw
        (
          cons-append c s (sep ∷ t),
          split-cons c (s +++ (sep ∷ t)),
          split-cons c s,
          split-append s t,
        )
        (elim (Bool-cases (code c == code sep)) [
          | inl same ↦ rw same refl
          | inr other ↦ rw other (push-append c s (split (code sep) t))
        ])
