-- ===== src/Config/Lists.antt =====
-- A list in the environment is read back as it was written.
use Prim.Native.Char.{Char, code, char}
use Prim.Native.String.{[], ◌∷◌, ◌++◌ as ◌+++◌}
use text.Mathlib.TextLemmas.{nil-append, cons-append, cons≢nil}
use distributed_cloud_system.Base.{
  ◌≡◌, refl, ◌∙◌, String, some, List, [], ◌∷◌, false, not, str_eq, str_eq_iff, keep, map, All,
  split, split-append, trim_space, trim_left, trim_right, is_space, Bool-cases, inl, inr,
}
use distributed_cloud_system.Config.{Env, get_env_list}

abbrev comma : Char
comma = char b',' tt

-- A part without spaces at its ends and without a comma.
abbrev pub IsPart : String → Type 0
IsPart [] = ⊥
IsPart (c ∷ s) =
    (is_space (code c) ≡ false) × (trim_right (c ∷ s) ≡ c ∷ s) × (split b',' (c ∷ s) ≡ (c ∷ s) ∷ [])

-- The parts with a comma between any two.
abbrev pub join : String → List String → String
join p [] = p
join p (q ∷ ps) = p +++ (comma ∷ join q ps)

filled : (c : Char) (s : String) → str_eq (c ∷ s) "" ≡ false
filled c s = elim (Bool-cases (str_eq (c ∷ s) "")) [
  | inr e ↦ e
  | inl e ↦ absurd (cons≢nil ((str_eq_iff (c ∷ s) "").0 e))
]

append_filled : (s t : String) → str_eq t "" ≡ false → str_eq (s +++ t) "" ≡ false
append_filled [] t h = rw (nil-append t) h
append_filled (c ∷ s) t h = rw (cons-append c s t) (filled c (s +++ t))

trim_right-cons :
    (c : Char) (s : String) → trim_right s ≡ s → str_eq s "" ≡ false → trim_right (c ∷ s) ≡ c ∷ s
unfolding trim_right
trim_right-cons c s h k = elim (Bool-cases (is_space (code c))) [
  | inl e ↦ rw (e, h, k) refl
  | inr e ↦ rw (e, h) refl
]

trim_right-append :
    (s t : String) → trim_right t ≡ t → str_eq t "" ≡ false → trim_right (s +++ t) ≡ s +++ t
trim_right-append [] t h k = rw (nil-append t) h
trim_right-append (c ∷ s) t h k =
    rw (cons-append c s t)
      (trim_right-cons c (s +++ t) (trim_right-append s t h k) (append_filled s t k))

join_filled : (p : String) (ps : List String) → IsPart p → str_eq (join p ps) "" ≡ false
join_filled [] ps h = absurd h
join_filled (c ∷ s) [] h = filled c s
join_filled (c ∷ s) (q ∷ ps) h =
    rw (cons-append c s (comma ∷ join q ps)) (filled c (s +++ (comma ∷ join q ps)))

trim_right-part : (p : String) → IsPart p → trim_right p ≡ p
trim_right-part [] h = absurd h
trim_right-part (c ∷ s) h = h.1

split-part : (p : String) → IsPart p → split b',' p ≡ p ∷ []
split-part [] h = absurd h
split-part (c ∷ s) h = h.2

trim_right-join :
    (p : String) (ps : List String) → IsPart p → All IsPart ps → trim_right (join p ps) ≡ join p ps
trim_right-join p [] h hs = trim_right-part p h
trim_right-join p (q ∷ ps) h hs =
    trim_right-append p (comma ∷ join q ps)
      (trim_right-cons comma (join q ps) (trim_right-join q ps hs.0 hs.1) (join_filled q ps hs.0))
      (filled comma (join q ps))

trim_left-part : (c : Char) (s : String) → is_space (code c) ≡ false → trim_left (c ∷ s) ≡ c ∷ s
unfolding trim_left
trim_left-part c s h = rw h refl

trim_left-join : (p : String) (ps : List String) → IsPart p → trim_left (join p ps) ≡ join p ps
trim_left-join [] ps h = absurd h
trim_left-join (c ∷ s) [] h = trim_left-part c s h.0
trim_left-join (c ∷ s) (q ∷ ps) h =
    rw (cons-append c s (comma ∷ join q ps)) (trim_left-part c (s +++ (comma ∷ join q ps)) h.0)

trim_space-join :
    (p : String) (ps : List String) → IsPart p → All IsPart ps → trim_space (join p ps) ≡ join p ps
unfolding trim_space
trim_space-join p ps h hs = rw (trim_right-join p ps h hs) (trim_left-join p ps h)

split-join :
    (p : String) (ps : List String) → IsPart p → All IsPart ps → split b',' (join p ps) ≡ p ∷ ps
split-join p [] h hs = split-part p h
split-join p (q ∷ ps) h hs =
    split-append comma p (join q ps) ∙ rw (split-part p h, split-join q ps hs.0 hs.1) refl

-- Each part is kept as it is.
parts_kept :
    (ps : List String)
    → All IsPart ps
    → keep (λ part. not (str_eq part "")) (map trim_space ps) ≡ ps
parts_kept [] h = refl
parts_kept (p ∷ ps) h =
    let e : trim_space p ≡ p = trim_space-join p [] h.0 tt in
    let k : str_eq p "" ≡ false = join_filled p [] h.0 in rw (e, k, parts_kept ps h.1) refl

-- A variable that holds one or more parts with a comma between any two, each part not empty, without
-- space at its ends and without a comma, is read as the list of these parts.
pub get_env_list-join :
    (env : Env) (key p : String) (ps : List String)
    → IsPart p
    → All IsPart ps
    → env key ≡ some (join p ps)
    → get_env_list env key ≡ p ∷ ps
unfolding get_env_list
get_env_list-join env key p ps h hs e =
    rw (e, trim_space-join p ps h hs, join_filled p ps h, split-join p ps h hs)
      (parts_kept (p ∷ ps) (h, hs))
