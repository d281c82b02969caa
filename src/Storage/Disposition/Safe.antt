-- ===== src/Storage/Disposition/Safe.antt =====
-- The filename of a download is a bare name.
use Prim.Native.Char.{Char, code}
use Prim.Native.String.{[], ◌∷◌}
use distributed_cloud_system.Base.{
  ℕ, ◌≡◌, refl, String, Option, none, some, List, [], ◌∷◌, Bool, true, false, ◌&&◌, not, ◌==◌,
  str_eq, any, if◌then◌else◌, push, split, All, Bool-cases, inl, inr, ◌⊎◌,
}
use distributed_cloud_system.Storage.Disposition.{
  forward_slashes, last_part, or_root, base, is_control, without_control, reserved, or_download,
  safe_name,
}

-- Every character passes a test.
abbrev pub Chars : (ℕ → Bool) → String → Type 0
Chars p [] = Unit
Chars p (c ∷ s) = (p (code c) ≡ true) × Chars p s

abbrev pub no_separator : ℕ → Bool
no_separator n = not (n == 92) && not (n == b'/')

abbrev pub is_plain : ℕ → Bool
is_plain n = no_separator n && not (is_control n)

abbrev no_backslash : ℕ → Bool
no_backslash n = not (n == 92)

forward_slashes-Chars : (s : String) → Chars no_backslash (forward_slashes s)
unfolding forward_slashes
forward_slashes-Chars [] = tt
forward_slashes-Chars (c ∷ s) = elim (Bool-cases (code c == 92)) [
  | inl e ↦ rw e (refl, forward_slashes-Chars s)
  | inr e ↦ rw e (rw e refl, forward_slashes-Chars s)
]

push-Chars :
    (p : ℕ → Bool) (c : Char) (ws : List String)
    → p (code c) ≡ true
    → All (Chars p) ws
    → All (Chars p) (push c ws)
push-Chars p c [] h hs = ((h, tt), tt)
push-Chars p c (w ∷ ws) h hs = ((h, hs.0), hs.1)

split-Chars : (s : String) → Chars no_backslash s → All (Chars no_separator) (split b'/' s)
unfolding split
split-Chars [] h = (tt, tt)
split-Chars (c ∷ s) h = elim (Bool-cases (code c == b'/')) [
  | inl e ↦ rw e (tt, split-Chars s h.1)
  | inr e ↦ rw e (push-Chars no_separator c (split b'/' s) (rw (h.0, e) refl) (split-Chars s h.1))
]

abbrev InLast : Option String → Type 0
InLast none = Unit
InLast (some w) = Chars no_separator w

last_part-Chars : (ws : List String) → All (Chars no_separator) ws → InLast (last_part ws)
unfolding last_part
last_part-Chars [] h = tt
last_part-Chars (w ∷ ws) h = go (last_part ws) (last_part-Chars ws h.1)
  where
    go :
        (rest : Option String)
        → InLast rest
        → InLast (elim rest [ some last ↦ some last | none ↦ if str_eq w "" then none else some w ])
    go (some last) k = k
    go none k = elim (Bool-cases (str_eq w "")) [ inl e ↦ rw e tt | inr e ↦ rw e h.0 ]

base-Chars : (s : String) → Chars no_backslash s → (base s ≡ "/") ⊎ Chars no_separator (base s)
unfolding base
base-Chars s h = elim (Bool-cases (str_eq s "")) [
  | inl e ↦ rw e (inr (refl, tt))
  | inr e ↦ rw e (go (last_part (split b'/' s)) (last_part-Chars (split b'/' s) (split-Chars s h)))
]
  where
    go : (o : Option String) → InLast o → (or_root o ≡ "/") ⊎ Chars no_separator (or_root o)
    go none k = inl refl
    go (some w) k = inr k

without_control-Chars : (s : String) → Chars no_separator s → Chars is_plain (without_control s)
unfolding without_control
without_control-Chars [] h = tt
without_control-Chars (c ∷ s) h = elim (Bool-cases (is_control (code c))) [
  | inl e ↦ rw e (without_control-Chars s h.1)
  | inr e ↦ rw e (rw (h.0, e) refl, without_control-Chars s h.1)
]

abbrev pub IsBare : String → Type 0
IsBare n = Chars is_plain n × (any (str_eq n) reserved ≡ false)

download-IsBare : IsBare "download"
download-IsBare = ((refl, (refl, (refl, (refl, (refl, (refl, (refl, (refl, tt)))))))), refl)

or_download-IsBare : (n : String) → Chars is_plain n → IsBare (or_download n)
or_download-IsBare n h = elim (Bool-cases (any (str_eq n) reserved)) [
  | inl e ↦ rw e download-IsBare
  | inr e ↦ rw e (h, e)
]

-- Whatever the name of the upload was, the filename that goes into the header of a download has no
-- slash, no backslash and no control character, and is not empty and not one of the names of a directory.
pub safe_name-IsBare : (name : String) → IsBare (safe_name name)
unfolding safe_name without_control
safe_name-IsBare name = elim (base-Chars (forward_slashes name) (forward_slashes-Chars name)) [
  | inl root ↦ rw root download-IsBare
  | inr parts ↦
      or_download-IsBare (without_control (base (forward_slashes name)))
        (without_control-Chars (base (forward_slashes name)) parts)
]
