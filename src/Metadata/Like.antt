-- ===== src/Metadata/Like.antt =====
-- internal/metadata/repository.go: `likePatternEscaper`, and PostgreSQL's ILIKE, which the query of
-- `SearchFiles` uses. How ILIKE folds the case of a character is a parameter.
use Prim.Native.Char.{Char, code, char}
use Prim.Native.String.{[], ◌∷◌, ◌++◌ as ◌+++◌}
use distributed_cloud_system.Base.{
  ℕ, String, Bool, true, false, ◌&&◌, ◌||◌, ◌==◌, str_eq, if◌then◌else◌,
}

abbrev pub backslash : Char
backslash = char 92 tt

abbrev pub is_special : Char → Bool
is_special c = code c == 92 || (code c == b'%' || code c == b'_')

-- `likePatternEscaper.Replace`
unfoldable pub escape : String → String
escape [] = ""
escape (c ∷ s) = let rest = escape s in if is_special c then backslash ∷ c ∷ rest else c ∷ rest

-- `'%' || $3 || '%'`
abbrev pub anywhere : String → String
anywhere p = "%" +++ (p +++ "%")

-- A test of some end of a text, the whole text and the empty one included.
unfoldable pub any_end : (String → Bool) → String → Bool
any_end p [] = p ""
any_end p (c ∷ s) = p (c ∷ s) || any_end p s

module _ (fold : ℕ → ℕ) where
  abbrev pub same_char : Char → Char → Bool
  same_char c d = fold (code c) == fold (code d)

  -- One character of the text, which the rest of the pattern follows.
  abbrev pub one_char : (Char → Bool) → (String → Bool) → String → Bool
  one_char p rest [] = false
  one_char p rest (c ∷ s) = p c && rest s

  -- ILIKE on the rest of a pattern, after a backslash or not. `%` stands for any text, `_` for any
  -- character, and a backslash takes the next character as it is. PostgreSQL refuses a pattern that
  -- ends in a backslash.
  unfoldable pub ilike_from : Bool → String → String → Bool
  ilike_from true [] t = false
  ilike_from false [] t = str_eq t ""
  ilike_from true (c ∷ p) t = one_char (same_char c) (ilike_from false p) t
  ilike_from false (c ∷ p) t = elim (code c == b'%') [
    | true ↦ any_end (ilike_from false p) t
    | false ↦ elim (code c == b'_') [
      | true ↦ one_char (λ _. true) (ilike_from false p) t
      | false ↦ elim (code c == 92) [
        | true ↦ ilike_from true p t
        | false ↦ one_char (same_char c) (ilike_from false p) t
      ]
    ]
  ]

  -- `text ILIKE pattern`
  unfoldable pub ilike : String → String → Bool
  unfolding ilike_from
  ilike pattern text = ilike_from false pattern text
