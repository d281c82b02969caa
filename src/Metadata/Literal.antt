-- ===== src/Metadata/Literal.antt =====
-- The search pattern finds exactly the texts that hold the search term.
use Prim.Native.Char.{Char, code, char}
use Prim.Native.String.{[], ◌∷◌, ◌++◌ as ◌+++◌}
use text.Mathlib.TextLemmas.{nil-append, cons-append}
use distributed_cloud_system.Base.{
  ℕ, ◌≡◌, refl, ap, ◌∙◌, String, Bool, true, false, arith, ◌==◌, if◌then◌else◌,
}
use distributed_cloud_system.Metadata.Like.{
  backslash, is_special, escape, anywhere, any_end, one_char, same_char, ilike_from, ilike,
}

abbrev percent : Char
percent = char b'%' tt

escape-nil : escape "" ≡ ""
unfolding escape
escape-nil = refl

-- A character of the term, escaped, and what follows it.
escape-cons :
    (c : Char) (s p : String)
    → escape (c ∷ s) +++ p
      ≡ (if is_special c then backslash ∷ c ∷ (escape s +++ p) else c ∷ (escape s +++ p))
unfolding escape
escape-cons c s p =
    elim (is_special c)
      as (λ b.
        (if b then backslash ∷ c ∷ escape s else c ∷ escape s) +++ p
        ≡ (if b then backslash ∷ c ∷ (escape s +++ p) else c ∷ (escape s +++ p))) [
          | true ↦
              cons-append backslash (c ∷ escape s) p
              ∙ ap (λ (t : String). backslash ∷ t) (cons-append c (escape s) p)
          | false ↦ cons-append c (escape s) p
        ]

module _ (fold : ℕ → ℕ) where
  -- The text begins with the term, up to case.
  unfoldable pub begins_with : String → String → Bool
  begins_with [] t = true
  begins_with (c ∷ q) t = one_char fold (same_char fold c) (begins_with q) t

  -- The text holds the term, up to case.
  unfoldable pub holds : String → String → Bool
  unfolding begins_with
  holds q t = any_end (begins_with q) t

  any_end-true : (t : String) → any_end (ilike_from fold false "") t ≡ true
  unfolding any_end ilike_from
  any_end-true [] = refl
  any_end-true (c ∷ t) = let e = any_end-true t in ground (arith, e)

  any_end-cong :
      (p q : String → Bool) (t : String) → ((s : String) → p s ≡ q s) → any_end p t ≡ any_end q t
  unfolding any_end
  any_end-cong p q [] h = h ""
  any_end-cong p q (c ∷ t) h = rw (h (c ∷ t), any_end-cong p q t h) refl

  one_char-cong :
      (c : Char → Bool) (p q : String → Bool) (t : String)
      → ((s : String) → p s ≡ q s)
      → one_char fold c p t ≡ one_char fold c q t
  one_char-cong c p q [] h = refl
  one_char-cong c p q (d ∷ t) h = rw (h t) refl

  from_percent : (t : String) → ilike_from fold false "%" t ≡ true
  unfolding ilike_from
  from_percent t = any_end-true t

  plain :
      (c : Char) (p t : String)
      → is_special c ≡ false
      → ilike_from fold false (c ∷ p) t
        ≡ one_char fold (same_char fold c) (ilike_from fold false p) t
  unfolding ilike_from
  plain c p t e =
      let percent : (code c == b'%') ≡ false = ground arith in
      let underscore : (code c == b'_') ≡ false = ground arith in
      let slash : (code c == 92) ≡ false = ground arith in
      ground (arith, percent, underscore, slash)

  from_literal :
      (c : Char) (p t : String)
      → ilike_from fold false (if is_special c then backslash ∷ c ∷ p else c ∷ p) t
        ≡ one_char fold (same_char fold c) (ilike_from fold false p) t
  unfolding ilike_from
  from_literal c p t =
      elim (is_special c)
          as (λ b.
            is_special c ≡ b
            → ilike_from fold false (if b then backslash ∷ c ∷ p else c ∷ p) t
              ≡ one_char fold (same_char fold c) (ilike_from fold false p) t) [
                | true ↦ λ e. refl
                | false ↦ λ e. plain c p t e
              ]
        refl

  begins_with-nil : (t : String) → true ≡ begins_with "" t
  unfolding begins_with
  begins_with-nil t = refl

  begins_with-cons :
      (c : Char) (q t : String)
      → one_char fold (same_char fold c) (begins_with q) t ≡ begins_with (c ∷ q) t
  unfolding begins_with
  begins_with-cons c q t = refl

  percent_any : (p t : String) → ilike fold ("%" +++ p) t ≡ any_end (ilike_from fold false p) t
  unfolding ilike ilike_from
  percent_any p t = rw (cons-append percent "" p, nil-append p) refl

  from_escape : (q t : String) → ilike_from fold false (escape q +++ "%") t ≡ begins_with q t
  from_escape [] t = rw (escape-nil, nil-append "%") (from_percent t ∙ begins_with-nil t)
  from_escape (c ∷ q) t = rw (escape-cons c q "%") (
      from_literal c (escape q +++ "%") t
      ∙ one_char-cong (same_char fold c) (ilike_from fold false (escape q +++ "%")) (begins_with q)
          t (λ s. from_escape q s)
      ∙ begins_with-cons c q t)

  -- A search for any term, wildcards and backslashes included, matches exactly the texts that hold the
  -- term as it is, up to case.
  pub ilike-escape : (q t : String) → ilike fold (anywhere (escape q)) t ≡ holds q t
  unfolding holds
  ilike-escape q t =
      percent_any (escape q +++ "%") t
      ∙ any_end-cong (ilike_from fold false (escape q +++ "%")) (begins_with q) t
          (λ s. from_escape q s)
