-- ===== src/Worker/Reading.antt =====
-- `io.ReadFull` from the readers of a download into a buffer: it stops once the buffer is full, so that
-- later chunks are not even fetched. It gives what `io.Copy` would give first.
use distributed_cloud_system.Base.{
  ℕ, zero, suc, ◌-◌, ◌≡◌, refl, ap, ◌∙◌, List, [], ◌∷◌, ◌++◌, arith, length, take, length-append,
  sym, ◌≤◌, ◌⊎◌, inl, inr,
}
use distributed_cloud_system.Storage.World.{World, Bytes}
use distributed_cloud_system.Storage.Action.{Result, ok, err}
use distributed_cloud_system.Storage.Reader.{Copied, prepend, copy_next, copy_all, load}

-- What one reader gives to a buffer with room for `n` bytes, and what the others add.
abbrev pub fill : ℕ → Result Bytes × World → (ℕ → World → Copied × World) → Copied × World
fill n (err e, w) rest = (record { out = []; ended = err e }, w)
fill n (ok b, w) rest = let (c, w1) = rest (n - length b) w in (prepend (take n b) c, w1)

take-nil : {A : Type 0} (n : ℕ) → Path (List A) [] (take n [])
take-nil zero = refl
take-nil (suc n) = refl

take-append :
    {A : Type 0} (n : ℕ) (xs ys : List A) → take n (xs ++ ys) ≡ take n xs ++ take (n - length xs) ys
take-append zero [] ys = refl
take-append zero (x ∷ xs) ys =
    let e : 0 ≡ 0 - suc (length xs) = omega arith in ap (λ k. take k ys) e
take-append (suc n) [] ys = let e : suc n ≡ suc n - 0 = omega arith in ap (λ k. take k ys) e
take-append (suc n) (x ∷ xs) ys =
    let e : n - length xs ≡ suc n - suc (length xs) = omega arith in
    ap (λ l. x ∷ l) (take-append n xs ys) ∙ ap (λ k. x ∷ (take n xs ++ take k ys)) e

module _ (sha : Bytes → ℕ) where
  unfoldable pub read_up_to : ℕ → List ℕ → World → Copied × World
  read_up_to n [] w = (record { out = []; ended = ok tt }, w)
  read_up_to zero (h ∷ hs) w = (record { out = []; ended = ok tt }, w)
  read_up_to (suc n) (h ∷ hs) w = fill (suc n) (load sha h w) (λ m w1. read_up_to m hs w1)

  -- The beginning of what a copy gives; it ends like the copy, or earlier because the buffer is full.
  abbrev pub Begins : ℕ → Copied → Copied → Type 0
  Begins n part whole =
      (part.out ≡ take n whole.out)
      × ((part.ended ≡ whole.ended) ⊎ ((n ≤ length whole.out) × (part.ended ≡ ok tt)))

  Begins-fill :
      (n : ℕ) (x : Result Bytes × World) (rest : ℕ → World → Copied × World)
      (copy : World → Copied × World)
      → ((m : ℕ) (w : World) → Begins m (rest m w).0 (copy w).0)
      → Begins n (fill n x rest).0 (copy_next sha x copy).0
  Begins-fill n (err e, w) rest copy h = (take-nil n, inl refl)
  Begins-fill n (ok b, w) rest copy h =
      let (out, ended) = h (n - length b) w in
      (
        ap (λ l. take n b ++ l) out ∙ sym (take-append n b (copy w).0.out),
        elim ended [
          | inl same ↦ inl same
          | inr (full, done) ↦ inr (omega (arith, length-append b (copy w).0.out), done)
        ],
      )

  -- Reading into a buffer gives the beginning of what a copy of the whole download would give: as much
  -- as fits, and it ends as the copy ends, or without an error because the buffer is full.
  pub read_up_to-Begins :
      (n : ℕ) (hs : List ℕ) (w : World) → Begins n (read_up_to n hs w).0 (copy_all sha hs w).0
  unfolding read_up_to copy_all
  read_up_to-Begins n [] w = (take-nil n, inl refl)
  read_up_to-Begins zero (h ∷ hs) w = (refl, inr (omega arith, refl))
  read_up_to-Begins (suc n) (h ∷ hs) w =
      Begins-fill (suc n) (load sha h w) (λ m w1. read_up_to m hs w1) (λ w1. copy_all sha hs w1)
        (λ m w1. read_up_to-Begins m hs w1)
