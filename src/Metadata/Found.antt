-- ===== src/Metadata/Found.antt =====
-- What a search answers.
use distributed_cloud_system.Base.{
  ℕ, zero, suc, ◌≤◌, ◌<◌, ◌⊎◌, ◌≡◌, refl, String, List, [], ◌∷◌, true, false, arith, ==_iff, keep,
  take, length, length-take, str_eq, All, All-map, All-keep_where, Bool-cases, inl, inr,
}
use distributed_cloud_system.Storage.World.{
  World, FileRow, Status, uploading, ready, Database, pass, fail, late, cut, Outcome,
}
use distributed_cloud_system.Storage.Action.{Result, ok, next_outcome, advance}
use distributed_cloud_system.Storage.Chunks.{query_rows, attempt_rows}
use distributed_cloud_system.Metadata.Repository.{
  is_ready, max_search_results, Jsonb, comes_first, place_file, newest_first, is_hit, hits,
  search_rows,
}
use distributed_cloud_system.Metadata.Service.{search_files}

-- No file of the list comes before one that stands in front of it.
abbrev pub IsOrdered : List FileRow → Type 0
IsOrdered [] = Unit
IsOrdered (f ∷ fs) = All (λ g. comes_first g f ≡ false) fs × IsOrdered fs

module _ (P : FileRow → Type 0) where
  All-place_file : (f : FileRow) (fs : List FileRow) → P f → All P fs → All P (place_file f fs)
  unfolding place_file
  All-place_file f [] h hs = (h, tt)
  All-place_file f (g ∷ gs) h hs = elim (Bool-cases (comes_first f g)) [
    | inl e ↦ rw e (h, hs)
    | inr e ↦ rw e (hs.0, All-place_file f gs h hs.1)
  ]

  All-newest_first : (fs : List FileRow) → All P fs → All P (newest_first fs)
  unfolding newest_first
  All-newest_first [] h = tt
  All-newest_first (f ∷ fs) h = All-place_file f (newest_first fs) h.0 (All-newest_first fs h.1)

  All-take : (n : ℕ) (fs : List FileRow) → All P fs → All P (take n fs)
  All-take zero fs h = tt
  All-take (suc n) [] h = tt
  All-take (suc n) (f ∷ fs) h = (h.0, All-take n fs h.1)

before_both :
    (f g h : FileRow) → comes_first f g ≡ true → comes_first h g ≡ false → comes_first h f ≡ false
before_both f g h p q = ground arith

not_both : (f g : FileRow) → comes_first f g ≡ true → comes_first g f ≡ false
not_both f g p = ground arith

place_file-IsOrdered :
    (f : FileRow) (fs : List FileRow) → IsOrdered fs → IsOrdered (place_file f fs)
unfolding place_file
place_file-IsOrdered f [] h = (tt, tt)
place_file-IsOrdered f (g ∷ gs) h = elim (Bool-cases (comes_first f g)) [
  | inl e ↦ rw e ((not_both f g e, All-map _ _ gs (λ x q. before_both f g x e q) h.0), h)
  | inr e ↦
      rw e (All-place_file (λ x. comes_first x g ≡ false) f gs e h.0, place_file-IsOrdered f gs h.1)
]

newest_first-IsOrdered : (fs : List FileRow) → IsOrdered (newest_first fs)
unfolding newest_first
newest_first-IsOrdered [] = tt
newest_first-IsOrdered (f ∷ fs) =
    place_file-IsOrdered f (newest_first fs) (newest_first-IsOrdered fs)

take-IsOrdered : (n : ℕ) (fs : List FileRow) → IsOrdered fs → IsOrdered (take n fs)
take-IsOrdered zero fs h = tt
take-IsOrdered (suc n) [] h = tt
take-IsOrdered (suc n) (f ∷ fs) h =
    (All-take (λ g. comes_first g f ≡ false) n fs h.0, take-IsOrdered n fs h.1)

All-of : {A : Type 0} {P : A → Type 0} → ((x : A) → P x) → (xs : List A) → All P xs
All-of f [] = tt
All-of f (x ∷ xs) = (f x, All-of f xs)

answer_eq :
    {A : Type 0} {a b : A} {w w1 : World} → Path (Result A × World) (ok a, w) (ok b, w1) → a ≡ b
answer_eq h = ground arith

-- The newest first, and those of the same time by their ids.
abbrev pub NewestFirst : List FileRow → Type 0
NewestFirst [] = Unit
NewestFirst (f ∷ fs) =
    All (λ g. (g.created_at < f.created_at) ⊎ ((g.created_at ≡ f.created_at) × (f.id ≤ g.id))) fs
    × NewestFirst fs

not_before :
    (f g : FileRow)
    → comes_first g f ≡ false
    → (g.created_at < f.created_at) ⊎ ((g.created_at ≡ f.created_at) × (f.id ≤ g.id))
not_before f g h = ground (arith, h, ==_iff g.created_at f.created_at)

ordered-NewestFirst : (fs : List FileRow) → IsOrdered fs → NewestFirst fs
ordered-NewestFirst [] h = tt
ordered-NewestFirst (f ∷ fs) h =
    (All-map _ _ fs (λ g q. not_before f g q) h.0, ordered-NewestFirst fs h.1)

-- An answer to a search of a user.
pub record IsAnswer (user : ℕ) (fs : List FileRow) : Type 0 where
  pub few : length fs ≤ 200
  pub own : All (λ (f : FileRow). (f.user_id ≡ user) × (f.status ≡ ready)) fs
  pub order : NewestFirst fs

take-NewestFirst : (n : ℕ) (fs : List FileRow) → NewestFirst fs → NewestFirst (take n fs)
take-NewestFirst zero fs h = tt
take-NewestFirst (suc n) [] h = tt
take-NewestFirst (suc n) (f ∷ fs) h = (
  All-take (λ g. (g.created_at < f.created_at) ⊎ ((g.created_at ≡ f.created_at) × (f.id ≤ g.id))) n
      fs h.0,
  take-NewestFirst n fs h.1,
)

take-IsAnswer : (n user : ℕ) (fs : List FileRow) → IsAnswer user fs → IsAnswer user (take n fs)
take-IsAnswer n user fs h = record {
  few = omega (arith, length-take n fs, h.few);
  own = All-take (λ f. (f.user_id ≡ user) × (f.status ≡ ready)) n fs h.own;
  order = take-NewestFirst n fs h.order;
}

is_ready-ready : (f : FileRow) → is_ready f ≡ true → f.status ≡ ready
is_ready-ready f h = go f.status refl
  where
    go : (s : Status) → f.status ≡ s → s ≡ ready
    go ready e = refl
    go uploading e = absurd (ground (arith, e))

module _ (fold : ℕ → ℕ) (J : Jsonb) (user : ℕ) (search : String) where
  is_hit-own :
      (d : Database) (f : FileRow)
      → is_hit fold J user search d f ≡ true
      → (f.user_id ≡ user) × (f.status ≡ ready)
  is_hit-own d f h =
      (ground (arith, h, ==_iff f.user_id user), is_ready-ready f (ground (arith, h)))

  hits-IsAnswer : (d : Database) → IsAnswer user (hits fold J user search d)
  unfolding hits
  hits-IsAnswer d =
      let found = keep (is_hit fold J user search d) d.files in
      let all = newest_first found in
      record {
        few = omega (arith, length-take max_search_results all);
        own =
            All-take (λ f. (f.user_id ≡ user) × (f.status ≡ ready)) max_search_results all
              (All-newest_first (λ f. (f.user_id ≡ user) × (f.status ≡ ready)) found
                (All-keep_where (λ _. Unit) _ (is_hit fold J user search d) d.files
                  (λ f e _. is_hit-own d f e) (All-of (λ _. tt) d.files)));
        order =
            ordered-NewestFirst _
              (take-IsOrdered max_search_results all (newest_first-IsOrdered found));
      }

  rows-IsAnswer :
      (o : Outcome) (w w1 : World) (fs : List FileRow)
      → attempt_rows o (λ w. hits fold J user search w.db) w ≡ (ok fs, w1)
      → IsAnswer user fs
  rows-IsAnswer pass w w1 fs h = rw (← answer_eq h) (hits-IsAnswer w.db)
  rows-IsAnswer (cut n) w w1 fs h = rw (← answer_eq h) (take-IsAnswer n user _ (hits-IsAnswer w.db))
  rows-IsAnswer (fail e) w w1 fs h = absurd (ground arith)
  rows-IsAnswer (late e) w w1 fs h = absurd (ground arith)

  -- Whatever is searched for and whatever breaks off, a search that is answered lists at most 200
  -- files, all of them ready and of the user who asks, the newest first and those of the same time by
  -- their ids.
  pub search_files-IsAnswer :
      (w w1 : World) (fs : List FileRow)
      → search_files fold J user search w ≡ (ok fs, w1)
      → IsAnswer user fs
  unfolding search_files search_rows query_rows
  search_files-IsAnswer w w1 fs h = elim (Bool-cases (str_eq search "")) [
    | inl empty ↦
        rw (← answer_eq (rw empty at h)) (record { few = omega arith; own = tt; order = tt })
    | inr some_text ↦ rows-IsAnswer (next_outcome w.plan) (advance w) w1 fs (rw some_text at h)
  ]
