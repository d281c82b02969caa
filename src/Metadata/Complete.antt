-- ===== src/Metadata/Complete.antt =====
-- That a search misses nothing.
use distributed_cloud_system.Base.{
  ℕ, zero, suc, ◌<◌, ◌≡◌, refl, ◌∙◌, String, List, [], ◌∷◌, Bool, true, false, arith, ==_refl, keep,
  take, length, str_eq, Bool-cases, inl, inr, ◌⊎◌,
}
use distributed_cloud_system.Storage.World.{World, FileRow, Database, pass}
use distributed_cloud_system.Storage.Action.{ok, next_outcome, advance}
use distributed_cloud_system.Storage.Chunks.{query_rows}
use distributed_cloud_system.Metadata.Repository.{
  is_ready, max_search_results, Jsonb, comes_first, place_file, newest_first, is_hit, hits,
  search_rows,
}
use distributed_cloud_system.Metadata.Like.{ilike, anywhere, escape}
use distributed_cloud_system.Metadata.Literal.{holds, ilike-escape}
use distributed_cloud_system.Metadata.Service.{search_files}

abbrev pub IsIn : FileRow → List FileRow → Type 0
IsIn f [] = ⊥
IsIn f (g ∷ gs) = (f ≡ g) ⊎ IsIn f gs

module _ (f : FileRow) where
  IsIn-keep : (p : FileRow → Bool) (fs : List FileRow) → p f ≡ true → IsIn f fs → IsIn f (keep p fs)
  IsIn-keep p [] h k = k
  IsIn-keep p (g ∷ gs) h (inl e) = rw (← e, h) (inl refl)
  IsIn-keep p (g ∷ gs) h (inr k) = elim (Bool-cases (p g)) [
    | inl e ↦ rw e (inr (IsIn-keep p gs h k))
    | inr e ↦ rw e (IsIn-keep p gs h k)
  ]

  IsIn-place_file : (g : FileRow) (fs : List FileRow) → IsIn f (g ∷ fs) → IsIn f (place_file g fs)
  unfolding place_file
  IsIn-place_file g [] k = k
  IsIn-place_file g (x ∷ xs) k = elim (Bool-cases (comes_first g x)) [
    | inl e ↦ rw e k
    | inr e ↦ rw e (later (IsIn-place_file g xs) k)
  ]
    where
      later :
          (IsIn f (g ∷ xs) → IsIn f (place_file g xs))
          → IsIn f (g ∷ x ∷ xs)
          → IsIn f (x ∷ place_file g xs)
      later put (inl q) = inr (put (inl q))
      later put (inr (inl q)) = inl q
      later put (inr (inr q)) = inr (put (inr q))

  IsIn-newest_first : (fs : List FileRow) → IsIn f fs → IsIn f (newest_first fs)
  unfolding newest_first
  IsIn-newest_first [] k = k
  IsIn-newest_first (g ∷ gs) (inl e) = IsIn-place_file g (newest_first gs) (inl e)
  IsIn-newest_first (g ∷ gs) (inr k) =
      IsIn-place_file g (newest_first gs) (inr (IsIn-newest_first gs k))

  -- A list that is not filled up has lost nothing.
  IsIn-take : (n : ℕ) (fs : List FileRow) → length (take n fs) < n → IsIn f fs → IsIn f (take n fs)
  IsIn-take zero fs h k = absurd (omega arith)
  IsIn-take (suc n) [] h k = k
  IsIn-take (suc n) (g ∷ gs) h (inl e) = inl e
  IsIn-take (suc n) (g ∷ gs) h (inr k) = inr (IsIn-take n gs (omega arith) k)

module _ (fold : ℕ → ℕ) (J : Jsonb) (user : ℕ) (search : String) (f : FileRow) where
  holds-is_hit :
      (d : Database)
      → f.user_id ≡ user
      → is_ready f ≡ true
      → holds fold search f.name ≡ true
      → is_hit fold J user search d f ≡ true
  holds-is_hit d own done held =
      let named : ilike fold (anywhere (escape search)) f.name ≡ true =
        ilike-escape fold search f.name ∙ held in
      rw (own, ==_refl user, done, named) refl

  -- A search that nothing interrupts, for a term that is not empty and with fewer than 200 results,
  -- lists every ready file of the user whose name holds the term up to case, wildcards taken as they are.
  pub search_files_complete :
      (w : World)
      → next_outcome w.plan ≡ pass
      → str_eq search "" ≡ false
      → IsIn f w.db.files
      → f.user_id ≡ user
      → is_ready f ≡ true
      → holds fold search f.name ≡ true
      → (fs : List FileRow) × (search_files fold J user search w ≡ (ok fs, advance w))
        × (length fs < max_search_results → IsIn f fs)
  unfolding search_files search_rows query_rows hits
  search_files_complete w passes named there own done held = (
    hits fold J user search w.db,
    rw (named, passes) refl,
    λ few.
        IsIn-take f max_search_results _ few (
          IsIn-newest_first f _ (IsIn-keep f _ w.db.files (holds-is_hit w.db own done held) there)),
  )
