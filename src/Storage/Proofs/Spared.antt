-- ===== src/Storage/Proofs/Spared.antt =====
-- What a collection does to the chunks of a file: nothing.
use distributed_cloud_system.Base.{
  ℕ, ◌≡◌, refl, ap, ◌∙◌, inl, inr, List, [], ◌∷◌, Bool, true, false, not, arith, any, find, keep,
  All, All-keep, All-map, ◌==◌, ==_iff, Bool-cases,
}
use distributed_cloud_system.Storage.World.{Database, ChunkRow}
use distributed_cloud_system.Storage.Action.{◌>>◌, query}
use distributed_cloud_system.Storage.Chunks.{
  is_chunk, refers_to, lock_orphan, in_use, lock_orphaned_chunk, delete_chunk_row,
  delete_chunk_record,
}
use distributed_cloud_system.Storage.Collection.{
  drop_object, delete_object, collect_body, collect_chunk,
}
use distributed_cloud_system.Storage.Proofs.Stored.{Objects}
use distributed_cloud_system.Storage.Proofs.Keeps.{
  Keeps, query-Keeps, translate-Keeps, effect-Keeps, bind-Keeps, in_tx-Keeps,
}
use distributed_cloud_system.Storage.Proofs.Bucket.{
  KeepsBucket, query-KeepsBucket, translate-KeepsBucket, effect-KeepsBucket, bind-KeepsBucket,
  in_tx-KeepsBucket,
}

-- Removing what fails one test does not change what another one finds or keeps.
module _ {A : Type 0} (p q : A → Bool) where
  pub find-keep :
      (xs : List A) → All (λ (x : A). p x ≡ true → q x ≡ true) xs → find p (keep q xs) ≡ find p xs
  find-keep [] h = refl
  find-keep (x ∷ xs) h = elim (Bool-cases (p x)) [
    | inl here ↦ rw (h.0 here) (rw here refl)
    | inr other ↦ elim (Bool-cases (q x)) [
      | inl kept ↦ rw kept (rw other (find-keep xs h.1))
      | inr gone ↦ rw gone (rw other (find-keep xs h.1))
    ]
  ]

  pub keep-keep :
      (xs : List A) → All (λ (x : A). p x ≡ true → q x ≡ true) xs → keep p (keep q xs) ≡ keep p xs
  keep-keep [] h = refl
  keep-keep (x ∷ xs) h = elim (Bool-cases (p x)) [
    | inl here ↦ rw (h.0 here) (rw here (ap (λ (l : List A). x ∷ l) (keep-keep xs h.1)))
    | inr other ↦ elim (Bool-cases (q x)) [
      | inl kept ↦ rw kept (rw other (keep-keep xs h.1))
      | inr gone ↦ rw gone (rw other (keep-keep xs h.1))
    ]
  ]

pub All-of : {A : Type 0} (P : A → Type 0) (xs : List A) → ((x : A) → P x) → All P xs
All-of P [] h = tt
All-of P (x ∷ xs) h = (h x, All-of P xs h)

-- A candidate has its hash for itself.
abbrev pub OwnsHash : List ChunkRow → ChunkRow → Type 0
OwnsHash chunks c = All (λ (x : ChunkRow). x.hash ≡ c.hash → x.id ≡ c.id) chunks

module _ (c : ChunkRow) (candidates : List ChunkRow) (before : Database) where
  -- Files and links are those of before, and so is every chunk but the collected one.
  pub record IsSpared (d : Database) : Type 0 where
    pub files : d.files ≡ before.files
    pub links : d.links ≡ before.links
    pub chunks :
        (i : ℕ) → (i == c.id) ≡ false → find (is_chunk i) d.chunks ≡ find (is_chunk i) before.chunks
    pub hashes : All (OwnsHash d.chunks) candidates

  delete_chunk_row-IsSpared :
      (now : ℕ) (d : Database) → IsSpared d → IsSpared (delete_chunk_row c.id now d).1
  unfolding delete_chunk_row
  delete_chunk_row-IsSpared now d s = elim (Bool-cases (any (refers_to c.id) d.links)) [
    | inl used ↦ rw used s
    | inr unused ↦ rw unused (record {
      files = s.files;
      links = s.links;
      chunks = λ i other.
          find-keep (is_chunk i) (λ x. not (is_chunk c.id x)) d.chunks
            (All-of _ d.chunks (λ x e. ground (arith, other, ==_iff x.id i)))
          ∙ s.chunks i other;
      hashes =
          All-map _ _ candidates (λ y h. All-keep _ (λ x. not (is_chunk c.id x)) d.chunks h)
            s.hashes;
    })
  ]

  pub collect_chunk-IsSpared : Keeps IsSpared (collect_chunk c)
  unfolding collect_chunk collect_body delete_object lock_orphaned_chunk delete_chunk_record
      lock_orphan
  collect_chunk-IsSpared = in_tx-Keeps IsSpared (collect_body c) (
      bind-Keeps IsSpared (lock_orphaned_chunk c.id)
        (λ _. delete_object c.hash >> delete_chunk_record c.id)
        (translate-Keeps IsSpared in_use (query (lock_orphan c.id))
          (query-Keeps IsSpared (lock_orphan c.id) (λ now d s. s)))
        (λ _.
          bind-Keeps IsSpared (delete_object c.hash) (λ _. delete_chunk_record c.id)
            (effect-Keeps IsSpared (drop_object c.hash) (λ w. refl))
            (λ _. query-Keeps IsSpared (delete_chunk_row c.id) delete_chunk_row-IsSpared)))

-- Every object but the collected one is what it was.
abbrev pub Spares : ℕ → Objects → Objects → Type 0
Spares h before o = (k : ℕ) → (k == h) ≡ false → o k ≡ before k

pub collect_chunk-Spares :
    (c : ChunkRow) (before : Objects) → KeepsBucket (Spares c.hash before) (collect_chunk c)
unfolding collect_chunk collect_body delete_object lock_orphaned_chunk delete_chunk_record
collect_chunk-Spares c before = in_tx-KeepsBucket S (collect_body c) (
    bind-KeepsBucket S (lock_orphaned_chunk c.id)
      (λ _. delete_object c.hash >> delete_chunk_record c.id)
      (translate-KeepsBucket S in_use (query (lock_orphan c.id))
        (query-KeepsBucket S (lock_orphan c.id)))
      (λ _.
        bind-KeepsBucket S (delete_object c.hash) (λ _. delete_chunk_record c.id)
          (effect-KeepsBucket S (drop_object c.hash) (λ w s k other. rw other (s k other)))
          (λ _. query-KeepsBucket S (delete_chunk_row c.id))))
  where
    S : Objects → Type 0
    S = Spares c.hash before
