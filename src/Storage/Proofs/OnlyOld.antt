-- ===== src/Storage/Proofs/OnlyOld.antt =====
-- No statement of an upload but its last makes a file ready.
use distributed_cloud_system.Base.{
  ℕ, zero, suc, ◌<◌, ◌+◌, ◌==◌, ◌&&◌, ◌≡◌, refl, Option, [], ◌∷◌, Bool, true, false, not, String,
  length, any, All, All-append, All-keep, Bool-cases, Option-cases, inl, inr,
}
use distributed_cloud_system.Storage.World.{Database, Bytes, FileRow, uploading, ready}
use distributed_cloud_system.Storage.Action.{Action, pure, query}
use distributed_cloud_system.Storage.Repository.{
  clashes, folder_exists, owns_file, insert_file, delete_owned, delete_file,
}
use distributed_cloud_system.Storage.Chunks.{
  chunk_by_hash, insert_chunk, select_chunk, on_no_rows, get_or_create, get_or_create_chunk,
  insert_link, link_file_chunk, at_index, is_chunk,
}
use distributed_cloud_system.Storage.Service.{
  Stream, ReadErr, read_full, is_end, is_other, unless_broken, next_round, upload_chunk, put_object,
  when, link_resolved, link_new_chunk, store_chunk, store_loop, abandon_upload,
}
use distributed_cloud_system.Storage.Proofs.Keeps.{
  Keeps, query-Keeps, effect-Keeps, in_tx-Keeps, bind-Keeps, if-Keeps, on_no_rows-Keeps,
}

-- Every ready file has an id below the bound.
abbrev pub OnlyOld : ℕ → Database → Type 0
OnlyOld n d = All (λ (f : FileRow). f.status ≡ ready → f.id < n) d.files

not_ready : uploading ≡ ready → ⊥
not_ready e = cc

module _ (n : ℕ) where
  pub insert_file-OnlyOld :
      (user : ℕ) (folder : Option ℕ) (name ct : String) (size now : ℕ) (d : Database)
      → OnlyOld n d
      → OnlyOld n (insert_file user folder name ct size now d).1
  unfolding insert_file
  insert_file-OnlyOld user folder name ct size now d old =
      elim (Bool-cases (any (clashes user folder name) d.files)) [
        | inl clash ↦ rw clash old
        | inr new ↦ elim (Bool-cases (folder_exists folder d)) [
          | inr missing ↦ rw (new, missing) old
          | inl there ↦
              rw (new, there) (All-append _ d.files _ old ((λ e. absurd (not_ready e)), tt))
        ]
      ]

  delete_owned-OnlyOld :
      (user file now : ℕ) (d : Database) → OnlyOld n d → OnlyOld n (delete_owned user file now d).1
  unfolding delete_owned
  delete_owned-OnlyOld user file now d old = elim (Bool-cases (any (owns_file user file) d.files)) [
    | inl there ↦ rw there (All-keep _ (λ f. not (owns_file user file f)) d.files old)
    | inr missing ↦ rw missing old
  ]

  insert_chunk-OnlyOld :
      (h size now : ℕ) (d : Database) → OnlyOld n d → OnlyOld n (insert_chunk h size now d).1
  unfolding insert_chunk
  insert_chunk-OnlyOld h size now d old = elim (Option-cases (chunk_by_hash h d)) [
    | inl new ↦ rw (new, insert_chunk) old
    | inr (c, there) ↦ rw (there, insert_chunk) old
  ]

  select_chunk-OnlyOld :
      (h now : ℕ) (d : Database) → OnlyOld n d → OnlyOld n (select_chunk h now d).1
  unfolding select_chunk
  select_chunk-OnlyOld h now d old = elim (Option-cases (chunk_by_hash h d)) [
    | inl new ↦ rw (new, select_chunk) old
    | inr (c, there) ↦ rw (there, select_chunk) old
  ]

  insert_link-OnlyOld :
      (file chunk index now : ℕ) (d : Database)
      → OnlyOld n d
      → OnlyOld n (insert_link file chunk index now d).1
  unfolding insert_link
  insert_link-OnlyOld file chunk index now d old =
      elim (Bool-cases (any (λ f. f.id == file) d.files && any (is_chunk chunk) d.chunks)) [
        | inr missing ↦ rw missing old
        | inl there ↦ elim (Bool-cases (any (at_index file index) d.links)) [
          | inl taken ↦ rw (there, taken) old
          | inr free ↦ rw (there, free) old
        ]
      ]

  get_or_create-Keeps : (attempts h size : ℕ) → Keeps (OnlyOld n) (get_or_create attempts h size)
  unfolding get_or_create
  get_or_create-Keeps zero h size = λ w old. old
  get_or_create-Keeps (suc attempts) h size =
      on_no_rows-Keeps (OnlyOld n)
        (on_no_rows (get_or_create attempts h size) false (query (select_chunk h))) true
        (query (insert_chunk h size))
        (on_no_rows-Keeps (OnlyOld n) (get_or_create attempts h size) false (query (select_chunk h))
          (get_or_create-Keeps attempts h size)
          (query-Keeps (OnlyOld n) (select_chunk h) (select_chunk-OnlyOld h)))
        (query-Keeps (OnlyOld n) (insert_chunk h size) (insert_chunk-OnlyOld h size))

  module _ (sha : Bytes → ℕ) (file : ℕ) where
    link_resolved-Keeps :
        (h : ℕ) (chunk : Bytes) (index : ℕ) (r : ℕ × Bool)
        → Keeps (OnlyOld n) (link_resolved sha file h chunk index r)
    unfolding link_file_chunk upload_chunk
    link_resolved-Keeps h chunk index (id, is_new) =
        bind-Keeps (OnlyOld n) (when is_new (upload_chunk h chunk))
          (λ _. link_file_chunk file id index)
          (if-Keeps (OnlyOld n) is_new (upload_chunk h chunk) (pure tt)
            (effect-Keeps (OnlyOld n) (put_object h chunk) (λ w. refl)) (λ w old. old))
          (λ _.
            query-Keeps (OnlyOld n) (insert_link file id index) (insert_link-OnlyOld file id index))

    store_chunk-Keeps :
        (h : ℕ) (chunk : Bytes) (index : ℕ) → Keeps (OnlyOld n) (store_chunk sha file h chunk index)
    unfolding store_chunk link_new_chunk get_or_create_chunk
    store_chunk-Keeps h chunk index =
        in_tx-Keeps (OnlyOld n) (link_new_chunk sha file h chunk index) (
          bind-Keeps (OnlyOld n) (get_or_create_chunk h (length chunk))
            (link_resolved sha file h chunk index) (get_or_create-Keeps 3 h (length chunk))
            (link_resolved-Keeps h chunk index))

    next_round-Keeps :
        (b : Bool) (s : Stream) (total : ℕ) (loop : Bytes → ReadErr → Stream → Action ℕ)
        → ((c : Bytes) (e : ReadErr) (s : Stream) → Keeps (OnlyOld n) (loop c e s))
        → Keeps (OnlyOld n) (next_round b s total loop)
    next_round-Keeps true s total loop h = λ w old. old
    next_round-Keeps false s total loop h = unless (is_other (read_full s).1)
      where
        unless :
            (b : Bool)
            → Keeps
                (OnlyOld n)
                (unless_broken b (loop (read_full s).0 (read_full s).1 (read_full s).2))
        unless true = λ w old. old
        unless false = h (read_full s).0 (read_full s).1 (read_full s).2

    pub store_loop-Keeps :
        (fuel : ℕ) (chunk : Bytes) (e : ReadErr) (s : Stream) (index total : ℕ)
        → Keeps (OnlyOld n) (store_loop sha fuel file chunk e s index total)
    unfolding store_loop
    store_loop-Keeps zero chunk e s index total = λ w old. old
    store_loop-Keeps (suc fuel) [] e s index total = λ w old. old
    store_loop-Keeps (suc fuel) (b ∷ bs) e s index total =
        bind-Keeps (OnlyOld n) (store_chunk sha file (sha (b ∷ bs)) (b ∷ bs) index)
          (λ _.
            next_round (is_end e) s (total + length (b ∷ bs))
              (λ c e' s'. store_loop sha fuel file c e' s' (suc index) (total + length (b ∷ bs))))
          (store_chunk-Keeps (sha (b ∷ bs)) (b ∷ bs) index)
          (λ _.
            next_round-Keeps (is_end e) s (total + length (b ∷ bs))
              (λ c e' s'. store_loop sha fuel file c e' s' (suc index) (total + length (b ∷ bs)))
              (λ c e' s'. store_loop-Keeps fuel c e' s' (suc index) (total + length (b ∷ bs))))

  pub abandon_upload-Keeps : (user file : ℕ) → Keeps (OnlyOld n) (abandon_upload user file)
  unfolding abandon_upload delete_file
  abandon_upload-Keeps user file =
      query-Keeps (OnlyOld n) (delete_owned user file) (delete_owned-OnlyOld user file)
