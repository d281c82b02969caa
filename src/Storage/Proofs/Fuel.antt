-- ===== src/Storage/Proofs/Fuel.antt =====
-- The loop of `storeChunks` ends within the fuel that it is given, so that an upload ends by itself.
use distributed_cloud_system.Base.{
  ℕ, zero, suc, ◌+◌, ◌≤◌, ◌≡◌, ◌≢◌, subst, Option, none, some, String, [], ◌∷◌, Bool, true, false,
  arith, length,
}
use distributed_cloud_system.Storage.World.{World, Bytes, DbError, out_of_fuel, ready}
use distributed_cloud_system.Storage.Action.{Result, err, Action, pure, ◌>>=◌, ◌>>◌, query}
use distributed_cloud_system.Storage.Repository.{
  as_duplicate, insert_file, create_file, update_file_size_and_status, update_file, as_denied,
  select_folder, verify_folder_ownership,
}
use distributed_cloud_system.Storage.Chunks.{get_or_create_chunk, link_file_chunk}
use distributed_cloud_system.Storage.Service.{
  Stream, ReadErr, read_full, put_object, upload_chunk, when, or_abandon, is_end, is_other,
  unless_broken, next_round, content_type_of, check_folder, first_chunk, read_first, publish_if,
  link_resolved, link_new_chunk, store_chunk, store_loop, store_chunks, finish_upload, upload_file,
}
use distributed_cloud_system.Storage.Proofs.Loop.{read_full-IsRead}
use distributed_cloud_system.Storage.Proofs.Ended.{
  IsReal, HasEnded, Ends, query-Ends, in_tx-Ends, bind-Ends, translate-Ends, effect-Ends, if-Ends,
  get_or_create_chunk-Ends, link_file_chunk-Ends,
}

module _ (sha : Bytes → ℕ) (file h : ℕ) (chunk : Bytes) (index : ℕ) where
  link_resolved-Ends : (resolved : ℕ × Bool) → Ends (link_resolved sha file h chunk index resolved)
  unfolding upload_chunk
  link_resolved-Ends (id, is_new) =
      bind-Ends (when is_new (upload_chunk h chunk)) (λ _. link_file_chunk file id index)
        (if-Ends is_new (upload_chunk h chunk) (pure tt) (effect-Ends (put_object h chunk))
          (λ w. tt))
        (λ _. link_file_chunk-Ends file id index)

  store_chunk-Ends : Ends (store_chunk sha file h chunk index)
  unfolding store_chunk link_new_chunk
  store_chunk-Ends = in_tx-Ends (link_new_chunk sha file h chunk index) (
      bind-Ends (get_or_create_chunk h (length chunk))
        (λ resolved. link_resolved sha file h chunk index resolved)
        (get_or_create_chunk-Ends h (length chunk)) link_resolved-Ends)

-- The fuel that the loop needs for a chunk and what is left of the stream.
abbrev IsEnough : ℕ → Bytes → Stream → Type 0
IsEnough fuel [] s = 1 ≤ fuel
IsEnough fuel (b ∷ bs) s = length s.rest + 2 ≤ fuel

next-IsEnough :
    (fuel : ℕ) (s s' : Stream) (got : Bytes)
    → length s'.rest + length got ≡ length s.rest
    → length s.rest + 1 ≤ fuel
    → IsEnough fuel got s'
next-IsEnough fuel s s' [] e h = omega arith
next-IsEnough fuel s s' (b ∷ bs) e h = omega arith

module _ (sha : Bytes → ℕ) (file : ℕ) where
  unless_broken-Ends : (b : Bool) (m : Action ℕ) → Ends m → Ends (unless_broken b m)
  unless_broken-Ends true m h = λ w. tt
  unless_broken-Ends false m h = h

  next_round-Ends :
      (b : Bool) (s : Stream) (total fuel : ℕ) (loop : Bytes → ReadErr → Stream → Action ℕ)
      → length s.rest + 1 ≤ fuel
      → ((chunk : Bytes) (e : ReadErr) (s' : Stream)
          → IsEnough fuel chunk s'
          → Ends (loop chunk e s'))
      → Ends (next_round b s total loop)
  next_round-Ends true s total fuel loop h ends = λ w. tt
  next_round-Ends false s total fuel loop h ends =
      let (next, next_err, s') = read_full s in
      unless_broken-Ends (is_other next_err) (loop next next_err s')
        (ends next next_err s' (next-IsEnough fuel s s' next (read_full-IsRead s).shorter h))

  store_loop-Ends :
      (fuel : ℕ) (chunk : Bytes) (e : ReadErr) (s : Stream) (index total : ℕ)
      → IsEnough fuel chunk s
      → Ends (store_loop sha fuel file chunk e s index total)
  unfolding store_loop
  store_loop-Ends zero [] e s index total h = absurd (omega arith)
  store_loop-Ends zero (b ∷ bs) e s index total h = absurd (omega arith)
  store_loop-Ends (suc fuel) [] e s index total h = λ w. tt
  store_loop-Ends (suc fuel) (b ∷ bs) e s index total h =
      let loop = λ (next : Bytes) (next_err : ReadErr) (s' : Stream).
        store_loop sha fuel file next next_err s' (suc index) (total + length (b ∷ bs)) in
      bind-Ends (store_chunk sha file (sha (b ∷ bs)) (b ∷ bs) index)
        (λ _. next_round (is_end e) s (total + length (b ∷ bs)) loop)
        (store_chunk-Ends sha file (sha (b ∷ bs)) (b ∷ bs) index)
        (λ _.
          next_round-Ends (is_end e) s (total + length (b ∷ bs)) fuel loop (omega arith)
            (λ next next_err s' enough.
              store_loop-Ends fuel next next_err s' (suc index) (total + length (b ∷ bs)) enough))

  store_chunks-Ends :
      (chunk : Bytes) (e : ReadErr) (s : Stream) → Ends (store_chunks sha file chunk e s)
  unfolding store_chunks
  store_chunks-Ends [] e s = store_loop-Ends (suc (suc (length s.rest))) [] e s 0 0 (omega arith)
  store_chunks-Ends (b ∷ bs) e s =
      store_loop-Ends (suc (suc (length s.rest))) (b ∷ bs) e s 0 0 (omega arith)

or_abandon-Ends :
    {A : Type 0} (user file : ℕ) (m : Action A) → Ends m → Ends (or_abandon user file m)
or_abandon-Ends user file m h w = ground (arith, h w)

as_duplicate-IsReal : (e : DbError) → IsReal (as_duplicate e)
as_duplicate-IsReal e = ground arith

as_denied-IsReal : (e : DbError) → IsReal (as_denied e)
as_denied-IsReal e = ground arith

check_folder-Ends : (user : ℕ) (folder : Option ℕ) → Ends (check_folder user folder)
unfolding verify_folder_ownership select_folder
check_folder-Ends user none = λ w. tt
check_folder-Ends user (some folder) =
    translate-Ends as_denied as_denied-IsReal (query (select_folder user folder))
      (query-Ends (select_folder user folder) (λ now d. ground arith))

create_file-Ends :
    (user : ℕ) (folder : Option ℕ) (name content_type : String) (size : ℕ)
    → Ends (create_file user folder name content_type size)
unfolding create_file insert_file
create_file-Ends user folder name content_type size =
    translate-Ends as_duplicate as_duplicate-IsReal
      (query (insert_file user folder name content_type size))
      (query-Ends (insert_file user folder name content_type size) (λ now d. ground arith))

first_chunk-Ends : (b : Bool) (x : Bytes × ReadErr × Stream) → Ends (first_chunk b x)
first_chunk-Ends true x w = tt
first_chunk-Ends false x w = tt

module _ (sha : Bytes → ℕ) (has_publisher : Bool) (user file : ℕ) where
  publish_if-Ends : (b : Bool) → Ends (publish_if b file)
  publish_if-Ends true w = tt
  publish_if-Ends false w = tt

  update-Ends : (total : ℕ) → Ends (update_file_size_and_status file total ready)
  unfolding update_file_size_and_status update_file
  update-Ends total = query-Ends (update_file file total ready) (λ now d. tt)

  finish_upload-Ends :
      (first : Bytes × ReadErr × Stream) → Ends (finish_upload sha has_publisher user file first)
  unfolding finish_upload
  finish_upload-Ends (chunk, e, s) =
      let stored = or_abandon user file (store_chunks sha file chunk e s) in
      let updated =
        λ (total : ℕ). or_abandon user file (update_file_size_and_status file total ready) in
      let published = publish_if has_publisher file >> pure file in
      bind-Ends stored (λ total. updated total >> published)
        (or_abandon-Ends user file (store_chunks sha file chunk e s)
          (store_chunks-Ends sha file chunk e s))
        (λ total.
          bind-Ends (updated total) (λ _. published)
            (or_abandon-Ends user file (update_file_size_and_status file total ready)
              (update-Ends total))
            (λ _.
              bind-Ends (publish_if has_publisher file) (λ _. pure file)
                (publish_if-Ends has_publisher) (λ _ w. tt)))

-- An upload ends by itself, whatever it meets: the loop over the chunks never runs out of the fuel
-- that stands for it, which is two more than the bytes that are left to read.
pub upload_file-HasEnded :
    (sha : Bytes → ℕ) (detect : Bytes → String) (has_publisher : Bool) (user : ℕ)
    (folder : Option ℕ) (name : String) (s : Stream) (w : World)
    → (upload_file sha detect has_publisher user folder name s w).0 ≢ err out_of_fuel
unfolding upload_file
upload_file-HasEnded sha detect has_publisher user folder name s w = real (
    bind-Ends (check_folder user folder) (λ _. read_first s >>= created)
      (check_folder-Ends user folder)
      (λ _.
        bind-Ends (read_first s) created (first_chunk-Ends (is_other (read_full s).1) (read_full s))
          (λ first.
            bind-Ends (create_file user folder name (content_type_of detect first.0) 0)
              (λ file. finish_upload sha has_publisher user file first)
              (create_file-Ends user folder name (content_type_of detect first.0) 0)
              (λ file. finish_upload-Ends sha has_publisher user file first)))
      w)
  where
    created : Bytes × ReadErr × Stream → Action ℕ
    created first = create_file user folder name (content_type_of detect first.0) 0 >>= λ file.
        finish_upload sha has_publisher user file first

    real : {r : Result ℕ} → HasEnded r → r ≢ err out_of_fuel
    real h e = subst (λ (x : Result ℕ). HasEnded x) e h
