-- ===== src/Storage/Service.antt =====
-- internal/storage/service.go: upload, download and deletion of files. The digest and
-- `http.DetectContentType` are parameters.
use distributed_cloud_system.Base.{
  ℕ, zero, suc, ◌+◌, String, Option, none, some, List, [], ◌∷◌, ◌++◌, Bool, true, false, ◌==◌,
  if◌then◌else◌, length, take, drop, map,
}
use distributed_cloud_system.Storage.World.{
  World, Bytes, ChunkRow, bad_stream, out_of_fuel, file_not_found, uploading, ready, Status,
}
use distributed_cloud_system.Storage.Action.{
  ok, err, Action, pure, raise, ignore, ◌>>=◌, ◌>>◌, effect, in_tx,
}
use distributed_cloud_system.Storage.Repository.{
  FileInfo, create_file, get_file_info, update_file_size_and_status, delete_file,
  verify_file_ownership, verify_folder_ownership,
}
use distributed_cloud_system.Storage.Chunks.{get_or_create_chunk, link_file_chunk, get_file_chunks}
use distributed_cloud_system.Storage.Reader.{chunk_size}

-- An `io.Reader`: the bytes to come, and whether it breaks after them instead of ending.
pub record Stream : Type 0 where
  pub rest : Bytes
  pub breaks : Bool

-- The error of `io.ReadFull`.
pub data ReadErr : Type 0 where
  nil eof unexpected_eof other : ReadErr

-- Whether the buffer is full, the stream breaks, nothing was read.
abbrev pub read_error : Bool → Bool → Bool → ReadErr
read_error true breaks empty = nil
read_error false true empty = other
read_error false false true = eof
read_error false false false = unexpected_eof

-- `io.ReadFull(fileReader, buffer)`, whose `n` bytes are the list.
unfoldable pub read_full : Stream → Bytes × ReadErr × Stream
read_full s =
    let got = take chunk_size s.rest in
    let n = length got in
    (
      got,
      read_error (n == chunk_size) s.breaks (n == 0),
      record s { rest = drop chunk_size s.rest },
    )

abbrev pub publish : ℕ → Action Unit
publish file = effect (λ w. record w { published = w.published ++ file ∷ [] })

-- `UploadChunk`
abbrev pub put_object : ℕ → Bytes → World → World
put_object h b w = record w { objects = λ k. if k == h then some b else w.objects k }

unfoldable pub upload_chunk : ℕ → Bytes → Action Unit
upload_chunk h b = effect (put_object h b)

abbrev pub when : Bool → Action Unit → Action Unit
when b m = if b then m else pure tt

-- `abandonUpload`: the failure of the deletion is only logged.
unfoldable pub abandon_upload : ℕ → ℕ → Action Unit
abandon_upload user file = ignore (delete_file user file)

-- `if err := m; err != nil { s.abandonUpload(...); return err }`
abbrev pub or_abandon : {A : Type 0} → ℕ → ℕ → Action A → Action A
or_abandon user file m w =
    let (r, w1) = m w in
    elim r [ ok a ↦ (ok a, w1) | err e ↦ (err e, (abandon_upload user file w1).1) ]

-- `err == io.EOF || err == io.ErrUnexpectedEOF`
abbrev pub is_end : ReadErr → Bool
is_end eof = true
is_end unexpected_eof = true
is_end _ = false

abbrev pub is_other : ReadErr → Bool
is_other other = true
is_other _ = false

abbrev pub unless_broken : Bool → Action ℕ → Action ℕ
unless_broken true m = raise bad_stream
unless_broken false m = m

-- What the loop does once a chunk is stored: it ends with the stream, or reads on.
abbrev pub next_round : Bool → Stream → ℕ → (Bytes → ReadErr → Stream → Action ℕ) → Action ℕ
next_round true s total loop = pure total
next_round false s total loop =
    let (next, next_err, s') = read_full s in
    unless_broken (is_other next_err) (loop next next_err s')

abbrev pub content_type_of : (Bytes → String) → Bytes → String
content_type_of detect_content_type [] = "application/octet-stream"
content_type_of detect_content_type (b ∷ bs) = detect_content_type (b ∷ bs)

abbrev pub check_folder : ℕ → Option ℕ → Action Unit
check_folder user none = pure tt
check_folder user (some folder) = verify_folder_ownership user folder

abbrev pub first_chunk : Bool → Bytes × ReadErr × Stream → Action (Bytes × ReadErr × Stream)
first_chunk true x = raise bad_stream
first_chunk false x = pure x

abbrev pub read_first : Stream → Action (Bytes × ReadErr × Stream)
read_first s = first_chunk (is_other (read_full s).1) (read_full s)

abbrev pub publish_if : Bool → ℕ → Action Unit
publish_if has_publisher file = if has_publisher then ignore (publish file) else pure tt

module _ (sha : Bytes → ℕ) where
  abbrev pub link_resolved : ℕ → ℕ → Bytes → ℕ → ℕ × Bool → Action Unit
  link_resolved file h chunk index (id, is_new) = do
    when is_new (upload_chunk h chunk)
    link_file_chunk file id index

  unfoldable pub link_new_chunk : ℕ → ℕ → Bytes → ℕ → Action Unit
  link_new_chunk file h chunk index = do
    resolved ← get_or_create_chunk h (length chunk)
    link_resolved file h chunk index resolved

  unfoldable pub store_chunk : ℕ → ℕ → Bytes → ℕ → Action Unit
  unfolding link_new_chunk
  store_chunk file h chunk index = in_tx (link_new_chunk file h chunk index)

  -- The loop of `storeChunks`, on fuel; `chunk` and `read_err` are `buffer[:n]` and `readErr`.
  unfoldable pub store_loop : ℕ → ℕ → Bytes → ReadErr → Stream → ℕ → ℕ → Action ℕ
  store_loop zero file chunk read_err s index total = raise out_of_fuel
  store_loop (suc fuel) file [] read_err s index total = pure total
  store_loop (suc fuel) file (b ∷ bs) read_err s index total =
      store_chunk file (sha (b ∷ bs)) (b ∷ bs) index
      >> next_round (is_end read_err) s (total + length (b ∷ bs)) (λ next next_err s'.
        store_loop fuel file next next_err s' (suc index) (total + length (b ∷ bs)))

  -- One round for each chunk and one for the end.
  unfoldable pub store_chunks : ℕ → Bytes → ReadErr → Stream → Action ℕ
  unfolding store_loop
  store_chunks file chunk read_err s =
      store_loop (suc (suc (length s.rest))) file chunk read_err s 0 0

  -- From the committed row to the published event.
  unfoldable pub finish_upload : Bool → ℕ → ℕ → Bytes × ReadErr × Stream → Action ℕ
  finish_upload has_publisher user file (chunk, read_err, s) = do
    total ← or_abandon user file (store_chunks file chunk read_err s)
    or_abandon user file (update_file_size_and_status file total ready)
    publish_if has_publisher file
    pure file

  -- The publisher is nil in the worker.
  unfoldable pub upload_file : (Bytes → String) → Bool → ℕ → Option ℕ → String → Stream → Action ℕ
  upload_file detect_content_type has_publisher user folder name stream = do
    check_folder user folder
    first ← read_first stream
    file ← create_file user folder name (content_type_of detect_content_type first.0) 0
    finish_upload has_publisher user file first

-- A download: the hashes of the readers, in order, and the metadata.
abbrev pub Download : Type 0
Download = List ℕ × FileInfo

abbrev pub hashes : List ChunkRow → List ℕ
hashes = map (λ c. c.hash)

abbrev pub if_ready : Status → Action Download → Action Download
if_ready ready m = m
if_ready uploading m = raise file_not_found

unfoldable pub download_file : ℕ → ℕ → Action Download
download_file user file = do
  verify_file_ownership user file
  info ← get_file_info file
  if_ready info.status (do chunks ← get_file_chunks file; pure (hashes chunks, info))

unfoldable pub download_file_internal : ℕ → Action Download
download_file_internal file = do
  info ← get_file_info file
  chunks ← get_file_chunks file
  pure (hashes chunks, info)
