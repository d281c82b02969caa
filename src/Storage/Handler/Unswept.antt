-- ===== src/Storage/Handler/Unswept.antt =====
-- Downloads before and after a garbage collection.
use distributed_cloud_system.Base.{
  ℕ, ◌+◌, ◌≡◌, refl, ap, ◌∙◌, Option, none, some, List, [], ◌∷◌, All, keep, take, find,
}
use distributed_cloud_system.Storage.World.{
  World, Bytes, object_missing, ChunkRow, LinkRow, FileRow, ready,
}
use distributed_cloud_system.Storage.Action.{Result, ok, err, ◌>>=◌}
use distributed_cloud_system.Storage.Repository.{file_row, info_of}
use distributed_cloud_system.Storage.Chunks.{
  is_chunk, of_file, order_by_index, join_chunks, chunks_of,
}
use distributed_cloud_system.Storage.Reader.{
  prepend, lift, chunk_size, Copied, load, verify, download_chunk, attempt_download, copy_next,
  copy_all,
}
use distributed_cloud_system.Storage.Service.{hashes}
use distributed_cloud_system.Storage.Collection.{run_garbage_collection}
use distributed_cloud_system.Storage.Handler.{peek_next, peek_and_copy, handle_download, peeked}
use distributed_cloud_system.Storage.Proofs.Stored.{Objects}
use distributed_cloud_system.Storage.Proofs.Tables.{All-order_by_index}
use distributed_cloud_system.Storage.Proofs.Download.{calm, download_file-ok}
use distributed_cloud_system.Storage.Proofs.Spared.{OwnsHash}
use distributed_cloud_system.Storage.Proofs.Swept.{IsReady, run_garbage_collection-IsHeld}

-- The objects of some hashes are the same.
abbrev AreSame : Objects → Objects → List ℕ → Type 0
AreSame o p = All (λ (h : ℕ). o h ≡ p h)

module _ (sha : Bytes → ℕ) where
  -- Where nothing fails, what a chunk reads as is told by its object.
  abbrev loaded : ℕ → Option Bytes → Result Bytes
  loaded h none = err object_missing
  loaded h (some b) = verify sha h (take (chunk_size + 1) b)

  abbrev fetched : Option Bytes → Result Bytes
  fetched none = err object_missing
  fetched (some b) = ok (take (chunk_size + 1) b)

  download_chunk-calm :
      (h : ℕ) (w : World) (o : Option Bytes)
      → w.objects h ≡ o
      → download_chunk h (calm w) ≡ (fetched o, calm w)
  unfolding download_chunk
  download_chunk-calm h w none e = rw (e, attempt_download) refl
  download_chunk-calm h w (some b) e = rw (e, attempt_download) refl

  abbrev verified : ℕ → Result Bytes × World → Result Bytes × World
  verified h x = ((λ (_ : World). x) >>= (λ d. lift sha (verify sha h d))) x.1

  load-calm :
      (h : ℕ) (w : World) (o : Option Bytes)
      → w.objects h ≡ o
      → load sha h (calm w) ≡ (loaded h o, calm w)
  unfolding load
  load-calm h w none e = ap (verified h) (download_chunk-calm h w none e)
  load-calm h w (some b) e = ap (verified h) (download_chunk-calm h w (some b) e)

  copy_all-calm :
      (hs : List ℕ) (w v : World)
      → AreSame w.objects v.objects hs
      → (copy_all sha hs (calm w)).0 ≡ (copy_all sha hs (calm v)).0
  unfolding copy_all
  copy_all-calm [] w v same = refl
  copy_all-calm (h ∷ hs) w v same =
      rw (load-calm h w (v.objects h) same.0, load-calm h v (v.objects h) refl)
        (go (loaded h (v.objects h)) (copy_all-calm hs w v same.1))
    where
      go :
          (r : Result Bytes)
          → (copy_all sha hs (calm w)).0 ≡ (copy_all sha hs (calm v)).0
          → (copy_next sha (r, calm w) (λ x. copy_all sha hs x)).0
            ≡ (copy_next sha (r, calm v) (λ x. copy_all sha hs x)).0
      go (err e) rest = refl
      go (ok b) rest = ap (λ (c : Copied). prepend b c) rest

  peek_and_copy-calm :
      (hs : List ℕ) (w v : World)
      → AreSame w.objects v.objects hs
      → (peek_and_copy sha hs (calm w)).0 ≡ (peek_and_copy sha hs (calm v)).0
  unfolding peek_and_copy
  peek_and_copy-calm [] w v same = refl
  peek_and_copy-calm (h ∷ hs) w v same =
      rw (load-calm h w (v.objects h) same.0, load-calm h v (v.objects h) refl)
        (go (loaded h (v.objects h)) (peek_and_copy-calm hs w v same.1)
          (copy_all-calm hs w v same.1))
    where
      go :
          (r : Result Bytes)
          → (peek_and_copy sha hs (calm w)).0 ≡ (peek_and_copy sha hs (calm v)).0
          → (copy_all sha hs (calm w)).0 ≡ (copy_all sha hs (calm v)).0
          → (peek_next sha (r, calm w) (λ x. peek_and_copy sha hs x) (λ x. copy_all sha hs x)).0
            ≡ (peek_next sha (r, calm v) (λ x. peek_and_copy sha hs x) (λ x. copy_all sha hs x)).0
      go (err e) peeks copies = refl
      go (ok []) peeks copies = peeks
      go (ok (b ∷ bs)) peeks copies = ap (λ (c : Copied). some (prepend (b ∷ bs) c)) copies

  module _ (o p : Objects) (cs ds : List ChunkRow) where
    abbrev FindsSame : LinkRow → Type 0
    FindsSame l = find (is_chunk l.chunk_id) cs ≡ find (is_chunk l.chunk_id) ds

    abbrev HoldsSame : LinkRow → Type 0
    HoldsSame l = (x : ChunkRow) → find (is_chunk l.chunk_id) ds ≡ some x → o x.hash ≡ p x.hash

    abbrev JoinsSame : List LinkRow → Type 0
    JoinsSame ls =
        (join_chunks cs ls ≡ join_chunks ds ls) × AreSame o p (hashes (join_chunks ds ls))

    join_next :
        (l : LinkRow) (ls : List LinkRow) (x : Option ChunkRow)
        → find (is_chunk l.chunk_id) ds ≡ x
        → FindsSame l
        → HoldsSame l
        → JoinsSame ls
        → JoinsSame (l ∷ ls)
    unfolding join_chunks
    join_next l ls none e found same rest = rw (found, e, join_chunks) rest
    join_next l ls (some x) e found same (rest, others) =
        rw (found, e, join_chunks) (ap (λ (r : List ChunkRow). x ∷ r) rest, (same x e, others))

    join_chunks-same : (ls : List LinkRow) → All FindsSame ls → All HoldsSame ls → JoinsSame ls
    unfolding join_chunks
    join_chunks-same [] found same = (refl, tt)
    join_chunks-same (l ∷ ls) found same =
        join_next l ls (find (is_chunk l.chunk_id) ds) refl found.0 same.0
          (join_chunks-same ls found.1 same.1)

  -- A garbage collection, whatever fails in it, changes nothing for a file that is ready: where
  -- nothing fails, its owner's download is answered as it would have been before, status, type,
  -- content and all. Rows of the file's id are supposed to be ready, and no two chunks to have the
  -- same hash, as the table's unique index says.
  pub handle_download-run_garbage_collection :
      (user file min_age : ℕ) (w : World) (f : FileRow)
      → file_row file w.db ≡ some f
      → f.user_id ≡ user
      → f.status ≡ ready
      → IsReady file w
      → All (OwnsHash w.db.chunks) w.db.chunks
      → (handle_download sha (some user) (some file) (calm (run_garbage_collection min_age w).1)).0
        ≡ (handle_download sha (some user) (some file) (calm w)).0
  unfolding handle_download chunks_of
  handle_download-run_garbage_collection user file min_age w f found owner is_ready all_ready own =
      let w' = (run_garbage_collection min_age w).1 in
      let h = run_garbage_collection-IsHeld file w all_ready own min_age in
      let (chunks, objects) =
        join_chunks-same w'.objects w.objects w'.db.chunks w.db.chunks
          (order_by_index (keep (of_file file) w.db.links)) (All-order_by_index _ _ h.chunks)
          (All-order_by_index _ _ h.objects) in
      let listed : chunks_of file w'.db ≡ chunks_of file w.db = rw h.links chunks in
      rw
        (
          download_file-ok user file w' f (h.row ∙ found) owner is_ready,
          download_file-ok user file w f found owner is_ready,
          listed,
        )
        (ap (λ (c : Option Copied). peeked sha (info_of f).content_type c)
          (peek_and_copy-calm (hashes (chunks_of file w.db)) w' w objects))
