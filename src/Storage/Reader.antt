-- ===== src/Storage/Reader.antt =====
-- internal/storage/service.go: `verifiedChunkReader`, and the reading of several in a row, which is
-- what a caller does with the `io.MultiReader` of a download. The digest is a parameter.
use distributed_cloud_system.Base.{
  ℕ, ◌+◌, ◌*◌, Option, none, some, List, [], ◌∷◌, ◌++◌, ltb, ◌==◌, if◌then◌else◌, length, take,
  drop,
}
use distributed_cloud_system.Storage.World.{
  World, Bytes, Error, object_missing, oversized, integrity, db, broken, Outcome, pass, fail, late,
  cut,
}
use distributed_cloud_system.Storage.Action.{Result, ok, err, Action, ◌>>=◌, advance, next_outcome}

-- 4 MB.
unfoldable pub chunk_size : ℕ
chunk_size = 4 * 1024 * 1024

-- `DownloadChunk` and `io.ReadAll(io.LimitReader(rc, ChunkSize+1))`: both may fail.
abbrev pub attempt_download : Outcome → ℕ → Action Bytes
attempt_download pass h w = elim (w.objects h) [
  | none ↦ (err object_missing, w)
  | some b ↦ (ok (take (chunk_size + 1) b), w)
]
attempt_download (fail e) h w = (err (db e), w)
attempt_download (late e) h w = (err (db e), w)
attempt_download (cut _) h w = (err (db broken), w)

unfoldable pub download_chunk : ℕ → Action Bytes
download_chunk h w = attempt_download (next_outcome w.plan) h (advance w)

-- `bytes.Reader` is what is left to read.
pub record VerifiedChunkReader : Type 0 where
  pub expected : ℕ
  pub buf : Option Bytes
  pub failed : Option Error

abbrev pub new_verified_chunk_reader : ℕ → VerifiedChunkReader
new_verified_chunk_reader h = record { expected = h; buf = none; failed = none }

-- What `Read` returns: bytes, `io.EOF`, or an error.
pub data ReadResult : Type 0 where
  bytes : Bytes → ReadResult
  eof : ReadResult
  failure : Error → ReadResult

-- What has been handed out when a copy ends, and how it ended.
pub record Copied : Type 0 where
  pub out : Bytes
  pub ended : Result Unit

abbrev pub prepend : Bytes → Copied → Copied
prepend b c = record { out = b ++ c.out; ended = c.ended }

module _ (sha : Bytes → ℕ) where
  -- The checks of `load` on the bytes that arrived.
  unfoldable pub verify : ℕ → Bytes → Result Bytes
  verify expected data_read =
      if ltb chunk_size (length data_read)
      then err oversized
      else if sha data_read == expected
      then ok data_read
      else err integrity

  abbrev pub lift : {A : Type 0} → Result A → Action A
  lift r w = (r, w)

  unfoldable pub load : ℕ → Action Bytes
  unfolding verify
  load expected = do data_read ← download_chunk expected; lift (verify expected data_read)

  -- `bytes.Reader.Read` into a slice of length `n`.
  abbrev pub read_buf : ℕ → Bytes → VerifiedChunkReader → ReadResult × VerifiedChunkReader
  read_buf n [] v = (eof, record v { buf = some [] })
  read_buf n (b ∷ bs) v = (bytes (take n (b ∷ bs)), record v { buf = some (drop n (b ∷ bs)) })

  abbrev pub after_load : ℕ → VerifiedChunkReader → Result Bytes → ReadResult × VerifiedChunkReader
  after_load n v (ok b) = read_buf n b v
  after_load n v (err e) = (failure e, record v { failed = some e })

  -- `Read`: the result, the reader and the world afterwards.
  unfoldable pub read : ℕ → VerifiedChunkReader → World → (ReadResult × VerifiedChunkReader) × World
  read n v w = elim v.failed [
    | some e ↦ ((failure e, v), w)
    | none ↦ elim v.buf [
      | some b ↦ (read_buf n b v, w)
      | none ↦ let (r, w') = load v.expected w in (after_load n v r, w')
    ]
  ]

  -- The copy goes on with the next reader, or ends with the error of this one.
  abbrev pub copy_next : Result Bytes × World → (World → Copied × World) → Copied × World
  copy_next (err e, w) rest = (record { out = []; ended = err e }, w)
  copy_next (ok b, w) rest = let (c, w') = rest w in (prepend b c, w')

  -- `io.Copy` from the readers of a download, one after the other.
  unfoldable pub copy_all : List ℕ → World → Copied × World
  copy_all [] w = (record { out = []; ended = ok tt }, w)
  copy_all (h ∷ hs) w = copy_next (load h w) (λ w'. copy_all hs w')
