-- ===== src/Storage/Handshake.antt =====
-- internal/storage: the handshake of uploads and collections about one content. Transactions run at
-- the same time; each constructor of `Move` is one statement of storeChunk (with GetOrCreateChunk) or of
-- collectChunk (with LockOrphanedChunk), possible while the row locks of PostgreSQL let it through.
-- A transaction is counted in the field that says how far it is.
pub mod Safe
mod Runs
use distributed_cloud_system.Base.{ℕ, zero, suc, ◌≡◌, Option, none, some, Bool, true, false, ◌||◌}

-- How far the transaction is that has inserted the row and not committed it.
pub data Insertion : Type 0 where
  inserted stored linked : Insertion

-- How far the transaction is that holds FOR UPDATE.
pub data Collection : Type 0 where
  locked removed dropped : Collection

pub record Chunk : Type 0 where
  pub row : Bool  -- a committed row of `chunks` for the content
  pub links : ℕ  -- committed rows of `file_chunks` that refer to it
  pub object : Bool  -- the object in the bucket
  pub inserter : Option Insertion
  pub sharers : ℕ  -- transactions that hold FOR SHARE and have not linked yet
  pub linkers : ℕ  -- those that have, and have not committed
  pub waiting : ℕ  -- lock statements of collections that have begun and have seen no reference
  pub collector : Option Collection

abbrev pub nothing : Chunk
nothing = record {
  row = false;
  links = 0;
  object = false;
  inserter = none;
  sharers = 0;
  linkers = 0;
  waiting = 0;
  collector = none;
}

pub data Move : Chunk → Chunk → Type 0 where
  -- INSERT … ON CONFLICT DO NOTHING waits for an insertion that is not committed.
  insert :
      {s : Chunk}
      → s.row ≡ false
      → s.inserter ≡ none
      → Move s (record s { inserter = some inserted })
  upload :
      {s : Chunk}
      → s.inserter ≡ some inserted
      → Move s (record s { inserter = some stored; object = true })
  link_new : {s : Chunk} → s.inserter ≡ some stored → Move s (record s { inserter = some linked })
  commit_new :
      {s : Chunk}
      → s.inserter ≡ some linked
      → Move s (record s { inserter = none; row = true; links = suc s.links })
  abort_new :
      {s : Chunk} {i : Insertion} → s.inserter ≡ some i → Move s (record s { inserter = none })
  -- SELECT … FOR SHARE waits for FOR UPDATE.
  share :
      {s : Chunk}
      → s.row ≡ true
      → s.collector ≡ none
      → Move s (record s { sharers = suc s.sharers })
  link_old :
      {s : Chunk} {n : ℕ}
      → s.sharers ≡ suc n
      → Move s (record s { sharers = n; linkers = suc s.linkers })
  commit_old :
      {s : Chunk} {n : ℕ}
      → s.linkers ≡ suc n
      → Move s (record s { linkers = n; links = suc s.links })
  abort_shared : {s : Chunk} {n : ℕ} → s.sharers ≡ suc n → Move s (record s { sharers = n })
  abort_linked : {s : Chunk} {n : ℕ} → s.linkers ≡ suc n → Move s (record s { linkers = n })
  -- A file is deleted, and its link with it.
  unlink : {s : Chunk} {n : ℕ} → s.links ≡ suc n → Move s (record s { links = n })
  -- SELECT … WHERE NOT EXISTS … FOR UPDATE begins, and gets the lock once no other transaction has one.
  -- A statement that had to wait goes by the references that it saw when it began: PostgreSQL looks
  -- again only where the row itself was changed.
  look : {s : Chunk} → s.row ≡ true → s.links ≡ 0 → Move s (record s { waiting = suc s.waiting })
  lock :
      {s : Chunk} {n : ℕ}
      → s.waiting ≡ suc n
      → s.row ≡ true
      → s.sharers ≡ 0
      → s.linkers ≡ 0
      → s.collector ≡ none
      → Move s (record s { waiting = n; collector = some locked })
  in_use : {s : Chunk} {n : ℕ} → s.waiting ≡ suc n → Move s (record s { waiting = n })
  remove :
      {s : Chunk}
      → s.collector ≡ some locked
      → Move s (record s { collector = some removed; object = false })
  -- `file_chunks.chunk_id` is ON DELETE RESTRICT.
  drop :
      {s : Chunk}
      → s.collector ≡ some removed
      → s.links ≡ 0
      → Move s (record s { collector = some dropped })
  commit_drop :
      {s : Chunk} → s.collector ≡ some dropped → Move s (record s { collector = none; row = false })
  -- The deletion of the object fails.
  abort_locked : {s : Chunk} → s.collector ≡ some locked → Move s (record s { collector = none })
  -- The row is not deleted, as a reference keeps it or the statement fails: the object stays deleted.
  abort_removed : {s : Chunk} → s.collector ≡ some removed → Move s (record s { collector = none })
  -- The commit fails: the row comes back, and the object stays deleted.
  abort_dropped : {s : Chunk} → s.collector ≡ some dropped → Move s (record s { collector = none })

pub data Run : Chunk → Chunk → Type 0 where
  start : {s : Chunk} → Run s s
  then : {s t u : Chunk} → Run s t → Move t u → Run s u

-- Whether a collection has failed after it had deleted the object.
abbrev pub fails_late : {s t : Chunk} → Move s t → Bool
fails_late (abort_removed _) = true
fails_late (abort_dropped _) = true
fails_late _ = false

unfoldable pub has_failed_late : {s t : Chunk} → Run s t → Bool
has_failed_late start = false
has_failed_late (then r m) = fails_late m || has_failed_late r
