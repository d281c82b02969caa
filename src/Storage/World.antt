-- ===== src/Storage/World.antt =====
-- The state that internal/storage, internal/metadata and internal/ai work on: the PostgreSQL tables of
-- migrations/, the MinIO bucket and the event stream, and the calls that may fail.
use distributed_cloud_system.Base.{ℕ, String, List, Option}

-- A row of `folders` (migrations/00002).
pub record FolderRow : Type 0 where
  pub id : ℕ
  pub user_id : ℕ
  pub parent_id : Option ℕ
  pub name : String
  pub created_at : ℕ
  pub updated_at : ℕ

-- `StatusUploading` and `StatusReady`.
pub data Status : Type 0 where
  uploading ready : Status

-- A row of `files` (migrations/00002 and 00005).
pub record FileRow : Type 0 where
  pub id : ℕ
  pub user_id : ℕ
  pub folder_id : Option ℕ
  pub name : String
  pub content_type : String
  pub size : ℕ
  pub status : Status
  pub created_at : ℕ
  pub updated_at : ℕ

-- A row of `chunks` (migrations/00003), and what `Chunk` carries of it.
pub record ChunkRow : Type 0 where
  pub id : ℕ
  pub hash : ℕ
  pub size : ℕ
  pub created_at : ℕ

-- A row of `file_chunks` (migrations/00003).
pub record LinkRow : Type 0 where
  pub file_id : ℕ
  pub chunk_id : ℕ
  pub chunk_index : ℕ

-- A row of `file_embeddings` (migrations/00004); the JSON is its text.
pub record EmbeddingRow : Type 0 where
  pub file_id : ℕ
  pub embedding : String

-- The tables. `next_id` stands for `uuid_generate_v4`: it has not been given out before.
pub record Database : Type 0 where
  pub folders : List FolderRow
  pub files : List FileRow
  pub chunks : List ChunkRow
  pub links : List LinkRow
  pub embeddings : List EmbeddingRow
  pub next_id : ℕ

-- What the driver reports: `pgx.ErrNoRows`, a `pgconn.PgError` with its SQLSTATE, or other failures.
pub data DbError : Type 0 where
  no_rows : DbError
  pg_error : String → DbError
  broken : DbError

-- The errors of internal/storage and internal/metadata, each by the root that `errors.Is` finds under the `%w` wrappings.
pub data Error : Type 0 where
  file_not_found access_denied chunk_in_use duplicate_name folder_not_found : Error
  unresolved_race : Error
  db : DbError → Error
  object_missing : Error
  oversized : Error
  integrity : Error
  bad_stream : Error
  cancelled : Error
  out_of_fuel : Error

-- What becomes of the next call to PostgreSQL, MinIO or Redis: it goes through, it fails and does
-- nothing, it takes effect and is reported as failed, or its rows break off after some number.
pub data Outcome : Type 0 where
  pass : Outcome
  fail : DbError → Outcome
  late : DbError → Outcome
  cut : ℕ → Outcome

abbrev pub Bytes : Type 0
Bytes = List ℕ

pub record World : Type 0 where
  pub db : Database
  pub objects : ℕ → Option Bytes  -- the bucket, by hash
  pub published : List ℕ  -- the file ids of the `file_uploaded` events
  pub now : ℕ
  pub plan : List Outcome  -- the outcomes of the calls to come; all pass once it is empty
