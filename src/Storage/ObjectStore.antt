-- ===== src/Storage/ObjectStore.antt =====
-- internal/storage/minio.go: how the client connects, and its ping. The calls on objects are
-- `upload_chunk`, `download_chunk` and `delete_object`.
use distributed_cloud_system.Base.{String, Option, none, some, Bool, true, if◌then◌else◌}

-- What the MinIO client and its server answer: the errors of `minio.New`, `BucketExists` and
-- `MakeBucket`, and whether the bucket is there.
pub record ObjectServer : Type 0 where
  pub new_error : Option String
  pub exists_error : Option String
  pub make_error : Option String
  pub has_bucket : Bool

-- The first error, if there is one, or what is done without it.
abbrev pub unless {ℓ} : {A : Type ℓ} → Option String → A → (String → A) → A
unless none go_on stop = go_on
unless (some error) go_on stop = stop error

abbrev make_bucket : ObjectServer → Option String × ObjectServer
make_bucket s =
    unless s.make_error (none, record s { has_bucket = true })
      (λ error. (some "failed to create bucket", s))

-- `NewMinioClient`; the error is `none` where there is a client.
unfoldable pub new_minio_client : ObjectServer → Option String × ObjectServer
new_minio_client s =
    unless s.new_error
      (unless s.exists_error (if s.has_bucket then (none, s) else make_bucket s)
        (λ error. (some "failed to check bucket existence", s)))
      (λ error. (some "failed to init minio client", s))

-- `Ping`
abbrev pub ping : ObjectServer → Option String
ping s = s.exists_error
