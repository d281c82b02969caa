-- ===== src/Enrichment/Repository.antt =====
-- internal/ai/repository.go: the upsert of a file's embedding. The error is wrapped with `%w`.
use distributed_cloud_system.Base.{
  ℕ, String, [], ◌∷◌, ◌++◌, Bool, not, ◌==◌, if◌then◌else◌, any, map,
}
use distributed_cloud_system.Storage.World.{EmbeddingRow, db, pg_error}
use distributed_cloud_system.Storage.Action.{ok, err, Action, Statement, query}
use distributed_cloud_system.Storage.Repository.{is_file}

abbrev pub of_embedded : ℕ → EmbeddingRow → Bool
of_embedded file e = e.file_id == file

abbrev pub replaced : ℕ → String → EmbeddingRow → EmbeddingRow
replaced file json e = if of_embedded file e then record e { embedding = json } else e

-- INSERT … ON CONFLICT (file_id) DO UPDATE, and the foreign key of `file_id` (migrations/00004).
unfoldable pub upsert_embedding : ℕ → String → Statement Unit
upsert_embedding file json now d =
    if any (of_embedded file) d.embeddings
    then (ok tt, record d { embeddings = map (replaced file json) d.embeddings })
    else if not (any (is_file file) d.files)
    then (err (db (pg_error "23503")), d)
    else (
      ok tt,
      record d { embeddings = d.embeddings ++ record { file_id = file; embedding = json } ∷ [] },
    )

unfoldable pub save_embedding : ℕ → String → Action Unit
unfolding upsert_embedding
save_embedding file json = query (upsert_embedding file json)
