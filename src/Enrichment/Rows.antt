-- ===== src/Enrichment/Rows.antt =====
-- The rows of `file_embeddings` under the upsert.
use distributed_cloud_system.Base.{
  ℕ, ◌≡◌, String, List, [], ◌∷◌, true, arith, ==_iff, find, any, map, some,
}
use distributed_cloud_system.Storage.World.{EmbeddingRow}
use distributed_cloud_system.Enrichment.Repository.{of_embedded, replaced}

module _ (file : ℕ) (json : String) where
  pub find-map-replaced :
      (es : List EmbeddingRow)
      → any (of_embedded file) es ≡ true
      → find (of_embedded file) (map (replaced file json) es)
        ≡ some (record { file_id = file; embedding = json })
  find-map-replaced [] h = ground arith
  find-map-replaced (e ∷ es) h = ground (arith, find-map-replaced es, ==_iff e.file_id file)
