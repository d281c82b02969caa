-- ===== src/Storage/Proofs/Stored.antt =====
-- One chunk of an upload: `storeChunk` deduplicates, uploads and links it.
use distributed_cloud_system.Base.{
  ℕ, ◌≤◌, ◌≡◌, ap, ◌∙◌, Option, none, some, Bool, true, false, arith, if◌then◌else◌, length, All,
  ◌==◌,
}
use distributed_cloud_system.Storage.World.{World, Database, ChunkRow, LinkRow, Bytes}
use distributed_cloud_system.Storage.Action.{ok, advance}
use distributed_cloud_system.Storage.Chunks.{
  chunk_by_hash, new_chunk, with_chunk, get_or_create_chunk, link_file_chunk,
}
use distributed_cloud_system.Storage.Reader.{chunk_size}
use distributed_cloud_system.Storage.Service.{
  put_object, upload_chunk, when, link_resolved, link_new_chunk, store_chunk,
}
use distributed_cloud_system.Storage.Proofs.Statements.{
  SameRest, Resolved, created, found, get_or_create_chunk-ok,
}
use distributed_cloud_system.Storage.Proofs.Inversions.{bind-ok, in_tx-ok, effect-ok, link-ok}
use distributed_cloud_system.Storage.Proofs.Tables.{IsConsistent, with_link}

abbrev pub Objects : Type 0
Objects = ℕ → Option Bytes

module _ (sha : Bytes → ℕ) where
  -- The object of a hash is there, has that hash, and fits in a chunk.
  abbrev pub HasObject : Objects → ℕ → Type 0
  HasObject objects h = (b : Bytes) × (objects h ≡ some b) × (sha b ≡ h) × (length b ≤ chunk_size)

  -- The tables are consistent, and every chunk row has its object.
  pub record IsSound (o : Objects) (d : Database) : Type 0 where
    pub consistent : IsConsistent d
    pub backed : All (λ (c : ChunkRow). HasObject o c.hash) d.chunks

  -- What a committed `storeChunk` has done to the tables and the bucket.
  pub data Stored (file : ℕ) (chunk : Bytes) (index : ℕ) (w w' : World) : Type 0 where
    fresh :
        chunk_by_hash (sha chunk) w.db ≡ none
        → w'.objects ≡ (put_object (sha chunk) chunk w).objects
        → (let c = new_chunk (sha chunk) (length chunk) w.now w.db in
            w'.db
            ≡ with_link
                (record { file_id = file; chunk_id = c.id; chunk_index = index })
                (with_chunk c w.db))
        → Stored file chunk index w w'
    shared :
        (c : ChunkRow)
        → chunk_by_hash (sha chunk) w.db ≡ some c
        → w'.objects ≡ w.objects
        → w'.db ≡ with_link (record { file_id = file; chunk_id = c.id; chunk_index = index }) w.db
        → Stored file chunk index w w'

  module _ (file : ℕ) (chunk : Bytes) (index : ℕ) where
    abbrev link : ℕ → LinkRow
    link id = record { file_id = file; chunk_id = id; chunk_index = index }

    linked :
        (w : World) (id : ℕ) (b : Bool) (w1 w' : World)
        → SameRest w w1 × Resolved (sha chunk) (length chunk) w id b w1
        → (u : Unit) (w2 : World) → when b (upload_chunk (sha chunk) chunk) w1 ≡ (ok u, w2)
        → (v : Unit) → link_file_chunk file id index w2 ≡ (ok v, w')
        → Stored file chunk index w w'
    unfolding upload_chunk
    linked w id b w1 w' (r, created absent i n d) u w2 up v ln =
        let e2 : w2 ≡ put_object (sha chunk) chunk (advance w1) =
          effect-ok (put_object (sha chunk) chunk) w1 u w2 (rw n at up) in
        let e3 = link-ok file id index w2 v w' ln in
        fresh absent
          (ap (λ (x : World). x.objects) e3
            ∙ (ap (λ (x : World). x.objects) e2
                ∙ ap {B = Objects}
                    (λ (o : Objects) (k : ℕ). if k == sha chunk then some chunk else o k)
                    r.objects))
          (ap (λ (x : World). x.db) e3
            ∙ (ap (λ (x : Database). with_link (link id) x) (ap (λ (x : World). x.db) e2 ∙ d)
                ∙ ap
                    (λ (j : ℕ).
                      with_link (link j)
                        (with_chunk (new_chunk (sha chunk) (length chunk) w.now w.db) w.db))
                    i))
    linked w id b w1 w' (r, found c present i o d) u w2 up v ln =
        let e3 = link-ok file id index w2 v w' ln in
        let e2 : w2 ≡ w1 = nothing b up o in
        shared c present
          (ap (λ (x : World). x.objects) e3 ∙ (ap (λ (x : World). x.objects) e2 ∙ r.objects))
          (ap (λ (x : World). x.db) e3
            ∙ (ap (λ (x : Database). with_link (link id) x) (ap (λ (x : World). x.db) e2 ∙ d)
                ∙ ap (λ (j : ℕ). with_link (link j) w.db) i))
      where
        nothing :
            (b : Bool)
            → when b (upload_chunk (sha chunk) chunk) w1 ≡ (ok u, w2)
            → b ≡ false
            → w2 ≡ w1
        nothing true p q = cc
        nothing false p q = ground arith

    -- What a committed `storeChunk` has done.
    pub store_chunk-Stored :
        (w : World) (u : Unit) (w' : World)
        → store_chunk sha file (sha chunk) chunk index w ≡ (ok u, w')
        → Stored file chunk index w w'
    unfolding store_chunk link_new_chunk
    store_chunk-Stored w u w' h =
        let (w2, body, e) = in_tx-ok (link_new_chunk sha file (sha chunk) chunk index) w u w' h in
        let (p, w3, got, rest) =
          bind-ok (get_or_create_chunk (sha chunk) (length chunk))
            (link_resolved sha file (sha chunk) chunk index) (advance w) u w2 body in
        let (v, w4, up, ln) =
          bind-ok (when p.1 (upload_chunk (sha chunk) chunk)) (λ _. link_file_chunk file p.0 index)
            w3 u w2 rest in
        settled e (
          linked (advance w) p.0 p.1 w3 w2
            (get_or_create_chunk-ok (sha chunk) (length chunk) (advance w) p.0 p.1 w3 got) v w4 up u
            ln)
      where
        settled :
            {w2 : World}
            → w' ≡ advance w2
            → Stored file chunk index (advance w) w2
            → Stored file chunk index w w'
        settled e (fresh a o d) =
            fresh a (ap (λ (x : World). x.objects) e ∙ o) (ap (λ (x : World). x.db) e ∙ d)
        settled e (shared c p o d) =
            shared c p (ap (λ (x : World). x.objects) e ∙ o) (ap (λ (x : World). x.db) e ∙ d)
