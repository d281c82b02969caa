-- ===== src/Storage/Proofs/Calm.antt =====
-- Where no call fails, the storing of a chunk succeeds.
use distributed_cloud_system.Base.{
  ℕ, ◌≡◌, refl, ap, ◌∙◌, some, none, List, [], ◌∷◌, Bool, true, false, arith, length, ==_iff, any,
  Bool-cases, Option-cases, inl, inr,
}
use distributed_cloud_system.Storage.World.{World, Database, Bytes, ChunkRow, LinkRow, db, no_rows}
use distributed_cloud_system.Storage.Action.{
  Result, ok, err, Action, ◌>>=◌, query, effect, in_tx, Statement,
}
use distributed_cloud_system.Storage.Repository.{is_file}
use distributed_cloud_system.Storage.Chunks.{
  chunk_by_hash, new_chunk, with_chunk, is_chunk, insert_chunk, select_chunk, on_no_rows,
  get_or_create_chunk, get_or_create, insert_link, link_file_chunk, at_index, of_file,
}
use distributed_cloud_system.Storage.Service.{
  link_resolved, link_new_chunk, store_chunk, upload_chunk, put_object,
}
use distributed_cloud_system.Storage.Proofs.Tables.{
  Before, any-of_find, All-of_find, IsConsistent, found_new, with_link,
}
use distributed_cloud_system.Storage.Proofs.Download.{calm}

-- A link behind all those of its file is at an index of its own.
free_index :
    (file index : ℕ) (ls : List LinkRow)
    → Before file index ls
    → any (at_index file index) ls ≡ false
free_index file index [] h = refl
free_index file index (l ∷ ls) h = elim (Bool-cases (of_file file l)) [
  | inl here ↦
      let (lt, rest) = rw here at h in
      ground (arith, free_index file index ls rest, ==_iff l.chunk_index index)
  | inr other ↦ ground (arith, other, free_index file index ls (rw other at h))
]

module _ (h size now : ℕ) (d : Database) where
  insert_absent :
      chunk_by_hash h d ≡ none
      → insert_chunk h size now d ≡ (ok d.next_id, with_chunk (new_chunk h size now d) d)
  unfolding insert_chunk
  insert_absent absent = rw (absent, insert_chunk) refl

  insert_present :
      (c : ChunkRow)
      → chunk_by_hash h d ≡ some c
      → insert_chunk h size now d ≡ (err (db no_rows), d)
  unfolding insert_chunk
  insert_present c present = rw (present, insert_chunk) refl

  select_present : (c : ChunkRow) → chunk_by_hash h d ≡ some c → select_chunk h now d ≡ (ok c.id, d)
  unfolding select_chunk
  select_present c present = rw (present, select_chunk) refl

pub query-calm :
    {A : Type 0} (s : Statement A) (w : World) (r : Result A) (d : Database)
    → s w.now w.db ≡ (r, d)
    → query s (calm w) ≡ (r, calm (record w { db = d }))
unfolding query
query-calm {A} s w r d e = ap (λ (x : Result A × Database). (x.0, calm (record w { db = x.1 }))) e

pub bind_calm :
    {A B : Type 0} (m : Action A) (f : A → Action B) (w w1 : World) (a : A)
    → m w ≡ (ok a, w1)
    → (m >>= f) w ≡ f a w1
bind_calm {A} m f w w1 a e = ap (λ (x : Result A × World). ((λ (_ : World). x) >>= f) w) e

on_row :
    (more : Action (ℕ × Bool)) (b : Bool) (m : Action ℕ) (w w1 : World) (x : Result ℕ)
    → m w ≡ (x, w1)
    → on_no_rows more b m w ≡ on_no_rows more b (λ _. (x, w1)) w
on_row more b m w w1 x e = ap (λ (y : Result ℕ × World). on_no_rows more b (λ _. y) w) e

module _ (w : World) where
  -- The first query of `GetOrCreateChunk` has made the row, or the second has found it.
  made :
      (h size : ℕ)
      → chunk_by_hash h w.db ≡ none
      → get_or_create_chunk h size (calm w) ≡ (
        ok (w.db.next_id, true),
        calm (record w { db = with_chunk (new_chunk h size w.now w.db) w.db }),
      )
  unfolding get_or_create_chunk get_or_create
  made h size absent =
      on_row (on_no_rows (get_or_create 2 h size) false (query (select_chunk h))) true
        (query (insert_chunk h size)) (calm w) _ _
        (query-calm (insert_chunk h size) w _ _ (insert_absent h size w.now w.db absent))

  found :
      (h size : ℕ) (c : ChunkRow)
      → chunk_by_hash h w.db ≡ some c
      → get_or_create_chunk h size (calm w) ≡ (ok (c.id, false), calm w)
  unfolding get_or_create_chunk get_or_create
  found h size c present =
      on_row (on_no_rows (get_or_create 2 h size) false (query (select_chunk h))) true
        (query (insert_chunk h size)) (calm w) _ _
        (query-calm (insert_chunk h size) w _ _ (insert_present h size w.now w.db c present))
      ∙ on_row (get_or_create 2 h size) false (query (select_chunk h)) (calm w) _ _
          (query-calm (select_chunk h) w _ _ (select_present h size w.now w.db c present))

  -- The link is made where its file and its chunk are there and its index is free.
  linked :
      (file chunk index : ℕ)
      → any (is_file file) w.db.files ≡ true
      → any (is_chunk chunk) w.db.chunks ≡ true
      → Before file index w.db.links
      → (d : Database) × (link_file_chunk file chunk index (calm w)
          ≡ (ok tt, calm (record w { db = d })))
        × (d.files ≡ w.db.files)
  unfolding link_file_chunk insert_link query
  linked file chunk index there kept before = (
    with_link (record { file_id = file; chunk_id = chunk; chunk_index = index }) w.db,
    rw (there, kept, free_index file index w.db.links before) refl,
    refl,
  )

  uploaded : (h : ℕ) (p : Bytes) → upload_chunk h p (calm w) ≡ (ok tt, calm (put_object h p w))
  unfolding upload_chunk effect
  uploaded h p = refl

  committed :
      (m : Action Unit) (w1 : World)
      → m (calm w) ≡ (ok tt, calm w1)
      → in_tx m (calm w) ≡ (ok tt, calm w1)
  unfolding in_tx query
  committed m w1 h = rw h refl

module _ (sha : Bytes → ℕ) (file index : ℕ) (p : Bytes) (w : World) where
  -- A chunk of a file that is there is stored.
  pub store_chunk-calm :
      any (is_file file) w.db.files ≡ true
      → Before file index w.db.links
      → IsConsistent w.db
      → (w1 : World) × (store_chunk sha file (sha p) p index (calm w) ≡ (ok tt, calm w1))
        × (w1.db.files ≡ w.db.files)
  unfolding store_chunk link_new_chunk
  store_chunk-calm there before ok_tables = elim (Option-cases (chunk_by_hash (sha p) w.db)) [
    | inl absent ↦
        let d1 = with_chunk (new_chunk (sha p) (length p) w.now w.db) w.db in
        let w1 : World = record w { db = d1 } in
        let kept =
          any-of_find (is_chunk w.db.next_id) d1.chunks _
            (found_new w.db (new_chunk (sha p) (length p) w.now w.db) refl ok_tables.chunk_ids) in
        let (d, done, same) =
          linked (put_object (sha p) p w1) file w.db.next_id index there kept before in
        (
          record (put_object (sha p) p w1) { db = d },
          committed w (link_new_chunk sha file (sha p) p index)
              (record (put_object (sha p) p w1) { db = d })
              (bind_calm (get_or_create_chunk (sha p) (length p))
                  (link_resolved sha file (sha p) p index) (calm w) (calm w1) (w.db.next_id, true)
                  (made w (sha p) (length p) absent)
                ∙ (bind_calm (upload_chunk (sha p) p) (λ _. link_file_chunk file w.db.next_id index)
                      (calm w1) (calm (put_object (sha p) p w1)) tt (uploaded w1 (sha p) p)
                    ∙ done)),
          same,
        )
    | inr (c, present) ↦
        let kept =
          any-of_find (is_chunk c.id) w.db.chunks c
            (All-of_find _ _ w.db.chunks c ok_tables.by_id present) in
        let (d, done, same) = linked w file c.id index there kept before in
        (
          record w { db = d },
          committed w (link_new_chunk sha file (sha p) p index) (record w { db = d })
              (bind_calm (get_or_create_chunk (sha p) (length p))
                  (link_resolved sha file (sha p) p index) (calm w) (calm w) (c.id, false)
                  (found w (sha p) (length p) c present)
                ∙ done),
          same,
        )
  ]
