-- ===== src/Storage/Proofs/Collected.antt =====
-- The garbage collector leaves chunks alone that a file refers to.
use distributed_cloud_system.Base.{
  none, ==_refl, ◌&&◌, [], ◌∷◌, List, ℕ, ◌≡◌, refl, ◌∙◌, inl, inr, true, false, arith, any, ==_iff,
}
use distributed_cloud_system.Storage.World.{
  Outcome, pass, fail, db, World, Database, ChunkRow, Error, DbError, no_rows,
}
use distributed_cloud_system.Storage.Action.{
  effect, in_tx, query, err, Result, ok, Action, Statement, ◌>>◌, run_tx, advance,
}
use distributed_cloud_system.Storage.Repository.{translate}
use distributed_cloud_system.Storage.Chunks.{
  delete_chunk_row, delete_chunk_record, is_chunk, is_orphan, refers_to, lock_orphan, in_use,
  lock_orphaned_chunk,
}
use distributed_cloud_system.Storage.Collection.{delete_object, collect_body, collect_chunk}
use distributed_cloud_system.Storage.Proofs.Statements.{query_cases}

-- The result is an error, and the tables and the bucket are those of `w`.
abbrev pub IsUntouched : World → Result Unit × World → Type 0
IsUntouched w (ok _, w') = ⊥
IsUntouched w (err _, w') = (w'.db ≡ w.db) × (w'.objects ≡ w.objects)

no_orphan :
    (id : ℕ) (d : Database) (cs : List ChunkRow)
    → any (refers_to id) d.links ≡ true
    → any (λ c. is_chunk id c && is_orphan d c) cs ≡ false
no_orphan id d [] h = refl
no_orphan id d (c ∷ cs) h = ground (arith, no_orphan id d cs h, ==_iff c.id id)

translate-IsUntouched :
    (f : DbError → Error) (w : World) (x : Result Unit × World)
    → IsUntouched w x
    → IsUntouched w (translate f (λ _. x) w)
translate-IsUntouched f w (ok _, w1) h = h
translate-IsUntouched f w (err e, w1) h = h

query-IsUntouched :
    (s : Statement Unit) (w : World) (e : Error)
    → s w.now w.db ≡ (err e, w.db)
    → IsUntouched w (query s w)
query-IsUntouched s w e h = elim (query_cases s w) [
  | inl ran ↦ rw ran (rw h (refl, refl))
  | inr (inl (f, failed)) ↦ rw failed (refl, refl)
  | inr (inr lost) ↦ rw lost (rw h (refl, refl))
]

bind-IsUntouched :
    (m k : Action Unit) (w : World) → IsUntouched w (m w) → IsUntouched w ((m >> k) w)
bind-IsUntouched m k w = go (m w)
  where
    go : (x : Result Unit × World) → IsUntouched w x → IsUntouched w (((λ (_ : World). x) >> k) w)
    go (ok _, w1) h = absurd h
    go (err e, w1) h = h

-- A transaction whose body fails and does nothing to the bucket.
run_tx-IsUntouched :
    (body : Action Unit) (w w1 : World)
    → w1.db ≡ w.db
    → w1.objects ≡ w.objects
    → IsUntouched w1 (body w1)
    → IsUntouched w (run_tx body (ok tt, w1))
run_tx-IsUntouched body w w1 tables bucket = go (body w1)
  where
    go : (x : Result Unit × World) → IsUntouched w1 x → IsUntouched w (run_tx (λ _. x) (ok tt, w1))
    go (ok _, w2) h = absurd h
    go (err e, w2) h = (tables, h.1 ∙ bucket)

module _ (c : ChunkRow) where
  body-IsUntouched :
      (w : World) → any (refers_to c.id) w.db.links ≡ true → IsUntouched w (collect_body c w)
  unfolding collect_body lock_orphaned_chunk lock_orphan
  body-IsUntouched w h =
      bind-IsUntouched (lock_orphaned_chunk c.id) (delete_object c.hash >> delete_chunk_record c.id)
        w
        (translate-IsUntouched in_use w (query (lock_orphan c.id) w) (
          query-IsUntouched (lock_orphan c.id) w (db no_rows)
            (rw (no_orphan c.id w.db w.db.chunks h) refl)))

  -- A chunk that a file refers to is never collected: whatever fails, the collection of it ends in an
  -- error and leaves the tables and the bucket as they were.
  pub collect_chunk-IsUntouched :
      (w : World) → any (refers_to c.id) w.db.links ≡ true → IsUntouched w (collect_chunk c w)
  unfolding collect_chunk in_tx
  collect_chunk-IsUntouched w h = elim (query_cases (λ now d. (ok tt, d)) w) [
    | inr (inl (e, failed)) ↦ rw failed (refl, refl)
    | inr (inr lost) ↦ rw lost (refl, refl)
    | inl begun ↦ rw begun (
        run_tx-IsUntouched (collect_body c) w (record (advance w) { db = w.db }) refl refl
          (body-IsUntouched (record (advance w) { db = w.db }) h))
  ]

-- Where an orphan's object is deleted and the commit fails, the row of the chunk stays in the tables
-- and its object is gone from the bucket.
pub collect_chunk-stranded :
    (c : ChunkRow) (w : World) (e : DbError) (plan : List Outcome)
    → any (λ x. is_chunk c.id x && is_orphan w.db x) w.db.chunks ≡ true
    → any (refers_to c.id) w.db.links ≡ false
    → w.plan ≡ pass ∷ pass ∷ pass ∷ pass ∷ fail e ∷ plan
    → ((collect_chunk c w).0 ≡ err (db e))
      × ((collect_chunk c w).1.db ≡ w.db)
      × ((collect_chunk c w).1.objects c.hash ≡ none)
unfolding collect_chunk collect_body in_tx query effect lock_orphaned_chunk lock_orphan
    delete_object delete_chunk_record delete_chunk_row
collect_chunk-stranded c w e plan orphan unused fails = ground (arith, ==_refl c.hash)
