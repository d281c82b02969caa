-- ===== src/Storage/Proofs/Swept.antt =====
-- What a whole garbage collection leaves of a file that is ready: everything.
use distributed_cloud_system.Base.{
  ℕ, zero, suc, ◌≡◌, refl, inl, inr, List, [], ◌∷◌, true, false, not, arith, any, keep, take, All,
  All-keep, All-map, ◌==◌, ==_iff, ◌&&◌,
}
use distributed_cloud_system.Storage.World.{
  World, Database, ChunkRow, LinkRow, FileRow, ready, Outcome, pass, fail, late, cut,
}
use distributed_cloud_system.Storage.Action.{◌>>=◌, advance, next_outcome}
use distributed_cloud_system.Storage.Repository.{is_file, is_gone, delete_files}
use distributed_cloud_system.Storage.Chunks.{
  of_file, is_stale, delete_stale, delete_stale_uploads, get_orphaned_chunks, query_rows,
  attempt_rows, is_old_orphan,
}
use distributed_cloud_system.Storage.Collection.{collect_loop, run_garbage_collection, start}
use distributed_cloud_system.Storage.Proofs.Statements.{query_cases}
use distributed_cloud_system.Storage.Proofs.Spared.{find-keep, keep-keep, All-of, OwnsHash}
use distributed_cloud_system.Storage.Proofs.Held.{
  IsHeld, links_of, narrow, advanced, collect_loop-IsHeld,
}

module _ (file : ℕ) (before : World) where
  All-take : (P : ChunkRow → Type 0) (n : ℕ) (xs : List ChunkRow) → All P xs → All P (take n xs)
  All-take P zero xs h = tt
  All-take P (suc n) [] h = tt
  All-take P (suc n) (x ∷ xs) h = (h.0, All-take P n xs h.1)

  -- The candidates are rows of the table, all of them or, where the connection breaks, the first ones.
  collect_orphaned-IsHeld :
      (min_age : ℕ) (o : Outcome) (w : World)
      → IsHeld file before w.db.chunks w
      → IsHeld file before []
          ((attempt_rows o (λ v. keep (is_old_orphan min_age v) v.db.chunks) >>= λ orphaned.
              collect_loop orphaned start)
            w).1
  collect_orphaned-IsHeld min_age pass w h =
      let cs = keep (is_old_orphan min_age w) w.db.chunks in
      collect_loop-IsHeld file before cs start w
        (narrow file before _ cs w (All-keep _ _ w.db.chunks h.hashes) h)
  collect_orphaned-IsHeld min_age (fail e) w h = narrow file before _ [] w tt h
  collect_orphaned-IsHeld min_age (late e) w h = narrow file before _ [] w tt h
  collect_orphaned-IsHeld min_age (cut n) w h =
      let cs = keep (is_old_orphan min_age w) w.db.chunks in
      collect_loop-IsHeld file before (take n cs) start w
        (narrow file before _ (take n cs) w (All-take _ n cs (All-keep _ _ w.db.chunks h.hashes)) h)

  -- Every row with the file's id is ready.
  abbrev pub IsReady : Type 0
  IsReady = All (λ (g : FileRow). is_file file g ≡ true → g.status ≡ ready) before.db.files

  module _ (all_ready : IsReady) (own : All (OwnsHash before.db.chunks) before.db.chunks) where
    not_gone :
        (min_age now : ℕ) (gs : List FileRow)
        → All (λ (g : FileRow). is_file file g ≡ true → g.status ≡ ready) gs
        → any (λ g. g.id == file && is_stale min_age now g) gs ≡ false
    not_gone min_age now [] h = refl
    not_gone min_age now (g ∷ gs) h = ground (arith, not_gone min_age now gs h.1, h.0)

    untouched :
        (w : World)
        → w.db ≡ before.db
        → w.objects ≡ before.objects
        → IsHeld file before w.db.chunks w
    untouched w same bucket = record {
      row = rw same refl;
      links = rw same refl;
      chunks = rw same (All-of _ (links_of file before before.db) (λ l. refl));
      objects = rw bucket (All-of _ (links_of file before before.db) (λ l x e. refl));
      hashes = rw same own;
    }

    delete_stale-IsHeld :
        (min_age now : ℕ) (w : World)
        → w.db ≡ delete_files (is_stale min_age now) before.db
        → w.objects ≡ before.objects
        → IsHeld file before w.db.chunks w
    delete_stale-IsHeld min_age now w swept bucket = record {
      row = rw swept (
          find-keep (is_file file) (λ g. not (is_stale min_age now g)) before.db.files
            (All-map _ _ before.db.files (λ g is_ready e. ground (arith, is_ready e)) all_ready));
      links = rw swept (
          keep-keep (of_file file) (λ l. not (is_gone (is_stale min_age now) before.db l.file_id))
            before.db.links (All-of _ before.db.links (λ l e. kept l e)));
      chunks = rw swept (All-of _ (links_of file before before.db) (λ l. refl));
      objects = rw bucket (All-of _ (links_of file before before.db) (λ l x e. refl));
      hashes = rw swept own;
    }
      where
        kept :
            (l : LinkRow)
            → of_file file l ≡ true
            → not (is_gone (is_stale min_age now) before.db l.file_id) ≡ true
        kept l e =
            let here = (==_iff l.file_id file).0 e in
            rw here (rw (not_gone min_age now before.db.files all_ready) refl)

    delete_stale_lem :
        (min_age now : ℕ) (d : Database)
        → (delete_stale min_age now d).1 ≡ delete_files (is_stale min_age now) d
    unfolding delete_stale
    delete_stale_lem min_age now d = refl

    pub run_garbage_collection-IsHeld :
        (min_age : ℕ) → IsHeld file before [] (run_garbage_collection min_age before).1
    unfolding run_garbage_collection get_orphaned_chunks query_rows delete_stale_uploads
    run_garbage_collection-IsHeld min_age = go (delete_stale_uploads min_age before).1 swept_world
      where
        swept_world :
            IsHeld file before
              (delete_stale_uploads min_age before).1.db.chunks
              (delete_stale_uploads min_age before).1
        swept_world = elim (query_cases (delete_stale min_age) before) [
          | inl ran ↦ rw ran (
              delete_stale-IsHeld min_age before.now _
                (delete_stale_lem min_age before.now before.db) refl)
          | inr (inl (e, failed)) ↦ rw failed (untouched _ refl refl)
          | inr (inr lost) ↦ rw lost (
              delete_stale-IsHeld min_age before.now _
                (delete_stale_lem min_age before.now before.db) refl)
        ]

        go :
            (w : World)
            → IsHeld file before w.db.chunks w
            → IsHeld file before []
                ((get_orphaned_chunks min_age >>= λ orphaned. collect_loop orphaned start) w).1
        go w h =
            collect_orphaned-IsHeld min_age (next_outcome w.plan) (advance w)
              (advanced file before w.db.chunks w h)
