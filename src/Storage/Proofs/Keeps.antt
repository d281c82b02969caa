-- ===== src/Storage/Proofs/Keeps.antt =====
-- What the ways to build an action keep true of the tables.
use distributed_cloud_system.Base.{ℕ, ◌≡◌, refl, Bool, true, false, if◌then◌else◌, inl, inr}
use distributed_cloud_system.Storage.World.{
  World, Database, Error, db, DbError, no_rows, pg_error, broken, Outcome, pass, fail, late, cut,
}
use distributed_cloud_system.Storage.Action.{
  Result, ok, err, Action, ◌>>=◌, Statement, query, effect, attempt_effect, settle, begin_tx,
  run_tx, in_tx, advance, next_outcome,
}
use distributed_cloud_system.Storage.Repository.{translate}
use distributed_cloud_system.Storage.Chunks.{on_no_rows}
use distributed_cloud_system.Storage.Proofs.Statements.{query_cases}

module _ (P : Database → Type 0) where
  abbrev pub Keeps : {A : Type 0} → Action A → Type 0
  Keeps m = (w : World) → P w.db → P (m w).1.db

  module _ {A : Type 0} where
    pub query-Keeps :
        (s : Statement A) → ((now : ℕ) (d : Database) → P d → P (s now d).1) → Keeps (query s)
    query-Keeps s h w p = elim (query_cases s w) [
      | inl ran ↦ rw ran (h w.now w.db p)
      | inr (inl (e, failed)) ↦ rw failed p
      | inr (inr lost) ↦ rw lost (h w.now w.db p)
    ]

    pub translate-Keeps : (f : DbError → Error) (m : Action A) → Keeps m → Keeps (translate f m)
    translate-Keeps f m h w p = go (m w) (h w p)
      where
        go : (x : Result A × World) → P x.1.db → P (translate f (λ _. x) w).1.db
        go (ok a, w1) q = q
        go (err e, w1) q = q

    settle-Keeps :
        (before : Database) (r : Result A) (w : World)
        → P before
        → P w.db
        → P (settle before r w).1.db
    settle-Keeps before (err e) w p q = p
    settle-Keeps before (ok a) w p q = go (next_outcome w.plan) refl
      where
        go : (o : Outcome) → next_outcome w.plan ≡ o → P (settle before (ok a) w).1.db
        go pass e = rw (e, settle) q
        go (fail x) e = rw (e, settle) p
        go (late x) e = rw (e, settle) q
        go (cut n) e = rw (e, settle) p

    run_tx-Keeps :
        (body : Action A)
        → Keeps body
        → (x : Result Unit × World) → P x.1.db
        → P (run_tx body x).1.db
    run_tx-Keeps body h (err e, w) p = p
    run_tx-Keeps body h (ok _, w) p = settle-Keeps w.db (body w).0 (body w).1 p (h w p)

  pub effect-Keeps : (f : World → World) → ((w : World) → (f w).db ≡ w.db) → Keeps (effect f)
  unfolding effect
  effect-Keeps f same w p = go (next_outcome w.plan)
    where
      go : (o : Outcome) → P (attempt_effect o f (advance w)).1.db
      go pass = rw (same (advance w)) p
      go (fail e) = p
      go (late e) = rw (same (advance w)) p
      go (cut n) = p

  pub in_tx-Keeps : {A : Type 0} (body : Action A) → Keeps body → Keeps (in_tx body)
  unfolding in_tx
  in_tx-Keeps body h w p =
      run_tx-Keeps body h (begin_tx w) (query-Keeps (λ _ d. (ok tt, d)) (λ now d q. q) w p)

  pub bind-Keeps :
      {A B : Type 0} (m : Action A) (f : A → Action B)
      → Keeps m
      → ((a : A) → Keeps (f a))
      → Keeps (m >>= f)
  bind-Keeps {A} {B} m f h k w p = go (m w) (h w p)
    where
      go : (x : Result A × World) → P x.1.db → P (((λ (_ : World). x) >>= f) w).1.db
      go (ok a, w1) q = k a w1 q
      go (err x, w1) q = q

  pub if-Keeps :
      {A : Type 0} (b : Bool) (m k : Action A) → Keeps m → Keeps k → Keeps (if b then m else k)
  if-Keeps true m k h q = h
  if-Keeps false m k h q = q

  pub on_no_rows-Keeps :
      (more : Action (ℕ × Bool)) (is_new : Bool) (m : Action ℕ)
      → Keeps more
      → Keeps m
      → Keeps (on_no_rows more is_new m)
  on_no_rows-Keeps more is_new m h k w p = go (m w) (k w p)
    where
      go : (x : Result ℕ × World) → P x.1.db → P (on_no_rows more is_new (λ _. x) w).1.db
      go (ok id, w1) q = q
      go (err e, w1) q = on_error e
        where
          on_error : (e : Error) → P (on_no_rows more is_new (λ _. (err e, w1)) w).1.db
          on_error (db no_rows) = h w1 q
          on_error (db (pg_error code)) = q
          on_error (db broken) = q
          on_error _ = q
