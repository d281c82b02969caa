-- ===== src/Storage/Proofs/Bucket.antt =====
-- What the ways to build an action keep true of the bucket.
use distributed_cloud_system.Base.{◌≡◌, refl, inl, inr}
use distributed_cloud_system.Storage.World.{
  World, Database, Error, DbError, Outcome, pass, fail, late, cut,
}
use distributed_cloud_system.Storage.Action.{
  Result, ok, err, Action, ◌>>=◌, Statement, query, effect, attempt_effect, settle, begin_tx,
  run_tx, in_tx, advance, next_outcome,
}
use distributed_cloud_system.Storage.Repository.{translate}
use distributed_cloud_system.Storage.Proofs.Stored.{Objects}
use distributed_cloud_system.Storage.Proofs.Statements.{query_cases}

module _ (P : Objects → Type 0) where
  abbrev pub KeepsBucket : {A : Type 0} → Action A → Type 0
  KeepsBucket m = (w : World) → P w.objects → P (m w).1.objects

  module _ {A : Type 0} where
    pub query-KeepsBucket : (s : Statement A) → KeepsBucket (query s)
    query-KeepsBucket s w p = elim (query_cases s w) [
      | inl ran ↦ rw ran p
      | inr (inl (e, failed)) ↦ rw failed p
      | inr (inr lost) ↦ rw lost p
    ]

    pub translate-KeepsBucket :
        (f : DbError → Error) (m : Action A) → KeepsBucket m → KeepsBucket (translate f m)
    translate-KeepsBucket f m h w p = go (m w) (h w p)
      where
        go : (x : Result A × World) → P x.1.objects → P (translate f (λ _. x) w).1.objects
        go (ok a, w1) q = q
        go (err e, w1) q = q

    settle-KeepsBucket :
        (before : Database) (r : Result A) (w : World)
        → P w.objects
        → P (settle before r w).1.objects
    settle-KeepsBucket before (err e) w q = q
    settle-KeepsBucket before (ok a) w q = go (next_outcome w.plan) refl
      where
        go : (o : Outcome) → next_outcome w.plan ≡ o → P (settle before (ok a) w).1.objects
        go pass e = rw (e, settle) q
        go (fail x) e = rw (e, settle) q
        go (late x) e = rw (e, settle) q
        go (cut n) e = rw (e, settle) q

    run_tx-KeepsBucket :
        (body : Action A)
        → KeepsBucket body
        → (x : Result Unit × World) → P x.1.objects
        → P (run_tx body x).1.objects
    run_tx-KeepsBucket body h (err e, w) p = p
    run_tx-KeepsBucket body h (ok _, w) p = settle-KeepsBucket w.db (body w).0 (body w).1 (h w p)

  pub in_tx-KeepsBucket :
      {A : Type 0} (body : Action A) → KeepsBucket body → KeepsBucket (in_tx body)
  unfolding in_tx
  in_tx-KeepsBucket body h w p =
      run_tx-KeepsBucket body h (begin_tx w) (query-KeepsBucket (λ _ d. (ok tt, d)) w p)

  pub effect-KeepsBucket :
      (f : World → World) → ((w : World) → P w.objects → P (f w).objects) → KeepsBucket (effect f)
  unfolding effect
  effect-KeepsBucket f h w p = go (next_outcome w.plan)
    where
      go : (o : Outcome) → P (attempt_effect o f (advance w)).1.objects
      go pass = h (advance w) p
      go (fail e) = p
      go (late e) = h (advance w) p
      go (cut n) = p

  pub bind-KeepsBucket :
      {A B : Type 0} (m : Action A) (f : A → Action B)
      → KeepsBucket m
      → ((a : A) → KeepsBucket (f a))
      → KeepsBucket (m >>= f)
  bind-KeepsBucket {A} {B} m f h k w p = go (m w) (h w p)
    where
      go : (x : Result A × World) → P x.1.objects → P (((λ (_ : World). x) >>= f) w).1.objects
      go (ok a, w1) q = k a w1 q
      go (err x, w1) q = q
