-- ===== src/Storage/Proofs/Inversions.antt =====
-- Inversions of the ways to build an action: what has run where the whole was a success.
use distributed_cloud_system.Base.{ℕ, ◌≡◌, refl, ◌∙◌, arith}
use distributed_cloud_system.Storage.World.{World, Database, Outcome, pass, fail, late, cut}
use distributed_cloud_system.Storage.Action.{
  Result, ok, err, Action, ◌>>=◌, begin_tx, settle, effect, advance, run_tx, in_tx, next_outcome,
}
use distributed_cloud_system.Storage.Repository.{translate}
use distributed_cloud_system.Storage.Chunks.{insert_link, link_file_chunk}
use distributed_cloud_system.Storage.Proofs.Statements.{query-ok}
use distributed_cloud_system.Storage.Proofs.Tables.{with_link}

module _ {A B : Type 0} where
  pub bind-ok :
      (m : Action A) (f : A → Action B) (w : World) (b : B) (w' : World)
      → (m >>= f) w ≡ (ok b, w')
      → (a : A) × (w1 : World) × (m w ≡ (ok a, w1)) × (f a w1 ≡ (ok b, w'))
  bind-ok m f w b w' = go (m w) refl
    where
      go :
          (x : Result A × World)
          → m w ≡ x
          → ((λ _. x) >>= f) w ≡ (ok b, w')
          → (a : A) × (w1 : World) × (m w ≡ (ok a, w1)) × (f a w1 ≡ (ok b, w'))
      go (ok a, w1) p h = (a, w1, p, h)
      go (err e, w1) p h = ground arith

begun : (w : World) (u : Unit) (w1 : World) → begin_tx w ≡ (ok u, w1) → w1 ≡ advance w
begun w u w1 p = let (d, s, e) = query-ok (λ _ d. (ok tt, d)) w u w1 p in ground arith

module _ {A : Type 0} where
  pub translate-ok :
      (f : _) (m : Action A) (w : World) (a : A) (w' : World)
      → translate f m w ≡ (ok a, w')
      → m w ≡ (ok a, w')
  translate-ok f m w a w' = go (m w) refl
    where
      go : (x : Result A × World) → m w ≡ x → translate f (λ _. x) w ≡ (ok a, w') → m w ≡ (ok a, w')
      go (ok b, w1) p h = p ∙ h
      go (err e, w1) p h = ground arith

  settle-ok :
      (d : Database) (r : Result A) (w : World) (a : A) (w' : World)
      → settle d r w ≡ (ok a, w')
      → (r ≡ ok a) × (w' ≡ advance w)
  settle-ok d (err e) w a w' h = ground arith
  settle-ok d (ok b) w a w' h = go (next_outcome w.plan) refl h
    where
      go :
          (o : Outcome)
          → next_outcome w.plan ≡ o
          → settle d (ok b) w ≡ (ok a, w')
          → (ok b ≡ ok a) × (w' ≡ advance w)
      go pass p h = ground arith
      go (fail e) p h = ground arith
      go (late e) p h = ground arith
      go (cut n) p h = ground arith

  -- A transaction that was committed.
  pub in_tx-ok :
      (body : Action A) (w : World) (a : A) (w' : World)
      → in_tx body w ≡ (ok a, w')
      → (w2 : World) × (body (advance w) ≡ (ok a, w2)) × (w' ≡ advance w2)
  unfolding in_tx
  in_tx-ok body w a w' = go (begin_tx w) refl
    where
      go :
          (x : Result Unit × World)
          → begin_tx w ≡ x
          → run_tx body x ≡ (ok a, w')
          → (w2 : World) × (body (advance w) ≡ (ok a, w2)) × (w' ≡ advance w2)
      go (err e, w1) p h = ground arith
      go (ok u, w1) p h =
          let q = settle-ok w1.db (body w1).0 (body w1).1 a w' h in
          ((body w1).1, rw (← begun w u w1 p) (ground (arith, q.0)), q.1)

pub effect-ok :
    (f : World → World) (w : World) (u : Unit) (w' : World)
    → effect f w ≡ (ok u, w')
    → w' ≡ f (advance w)
unfolding effect
effect-ok f w u w' = go (next_outcome w.plan) refl
  where
    go : (o : Outcome) → next_outcome w.plan ≡ o → effect f w ≡ (ok u, w') → w' ≡ f (advance w)
    go pass p h = ground arith
    go (fail e) p h = ground arith
    go (late e) p h = ground arith
    go (cut n) p h = ground arith

-- A link that was inserted.
pub link-ok :
    (file chunk index : ℕ) (w : World) (u : Unit) (w' : World)
    → link_file_chunk file chunk index w ≡ (ok u, w')
    → w' ≡ record (advance w) {
      db = with_link (record { file_id = file; chunk_id = chunk; chunk_index = index }) w.db;
    }
unfolding link_file_chunk insert_link
link-ok file chunk index w u w' h =
    let (d, s, e) = query-ok (insert_link file chunk index) w u w' h in ground arith
