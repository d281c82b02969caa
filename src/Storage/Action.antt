-- ===== src/Storage/Action.antt =====
-- Methods of internal/storage as actions: state and errors. What was done before an error stays
-- done, so the state comes back beside the error too.
use distributed_cloud_system.Base.{ℕ, List, [], ◌∷◌}
use distributed_cloud_system.Storage.World.{
  World, Database, Outcome, pass, fail, late, cut, broken, Error, db,
}

pub data Result (A : Type 0) : Type 0 where
  ok : A → Result A
  err : Error → Result A

abbrev pub Action : Type 0 → Type 0
Action A = World → Result A × World

module _ {A : Type 0} where
  abbrev pub pure : A → Action A
  pure a w = (ok a, w)

  abbrev pub raise : Error → Action A
  raise e w = (err e, w)

infixl 5 ◌>>=◌ ◌>>◌
abbrev pub ◌>>=◌ : {A : Type 0} {B : Type 0} → Action A → (A → Action B) → Action B
(action >>= rest) w = let (r, w1) = action w in elim r [ err e ↦ (err e, w1) | ok a ↦ rest a w1 ]

abbrev pub ◌>>◌ : {A B : Type 0} → Action A → Action B → Action B
m >> k = m >>= λ _. k

-- `_ = f()`: the result is thrown away.
abbrev pub ignore : {A : Type 0} → Action A → Action (Unit {0})
ignore m w = (ok tt, (m w).1)

abbrev pub next_outcome : List Outcome → Outcome
next_outcome [] = pass
next_outcome (o ∷ _) = o

abbrev pub later : List Outcome → List Outcome
later [] = []
later (_ ∷ p) = p

-- The world once the outcome of a call is known.
abbrev pub advance : World → World
advance w = record w { plan = later w.plan }

-- A statement of PostgreSQL, which has no effect where PostgreSQL refuses it. Where its answer is lost
-- it has taken effect, and is reported as failed by an error that is not PostgreSQL's. It reads the clock for `NOW()`.
abbrev pub Statement : Type 0 → Type 0
Statement A = ℕ → Database → Result A × Database

abbrev pub run_statement : {A : Type 0} → Statement A → Action A
run_statement s w = let (r, d) = s w.now w.db in (r, record w { db = d })

abbrev pub attempt : {A : Type 0} → Outcome → Statement A → Action A
attempt pass s w = run_statement s w
attempt (fail e) s w = (err (db e), w)
attempt (late _) s w = (err (db broken), (run_statement s w).1)
attempt (cut _) s w = (err (db broken), w)

-- `QueryRow` and `Exec`.
unfoldable pub query : {A : Type 0} → Statement A → Action A
query s w = attempt (next_outcome w.plan) s (advance w)

-- A request to the object store or to Redis, which may have taken effect where it is reported as
-- failed.
abbrev pub attempt_effect : Outcome → (World → World) → Action Unit
attempt_effect pass f w = (ok tt, f w)
attempt_effect (fail e) f w = (err (db e), w)
attempt_effect (late e) f w = (err (db e), f w)
attempt_effect (cut _) f w = (err (db broken), w)

unfoldable pub effect : (World → World) → Action Unit
effect f w = attempt_effect (next_outcome w.plan) f (advance w)

-- `BeginTx`, the deferred `Rollback`, the body, and `Commit`. An unfinished transaction leaves the
-- tables as they were, whether or not the rollback is answered; a commit that is reported as
-- failed may have happened.
abbrev pub settle : {A : Type 0} → Database → Result A → Action A
settle before (err e) w = (err e, record w { db = before })
settle before (ok a) w = elim (next_outcome w.plan) [
  | pass ↦ (ok a, advance w)
  | fail e ↦ (err (db e), record (advance w) { db = before })
  | late e ↦ (err (db e), advance w)
  | cut _ ↦ (err (db broken), record (advance w) { db = before })
]

abbrev pub begin_tx : Action Unit
begin_tx = query (λ _ d. (ok tt, d))

abbrev pub run_tx : {A : Type 0} → Action A → Result Unit × World → Result A × World
run_tx body (err e, w) = (err e, w)
run_tx body (ok _, w) = let (r, w') = body w in settle w.db r w'

unfoldable pub in_tx : {A : Type 0} → Action A → Action A
in_tx body w = run_tx body (begin_tx w)
