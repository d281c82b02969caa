-- ===== src/Events/Outage.antt =====
-- How long `Consume` bears with a broker that does not answer.
use distributed_cloud_system.Base.{
  ℕ, zero, suc, ◌+◌, ◌<◌, ◌≡◌, refl, ◌∙◌, String, none, List, [], ◌∷◌, false, arith, leb,
}
use distributed_cloud_system.Events.Broker.{Broker, Handler}
use distributed_cloud_system.Events.Backoff.{consume_backoff}
use distributed_cloud_system.Events.Consume.{Turn, gave_up, read_error, consume_loop}

abbrev pub silent : Turn
silent = record { ticked = false; pages = []; answer = read_error }

-- A number of failed reads in a row.
abbrev pub outage : ℕ → List Turn → List Turn
outage zero ts = ts
outage (suc n) ts = silent ∷ outage n ts

-- The delays before the attempts after `failures`.
abbrev pub delays : ℕ → ℕ → ℕ
delays failures zero = 0
delays failures (suc n) = consume_backoff (suc failures) + delays (suc failures) n

abbrev pub delayed : ℕ → Broker → Broker
delayed d b = record b { waited = b.waited + d }

abbrev pub live : Broker → Broker
live b = record b { cancelled_after = none }

module _ (handler : Handler) (context : String) where
  one_failure :
      (ts : List Turn) (failures : ℕ) (b : Broker)
      → suc failures < 8
      → consume_loop handler context (silent ∷ ts) failures (live b)
        ≡ consume_loop handler context ts
            (suc failures)
            (delayed (consume_backoff (suc failures)) (live b))
  unfolding consume_loop
  one_failure ts failures b h =
      let e : leb 8 (suc failures) ≡ false = ground arith in rw (e, consume_loop) refl

  failures_in_a_row :
      (n failures : ℕ) (ts : List Turn) (b : Broker)
      → failures + n < 8
      → consume_loop handler context (outage n ts) failures (live b)
        ≡ consume_loop handler context ts (failures + n) (delayed (delays failures n) (live b))
  failures_in_a_row zero failures ts b h =
      let e : failures + 0 ≡ failures = omega arith in
      let d : b.waited + 0 ≡ b.waited = omega arith in rw (e, d) refl
  failures_in_a_row (suc n) failures ts b h =
      let e : suc failures + n ≡ failures + suc n = omega arith in
      one_failure (outage n ts) failures b (omega arith)
      ∙ (failures_in_a_row n (suc failures) ts (delayed (consume_backoff (suc failures)) b)
            (omega arith)
          ∙ (let d : b.waited + consume_backoff (suc failures) + delays (suc failures) n
                  ≡ b.waited + (consume_backoff (suc failures) + delays (suc failures) n) =
                omega arith in
              rw (e, d) refl))

  -- A consumer whose context lives bears up to seven failed reads in a row and goes on as if after
  -- the delays; the eighth makes it give up, 30.75 seconds of delays after the first.
  pub outage_bound :
      (n : ℕ) (ts : List Turn) (b : Broker)
      → n < 8
      → (consume_loop handler context (outage n ts) 0 (live b)
          ≡ consume_loop handler context ts n (delayed (delays 0 n) (live b)))
        × (consume_loop handler context (outage 8 ts) 0 (live b)
            ≡ (gave_up, delayed 30_750_000_000 (live b)))
  unfolding consume_loop consume_backoff
  outage_bound n ts b h = (
    failures_in_a_row n 0 ts b (omega arith) ∙ (let z : 0 + n ≡ n = omega arith in rw z refl),
    ground arith,
  )
