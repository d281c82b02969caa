-- ===== src/Middleware/Script.antt =====
-- internal/middleware/ratelimit_store.go: `redisCounterScript`, on Redis' commands INCR and PEXPIRE.
pub mod Numbers
pub mod Gone
pub mod Counting
use distributed_cloud_system.Base.{
  ℕ, suc, ◌+◌, ◌-◌, ◌<◌, ◌≡◌, refl, ap, ◌∙◌, ◌⊎◌, inl, inr, Option, none, some, List, [], ◌∷◌,
  if◌then◌else◌, leb, ◌==◌, Bool-cases, arith,
}
use distributed_cloud_system.Middleware.Counter.{RedisKey}
use distributed_cloud_system.Middleware.Shared.{same_key, same_key_sound}

-- The two commands of the script, and the passing of milliseconds on Redis' clock.
pub record Commands : Type 1 where
  pub State : Type 0
  pub incr : State → RedisKey → ℕ × State
  pub pexpire : State → RedisKey → ℕ → State
  pub wait : State → ℕ → State

-- An integer in Redis, and the milliseconds for which it stays, where it is to go.
pub record Entry : Type 0 where
  pub count : ℕ
  pub left : Option ℕ

-- The number that INCR counts on from.
abbrev pub counted : Option Entry → ℕ
counted none = 0
counted (some e) = e.count

abbrev pub ttl_of : Option Entry → Option ℕ
ttl_of none = none
ttl_of (some e) = e.left

-- What is there of an entry some milliseconds later.
abbrev pub elapse : ℕ → Option Entry → Option Entry
elapse d none = none
elapse d (some e) = elim e.left [
  | none ↦ some e
  | some t ↦ if leb t d then none else some (record { count = e.count; left = some (t - d) })
]

abbrev pub updated : RedisKey → Entry → (RedisKey → Option Entry) → RedisKey → Option Entry
updated key e entries k = if same_key key k then some e else entries k

-- What Redis documents of the commands: INCR adds 1 to what is there, or to 0, and keeps the time to
-- live; PEXPIRE sets that of a key that is there; a key whose time is over is not there.
pub record Expires (R : Commands) : Type 0 where
  pub entry : R.State → RedisKey → Option Entry
  pub incr-counted : (s : R.State) (key : RedisKey) → (R.incr s key).0 ≡ suc (counted (entry s key))
  pub entry-incr :
      (s : R.State) (key k : RedisKey)
      → entry (R.incr s key).1 k
        ≡ updated key
            (record { count = suc (counted (entry s key)); left = ttl_of (entry s key) })
            (entry s)
            k
  pub entry-pexpire :
      (s : R.State) (key : RedisKey) (ttl : ℕ) (e : Entry) (k : RedisKey)
      → entry s key ≡ some e
      → entry (R.pexpire s key ttl) k
        ≡ updated key (record { count = e.count; left = some ttl }) (entry s) k
  pub entry-wait :
      (s : R.State) (d : ℕ) (k : RedisKey) → entry (R.wait s d) k ≡ elapse d (entry s k)

-- A run of the script: on a key, and how long after the run before it.
pub record Call : Type 0 where
  pub key : RedisKey
  pub pause : ℕ

unfoldable pub duration : List Call → ℕ
duration [] = 0
duration (x ∷ xs) = x.pause + duration xs

-- Calls counted without Redis: the number of a call among those on its key.
abbrev pub numbers : (RedisKey → ℕ) → List Call → List ℕ
numbers before [] = []
numbers before (x ∷ xs) =
    suc (before x.key) ∷ numbers (λ k. if same_key x.key k then suc (before k) else before k) xs

module _ (R : Commands) where
  -- The script, with a time to live: the count that it returns, and the state.
  unfoldable pub redis_counter_script : R.State → RedisKey → ℕ → ℕ × R.State
  redis_counter_script s key ttl =
      let (count, s') = R.incr s key in (count, if count == 1 then R.pexpire s' key ttl else s')

  -- What the calls return, one after the other, and the state after them.
  unfoldable pub run_all : ℕ → List Call → R.State → List ℕ × R.State
  run_all ttl [] s = ([], s)
  run_all ttl (x ∷ xs) s =
      let (count, s1) = redis_counter_script (R.wait s x.pause) x.key ttl in
      let (counts, s2) = run_all ttl xs s1 in (count ∷ counts, s2)
