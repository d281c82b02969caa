-- ===== src/Middleware/Counter.antt =====
-- internal/middleware/ratelimit_store.go: the two counter stores. Time is in nanoseconds.
use distributed_cloud_system.Base.{
  ℕ, suc, ◌+◌, ◌*◌, ◌/◌, String, Option, none, some, Bool, true, false, str_eq, if◌then◌else◌, ltb,
  leb,
}

-- `client`
pub record Client : Type 0 where
  pub count : ℕ
  pub reset_time : ℕ

-- `memoryCounterStore.clients`: the map from keys to clients.
abbrev pub Clients : Type 0
Clients = String → Option Client

unfoldable pub assign : String → Client → Clients → Clients
assign key c cs k = if str_eq key k then some c else cs k

abbrev pub has_expired : ℕ → Client → Bool
has_expired now c = ltb c.reset_time now

abbrev pub unexpired : ℕ → Option Client → Option Client
unexpired now none = none
unexpired now (some c) = if has_expired now c then none else some c

-- The clean-up of the background task, at a tick.
unfoldable pub sweep : ℕ → Clients → Clients
sweep now cs k = unexpired now (cs k)

abbrev pub fresh : ℕ → ℕ → Client
fresh now window = record { count = 1; reset_time = now + window }

abbrev pub allow_entry : Option Client → String → ℕ → ℕ → ℕ → Clients → Bool × Clients
allow_entry none key limit window now cs = (true, assign key (fresh now window) cs)
allow_entry (some c) key limit window now cs =
    if has_expired now c
    then (true, assign key (fresh now window) cs)
    else if leb limit c.count
    then (false, cs)
    else (true, assign key (record { count = suc c.count; reset_time = c.reset_time }) cs)

-- `memoryCounterStore.Allow`: the answer and the map.
unfoldable pub allow_in_memory : String → ℕ → ℕ → ℕ → Clients → Bool × Clients
allow_in_memory key limit window now cs = allow_entry (cs key) key limit window now cs

-- `ratelimit:<name>:<key>:<window index>`, by its parts. The names that the program gives are plain
-- words and the index is decimal, so that the text determines the parts.
pub record RedisKey : Type 0 where
  pub name : String
  pub key : String
  pub window_index : ℕ

-- What the counter needs of Redis: to run `redisCounterScript` on a key with a time to live in
-- milliseconds, which answers the count, or fails.
pub record Redis : Type 1 where
  pub State : Type 0
  pub run : State → RedisKey → ℕ → Option ℕ × State

abbrev pub redis_key : String → String → ℕ → ℕ → RedisKey
redis_key name key window now = record { name = name; key = key; window_index = now / window }

abbrev pub within : ℕ → Option ℕ → Option Bool
within limit none = none
within limit (some count) = some (leb count limit)

module _ (R : Redis) where
  -- `RedisCounterStore.Allow`; `none` is an error. The time to live is twice the window.
  unfoldable pub allow_in_redis : String → String → ℕ → ℕ → ℕ → R.State → Option Bool × R.State
  allow_in_redis name key limit window now s =
      let (count, s') = R.run s (redis_key name key window now) (window * 2 / 1_000_000) in
      (within limit count, s')
