-- ===== src/Middleware/Limiter.antt =====
-- internal/middleware/ratelimit.go: the shared counter with the local one behind it.
use distributed_cloud_system.Base.{ℕ, ◌/◌, String, Option, none, some, Bool, true, false}
use distributed_cloud_system.Middleware.Counter.{Clients, allow_in_memory, Redis, allow_in_redis}

-- `RateLimiter`. `shared` is the name of the Redis store, if one is installed; the proxies are an
-- argument of `client_ip`.
pub record RateLimiter : Type 0 where
  pub limit : ℕ
  pub window : ℕ
  pub shared : Option String

module _ (R : Redis) where
  -- What a limiter works on: Redis, and the clients of its own process.
  pub record State : Type 0 where
    pub redis : R.State
    pub local : Clients

  unfoldable pub allow_locally : RateLimiter → String → ℕ → State → Bool × State
  allow_locally rl key now s =
      let (allowed, cs) = allow_in_memory key rl.limit rl.window now s.local in
      (allowed, record { redis = s.redis; local = cs })

  abbrev pub or_locally : Option Bool → RateLimiter → String → ℕ → State → Bool × State
  or_locally (some allowed) rl key now s = (allowed, s)
  or_locally none rl key now s = allow_locally rl key now s

  abbrev pub allow_shared : Option String → RateLimiter → String → ℕ → State → Bool × State
  allow_shared none rl key now s = allow_locally rl key now s
  allow_shared (some name) rl key now s =
      let (answer, r) = allow_in_redis R name key rl.limit rl.window now s.redis in
      or_locally answer rl key now (record { redis = r; local = s.local })

  -- `RateLimiter.allow`
  unfoldable pub allow : RateLimiter → String → ℕ → State → Bool × State
  allow rl key now s = allow_shared rl.shared rl key now s

-- What `Middleware` answers: the next handler's turn, or 429 with `Retry-After` in seconds.
pub data Verdict : Type 0 where
  serve : Verdict
  too_many_requests : ℕ → Verdict

abbrev pub verdict : RateLimiter → Bool → Verdict
verdict rl true = serve
verdict rl false = too_many_requests (rl.window / 1_000_000_000)

-- `RateLimiter.Middleware`, for a request whose `ClientIP` is `key`.
unfoldable pub middleware : (R : Redis) → RateLimiter → String → ℕ → State R → Verdict × State R
middleware R rl key now s = let (allowed, s') = allow R rl key now s in (verdict rl allowed, s')
