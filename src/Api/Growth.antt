-- ===== src/Api/Growth.antt =====
-- The counters of the strict limiter in Redis only grow, whatever the server is asked for.
use distributed_cloud_system.Base.{
  ℕ, suc, ◌*◌, ◌/◌, ◌≤◌, ◌≡◌, refl, subst, inl, inr, String, some, All, arith, leb, Bool-cases,
}
use distributed_cloud_system.Auth.Tokens.{Access, unauthorized, next, authorize}
use distributed_cloud_system.Middleware.Counter.{Redis, RedisKey, redis_key, allow_in_redis}
use distributed_cloud_system.Middleware.Limiter.{
  RateLimiter, State, Verdict, serve, too_many_requests, middleware, allow, verdict,
}
use distributed_cloud_system.Middleware.Shared.{Counts, same_key, same_key_sound, same_key-eq}
use distributed_cloud_system.Api.{Packages, Request, Response, Server, HttpHandler}
use distributed_cloud_system.Middleware.BodyLimit.{default_max_body_bytes}
use distributed_cloud_system.Api.Mux.{Route, serve_http}
use distributed_cloud_system.Api.Readiness.{ready}
use distributed_cloud_system.Api.Every.{Gives, serve_http-Gives}
use distributed_cloud_system.Api.Routes.{
  second, strict_rl, general_rl, Settings, register, login, create_folder, list_directory,
  delete_folder, search_files, upload_file, download_file, delete_file, max_body_bytes,
  auth_middleware, on_access, on_verdict, client_of, general_limiter, strict_limiter, routes,
}

-- Counts only grow.
pub run_mono :
    (R : Redis) (C : Counts R) (s : R.State) (key other : RedisKey) (ttl : ℕ)
    → C.count_of s other ≤ C.count_of (R.run s key ttl).1 other
run_mono R C s key other ttl = elim (Bool-cases (same_key key other)) [
  | inl same ↦
      let e = same_key_sound key other same in
      let adds : C.count_of (R.run s key ttl).1 other ≡ suc (C.count_of s other) =
        subst (λ (k : RedisKey). C.count_of (R.run s key ttl).1 k ≡ suc (C.count_of s k)) e
          (C.adds s key ttl) in
      omega (arith, adds)
  | inr different ↦
      let same =
        C.leaves s key other ttl (λ e. ground (arith, different, same_key-eq key other e)) in
      omega (arith, same)
]

-- A limiter while Redis answers.
pub middleware_counted :
    (R : Redis) (C : Counts R) (rl : RateLimiter) (name key : String) (now : ℕ) (s : State R)
    → rl.shared ≡ some name
    → middleware R rl key now s ≡ (
      verdict rl (leb (suc (C.count_of s.redis (redis_key name key rl.window now))) rl.limit),
      record {
        redis = (R.run s.redis (redis_key name key rl.window now) (rl.window * 2 / 1_000_000)).1;
        local = s.local;
      },
    )
unfolding middleware allow allow_in_redis
middleware_counted R C rl name key now s shared =
    rw (shared, C.answers s.redis (redis_key name key rl.window now) (rl.window * 2 / 1_000_000))
      refl

module _ (P : Packages) (c : Settings P) (C : Counts P.redis) (k : String) (w : ℕ) where
  -- What Redis has counted of a client at the strict routes in a window.
  abbrev pub counted : Server P → ℕ
  counted s = C.count_of s.redis (record { name = "strict"; key = k; window_index = w })

  abbrev pub Grows : Request → Server P → Response × Server P → Type 0
  Grows r s x = counted s ≤ counted x.1

  abbrev pub GivesGrowth : HttpHandler P → Type 0
  GivesGrowth = Gives P Grows

  auth_middleware-Grows :
      (h : HttpHandler P) → GivesGrowth h → GivesGrowth (auth_middleware P c.secret h)
  unfolding auth_middleware
  auth_middleware-Grows h g id r s = go (authorize P.jwt c.secret (r.now / second) r.authorization)
    where
      go : (a : Access) → Grows r s (on_access P a h id r s)
      go (unauthorized message) = omega arith
      go (next user) = g id _ s

  on_verdict-Grows :
      (v : Verdict) (h : HttpHandler P) (id : String) (r : Request) (s s1 : Server P)
      → GivesGrowth h
      → counted s ≤ counted s1
      → Grows r s (on_verdict P v h id r s1)
  on_verdict-Grows serve h id r s s1 g le = let more = g id r s1 in omega (arith, le, more)
  on_verdict-Grows (too_many_requests seconds) h id r s s1 g le = le

  general_limiter-Grows : (h : HttpHandler P) → GivesGrowth h → GivesGrowth (general_limiter P c h)
  unfolding general_limiter
  general_limiter-Grows h g id r s =
      rw
        (middleware_counted P.redis C general_rl "general" (client_of P c r) r.now
          (record { redis = s.redis; local = s.general }) refl)
        (on_verdict-Grows _ h id r s _ g (run_mono P.redis C s.redis _ _ _))

  strict_limiter-Grows : (h : HttpHandler P) → GivesGrowth h → GivesGrowth (strict_limiter P c h)
  unfolding strict_limiter
  strict_limiter-Grows h g id r s =
      rw
        (middleware_counted P.redis C strict_rl "strict" (client_of P c r) r.now
          (record { redis = s.redis; local = s.strict }) refl)
        (on_verdict-Grows _ h id r s _ g (run_mono P.redis C s.redis _ _ _))

  protected-Grows :
      (h : HttpHandler P)
      → GivesGrowth h
      → GivesGrowth (general_limiter P c (auth_middleware P c.secret h))
  protected-Grows h g = general_limiter-Grows _ (auth_middleware-Grows h g)

  pub register-Grows : GivesGrowth (max_body_bytes P default_max_body_bytes (register P))
  unfolding max_body_bytes register
  register-Grows id r s = omega arith

  pub login-Grows : GivesGrowth (max_body_bytes P default_max_body_bytes (login P c.secret))
  unfolding max_body_bytes login
  login-Grows id r s = omega arith

  pub upload_file-Grows : GivesGrowth (auth_middleware P c.secret (upload_file P))
  unfolding upload_file
  upload_file-Grows = auth_middleware-Grows (upload_file P) (λ id r s. omega arith)

  routes-Grows : All (λ (x : Route P). GivesGrowth x.handler) (routes P c)
  unfolding routes max_body_bytes create_folder list_directory delete_folder search_files
      download_file delete_file ready
  routes-Grows = (
    strict_limiter-Grows _ register-Grows,
    (
      strict_limiter-Grows _ login-Grows,
      (
        protected-Grows (max_body_bytes P default_max_body_bytes (create_folder P))
            (λ id r s. omega arith),
        (
          protected-Grows (list_directory P) (λ id r s. omega arith),
          (
            protected-Grows (delete_folder P) (λ id r s. omega arith),
            (
              protected-Grows (search_files P) (λ id r s. omega arith),
              (
                strict_limiter-Grows _ upload_file-Grows,
                (
                  protected-Grows (download_file P) (λ id r s. omega arith),
                  (
                    protected-Grows (delete_file P) (λ id r s. omega arith),
                    ((λ id r s. omega arith), ((λ id r s. omega arith), tt)),
                  ),
                ),
              ),
            ),
          ),
        ),
      ),
    ),
  )

  pub serve_http-Grows : GivesGrowth (serve_http P (routes P c))
  serve_http-Grows =
      serve_http-Gives P Grows (λ known r s. omega arith) (λ r s. omega arith) (routes P c)
        routes-Grows
