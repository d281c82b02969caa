-- ===== src/Api/Strict.antt =====
-- How many requests of a client the strict routes serve.
use distributed_cloud_system.Base.{
  ℕ, suc, ◌+◌, ◌-◌, ◌/◌, ◌≤◌, ◌≡◌, refl, sym, subst, inl, inr, String, List, [], ◌∷◌, Bool, true,
  false, ◌&&◌, ◌||◌, not, arith, str_eq, str_eq_iff, leb, ◌==◌, ==_iff, Bool-cases,
}
use distributed_cloud_system.Middleware.Limiter.{verdict}
use distributed_cloud_system.Middleware.Shared.{Counts}
use distributed_cloud_system.Tracing.{with_trace_id, request_trace_id}
use distributed_cloud_system.Api as Api
use distributed_cloud_system.Api.{Packages, Request, Response, Server, HttpHandler}
use distributed_cloud_system.Api.Mux.{serve_http}
use distributed_cloud_system.Api.Paths.{to, serve-register, serve-login, serve-upload_file}
use distributed_cloud_system.Api.Routes.{
  strict_rl, Settings, on_verdict, client_of, strict_limiter, routes, tracing_middleware, api,
}
use distributed_cloud_system.Api.Growth.{
  counted, GivesGrowth, middleware_counted, register-Grows, login-Grows, upload_file-Grows,
  serve_http-Grows,
}

module _ (P : Packages) (c : Settings P) (C : Counts P.redis) (k : String) (w : ℕ) where
  abbrev one_if : Bool → ℕ
  one_if true = 1
  one_if false = 0

  abbrev pub is_refused : Response → Bool
  is_refused (Api.too_many_requests seconds) = true
  is_refused _ = false

  -- The requests that the strict limiter is for, from the client and in the window.
  abbrev pub is_attempt : Request → Bool
  is_attempt r =
      (str_eq r.method "POST"
        && (str_eq r.path "/api/v1/auth/register"
            || (str_eq r.path "/api/v1/auth/login" || str_eq r.path "/api/v1/files/upload")))
      && (str_eq (client_of P c r) k && (r.now / strict_rl.window == w))

  -- What is left of the limit pays for a request that is not refused.
  abbrev Pays : ℕ → Server P → Response × Server P → Type 0
  Pays n s x = n + (15 - counted P c C k w x.1) ≤ 15 - counted P c C k w s

  one_if_le : (b : Bool) → one_if b ≤ 1
  one_if_le true = omega arith
  one_if_le false = omega arith

  on_verdict-Pays :
      (b : Bool) (h : HttpHandler P) (id : String) (r : Request) (s s1 : Server P)
      → GivesGrowth P c C k w h
      → leb (suc (counted P c C k w s)) 15 ≡ b
      → counted P c C k w s1 ≡ suc (counted P c C k w s)
      → let x = on_verdict P (verdict strict_rl b) h id r s1 in
        Pays (one_if (not (is_refused x.0))) s x
  on_verdict-Pays true h id r s s1 g within grown =
      let more = g id r s1 in
      let one = one_if_le (not (is_refused (h id r s1).0)) in
      let le : suc (counted P c C k w s) ≤ 15 = ground (arith, within) in
      omega (arith, more, one, le, grown)
  on_verdict-Pays false h id r s s1 g within grown = omega (arith, grown)

  strict_limiter-Pays :
      (h : HttpHandler P) (id : String) (r : Request) (s : Server P)
      → GivesGrowth P c C k w h
      → client_of P c r ≡ k
      → r.now / strict_rl.window ≡ w
      → let x = strict_limiter P c h id r s in Pays (one_if (not (is_refused x.0))) s x
  unfolding strict_limiter
  strict_limiter-Pays h id r s g own here =
      let counts =
        middleware_counted P.redis C strict_rl "strict" (client_of P c r) r.now
          (record { redis = s.redis; local = s.strict }) refl in
      rw (counts, own, here) (on_verdict-Pays _ h id r s _ g refl (C.adds s.redis _ _))

  -- The answers to the requests of the client that are not refused, as the server handles one request
  -- after the other.
  unfoldable pub served : List Request → Server P → ℕ
  served [] s = 0
  served (r ∷ rs) s =
      let (trace, (response, s')) = api P c r s in
      one_if (is_attempt r && not (is_refused response)) + served rs s'

  -- An answer that is not refused is paid for.
  abbrev IsPaid : Request → Server P → Type 0
  IsPaid r s = let x = serve_http P (routes P c) "" r s in Pays (one_if (not (is_refused x.0))) s x

  at_path :
      (path : String) (r : Request) (s : Server P)
      → str_eq r.method "POST" ≡ true
      → str_eq r.path path ≡ true
      → IsPaid (to "POST" path r) s
      → IsPaid r s
  at_path path r s posts here paid =
      let methods = sym ((str_eq_iff r.method "POST").0 posts) in
      let paths = sym ((str_eq_iff r.path path).0 here) in
      subst (λ (q : Request). IsPaid q s) (λ i. record r { method = methods i; path = paths i })
        paid

  serve_http-IsPaid :
      (r : Request) (s : Server P)
      → str_eq r.method "POST" ≡ true
      → (str_eq r.path "/api/v1/auth/register"
          || (str_eq r.path "/api/v1/auth/login" || str_eq r.path "/api/v1/files/upload"))
        ≡ true
      → client_of P c r ≡ k
      → r.now / strict_rl.window ≡ w
      → IsPaid r s
  serve_http-IsPaid r s posts strict own here =
      elim (Bool-cases (str_eq r.path "/api/v1/auth/register")) [
        | inl first ↦ at_path "/api/v1/auth/register" r s posts first (
            rw (serve-register P c r s)
              (strict_limiter-Pays _ "" _ s (register-Grows P c C k w) own here))
        | inr not_first ↦ elim (Bool-cases (str_eq r.path "/api/v1/auth/login")) [
          | inl other ↦ at_path "/api/v1/auth/login" r s posts other (
              rw (serve-login P c r s)
                (strict_limiter-Pays _ "" _ s (login-Grows P c C k w) own here))
          | inr not_second ↦
              at_path "/api/v1/files/upload" r s posts (ground (arith, not_first, not_second)) (
                rw (serve-upload_file P c r s)
                  (strict_limiter-Pays _ "" _ s (upload_file-Grows P c C k w) own here))
        ]
      ]

  serve_http-Pays :
      (r : Request) (s : Server P)
      → let x = serve_http P (routes P c) "" r s in
        Pays (one_if (is_attempt r && not (is_refused x.0))) s x
  serve_http-Pays r s = elim (Bool-cases (is_attempt r)) [
    | inl attempt ↦
        let own = (str_eq_iff (client_of P c r) k).0 (ground (arith, attempt)) in
        let here = (==_iff (r.now / strict_rl.window) w).0 (ground (arith, attempt)) in
        rw attempt
          (serve_http-IsPaid r s (ground (arith, attempt)) (ground (arith, attempt)) own here)
    | inr other ↦ let grown = (serve_http-Grows P c C k w) "" r s in rw other (omega (arith, grown))
  ]

  -- While Redis answers and counts: of all requests that a client makes to register, to log in or to
  -- upload within one window of a minute, the server lets through 15 at most, and those that the
  -- window has left, whatever other requests come between them.
  pub served_bound : (rs : List Request) (s : Server P) → served rs s ≤ 15 - counted P c C k w s
  unfolding served api tracing_middleware
  served_bound [] s = omega arith
  served_bound (r ∷ rs) s =
      let q = record r {
        context = with_trace_id r.context (request_trace_id r.request_id r.random);
      } in
      let x = serve_http P (routes P c) "" q s in
      let paid = serve_http-Pays q s in let rest = served_bound rs x.1 in omega (arith, paid, rest)
