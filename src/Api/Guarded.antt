-- ===== src/Api/Guarded.antt =====
-- Which requests reach the files and the folders: those with a token, and no others.
use distributed_cloud_system.Base.{ℕ, ◌/◌, ◌≡◌, refl, ◌⊎◌, inl, inr, String, All, Bool, true, false}
use distributed_cloud_system.Auth.Tokens.{Access, unauthorized, next, authorize}
use distributed_cloud_system.Middleware.Limiter.{Verdict, serve, too_many_requests}
use distributed_cloud_system.Api.{Packages, Request, Response, metadata, file, Server, HttpHandler}
use distributed_cloud_system.Api.Readiness.{ready}
use distributed_cloud_system.Api.Every.{Gives, serve_http-Gives}
use distributed_cloud_system.Api.Mux.{Route, method_not_allowed_or_not_found}
use distributed_cloud_system.Api.Routes.{
  second, Settings, register, login, create_folder, list_directory, delete_folder, search_files,
  upload_file, download_file, delete_file, max_body_bytes, auth_middleware, on_access, on_verdict,
  general_limiter, strict_limiter, routes, tracing_middleware, api,
}

module _ (P : Packages) (c : Settings P) where
  -- An answer that is not of the handlers for files and folders.
  abbrev pub IsOpen : Response → Type 0
  IsOpen (metadata _) = ⊥
  IsOpen (file _) = ⊥
  IsOpen _ = Unit

  -- Nothing of files and folders was read or changed, or the token is a user's and no account was
  -- touched.
  abbrev pub Served : Request → Server P → Response × Server P → Type 0
  Served r s x =
      (IsOpen x.0 × (x.1.world ≡ s.world))
      ⊎ ((user : String) × (authorize P.jwt c.secret (r.now / second) r.authorization ≡ next user)
          × (x.1.accounts ≡ s.accounts))

  abbrev Serves : HttpHandler P → Type 0
  Serves = Gives P Served

  abbrev KeepsAccounts : HttpHandler P → Type 0
  KeepsAccounts h = (id : String) (r : Request) (s : Server P) → (h id r s).1.accounts ≡ s.accounts

  register-Serves : Serves (register P)
  unfolding register
  register-Serves id r s = inl (tt, refl)

  login-Serves : Serves (login P c.secret)
  unfolding login
  login-Serves id r s = inl (tt, refl)

  ready-Serves : Serves (ready P)
  unfolding ready
  ready-Serves id r s = inl (tt, refl)

  max_body_bytes-Serves : (n : ℕ) (h : HttpHandler P) → Serves h → Serves (max_body_bytes P n h)
  unfolding max_body_bytes
  max_body_bytes-Serves n h k id r s = k id (record r { body = _ }) s

  auth_middleware-Serves :
      (h : HttpHandler P) → KeepsAccounts h → Serves (auth_middleware P c.secret h)
  unfolding auth_middleware
  auth_middleware-Serves h k id r s =
      go (authorize P.jwt c.secret (r.now / second) r.authorization) refl
    where
      go :
          (a : Access)
          → authorize P.jwt c.secret (r.now / second) r.authorization ≡ a
          → Served r s (on_access P a h id r s)
      go (unauthorized message) e = inl (tt, refl)
      go (next user) e = inr (user, e, k id _ s)

  on_verdict-Serves :
      (v : Verdict) (h : HttpHandler P) (id : String) (r : Request) (s : Server P)
      → Served r s (h id r s)
      → Served r s (on_verdict P v h id r s)
  on_verdict-Serves serve h id r s k = k
  on_verdict-Serves (too_many_requests seconds) h id r s k = inl (tt, refl)

  general_limiter-Serves : (h : HttpHandler P) → Serves h → Serves (general_limiter P c h)
  unfolding general_limiter
  general_limiter-Serves h k id r s =
      on_verdict-Serves _ h id r (record s { general = _; redis = _ }) (k id r _)

  strict_limiter-Serves : (h : HttpHandler P) → Serves h → Serves (strict_limiter P c h)
  unfolding strict_limiter
  strict_limiter-Serves h k id r s =
      on_verdict-Serves _ h id r (record s { strict = _; redis = _ }) (k id r _)

  protected :
      (h : HttpHandler P)
      → KeepsAccounts h
      → Serves (general_limiter P c (auth_middleware P c.secret h))
  protected h k = general_limiter-Serves _ (auth_middleware-Serves h k)

  routes-Serves : All (λ (x : Route P). Serves x.handler) (routes P c)
  unfolding routes register login ready max_body_bytes create_folder list_directory delete_folder
      search_files upload_file download_file delete_file
  routes-Serves = (
    strict_limiter-Serves _ (max_body_bytes-Serves _ (register P) register-Serves),
    (
      strict_limiter-Serves _ (max_body_bytes-Serves _ (login P c.secret) login-Serves),
      (
        protected (max_body_bytes P _ (create_folder P)) (λ id r s. refl),
        (
          protected (list_directory P) (λ id r s. refl),
          (
            protected (delete_folder P) (λ id r s. refl),
            (
              protected (search_files P) (λ id r s. refl),
              (
                strict_limiter-Serves _ (auth_middleware-Serves (upload_file P) (λ id r s. refl)),
                (
                  protected (download_file P) (λ id r s. refl),
                  (
                    protected (delete_file P) (λ id r s. refl),
                    ((λ id r s. inl (tt, refl)), (ready-Serves, tt)),
                  ),
                ),
              ),
            ),
          ),
        ),
      ),
    ),
  )

  missing :
      (known : Bool) (r : Request) (s : Server P)
      → Served r s (method_not_allowed_or_not_found known, s)
  missing true r s = inl (tt, refl)
  missing false r s = inl (tt, refl)

  -- Whatever a request says and whatever fails: the files, the folders, the bucket and the events are
  -- what they were and nothing of them is answered, or the request has a token that is valid for a
  -- user, and no account is touched.
  pub api-Served : (r : Request) (s : Server P) → Served r s (api P c r s).1
  unfolding api tracing_middleware
  api-Served r s =
      serve_http-Gives P Served missing (λ r1 s1. inl (tt, refl)) (routes P c) routes-Serves "" _ s
