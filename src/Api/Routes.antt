-- ===== src/Api/Routes.antt =====
-- The middlewares, the handlers and the route table of `main`.
use distributed_cloud_system.Base.{
  ℕ, ◌*◌, ◌/◌, ◌^◌, String, Option, none, some, List, [], ◌∷◌, true, str_eq, if◌then◌else◌,
}
use distributed_cloud_system.Tracing.{with_trace_id, request_trace_id}
use distributed_cloud_system.Middleware.BodyLimit.{
  max_bytes_reader, read_body, default_max_body_bytes,
}
use distributed_cloud_system.Middleware.ClientIp.{client_ip}
use distributed_cloud_system.Middleware.Limiter.{
  RateLimiter, Verdict, serve, too_many_requests, middleware,
}
use distributed_cloud_system.Auth.Tokens.{Access, unauthorized, next, authorize}
use distributed_cloud_system.Auth.Users.{Accounts}
use distributed_cloud_system.Auth.Handler as AuthHandler
use distributed_cloud_system.Metadata.Handler as MetadataHandler
use distributed_cloud_system.Storage.Handler as StorageHandler
use distributed_cloud_system.Storage.World.{World}
use distributed_cloud_system.Api as Api
use distributed_cloud_system.Api.{
  Packages, Request, Response, error, healthy, readiness, account, metadata, file, Server,
  HttpHandler,
}
use distributed_cloud_system.Api.Readiness.{ready}
use distributed_cloud_system.Api.Mux.{Route, serve_http}

abbrev pub second : ℕ
second = 10 ^ 9

-- The two limiters, with the names of their counters in Redis.
abbrev pub general_rl : RateLimiter
general_rl = record { limit = 60; window = 60 * second; shared = some "general" }

abbrev pub strict_rl : RateLimiter
strict_rl = record { limit = 15; window = 60 * second; shared = some "strict" }

module _ (P : Packages) where
  -- What `main` passes to the middlewares and the handlers: the signing key and the trusted proxies.
  pub record Settings : Type 0 where
    pub secret : String
    pub proxies : List P.net.Block

  -- `r.Context().Value(UserIDKey)`, where no value and "" are the same to the handlers.
  abbrev pub user_of : Option String → Option ℕ
  user_of none = none
  user_of (some u) = if str_eq u "" then none else some (P.number u)

  abbrev pub id_of : String → Option ℕ
  id_of id = if str_eq id "" then none else some (P.number id)

  -- The handlers, each on its part of the state.
  abbrev with_accounts : AuthHandler.Response × Accounts → Server P → Response × Server P
  with_accounts (a, x) s = (account a, record s { accounts = x })

  abbrev with_metadata : MetadataHandler.Response × World → Server P → Response × Server P
  with_metadata (a, w) s = (metadata a, record s { world = w })

  abbrev pub with_file : StorageHandler.Response × World → Server P → Response × Server P
  with_file (a, w) s = (file a, record s { world = w })

  unfoldable pub register : HttpHandler P
  register id r s =
      with_accounts
        (AuthHandler.handle_register P.bcrypt r.salt (P.decode_auth (read_body r.body)) s.accounts)
        s

  unfoldable pub login : String → HttpHandler P
  login secret id r s =
      with_accounts
        (AuthHandler.handle_login P.bcrypt P.jwt secret (r.now / second)
          (P.decode_auth (read_body r.body)) s.accounts)
        s

  unfoldable pub create_folder : HttpHandler P
  create_folder id r s =
      with_metadata
        (MetadataHandler.handle_create_folder (user_of r.context.user_id)
          (P.decode_folder (read_body r.body)) s.world)
        s

  unfoldable pub list_directory : HttpHandler P
  list_directory id r s =
      with_metadata
        (MetadataHandler.handle_list_directory (user_of r.context.user_id) (id_of r.folder_id)
          s.world)
        s

  unfoldable pub delete_folder : HttpHandler P
  delete_folder id r s =
      with_metadata
        (MetadataHandler.handle_delete_folder (user_of r.context.user_id) (id_of id) s.world) s

  unfoldable pub search_files : HttpHandler P
  search_files id r s =
      with_metadata
        (MetadataHandler.handle_search_files P.fold P.jsonb (user_of r.context.user_id) r.search
          s.world)
        s

  unfoldable pub upload_file : HttpHandler P
  upload_file id r s =
      with_file
        (StorageHandler.handle_upload P.sha P.detect_content_type true (user_of r.context.user_id)
          (P.parse_form (read_body (max_bytes_reader (100 * 2 ^ 20) r.body))) s.world)
        s

  unfoldable pub download_file : HttpHandler P
  download_file id r s =
      with_file
        (StorageHandler.handle_download P.sha (user_of r.context.user_id) (id_of id) s.world) s

  unfoldable pub delete_file : HttpHandler P
  delete_file id r s =
      with_file (StorageHandler.handle_delete (user_of r.context.user_id) (id_of id) s.world) s

  -- `MaxBodyBytes`
  unfoldable pub max_body_bytes : ℕ → HttpHandler P → HttpHandler P
  max_body_bytes limit handler id r s =
      handler id (record r { body = max_bytes_reader limit r.body }) s

  abbrev pub json_body_limit : HttpHandler P → HttpHandler P
  json_body_limit = max_body_bytes default_max_body_bytes

  abbrev pub on_access : Access → HttpHandler P → HttpHandler P
  on_access (unauthorized message) handler id r s = (error 401 message, s)
  on_access (next user) handler id r s =
      handler id (record r { context = record r.context { user_id = some user } }) s

  -- `AuthMiddleware`
  unfoldable pub auth_middleware : String → HttpHandler P → HttpHandler P
  auth_middleware secret handler id r s =
      on_access (authorize P.jwt secret (r.now / second) r.authorization) handler id r s

  abbrev pub on_verdict : Verdict → HttpHandler P → HttpHandler P
  on_verdict serve handler id r s = handler id r s
  on_verdict (too_many_requests seconds) handler id r s = (Api.too_many_requests seconds, s)

  module _ (c : Settings) where
    abbrev pub client_of : Request → String
    client_of r = client_ip P.net (some c.proxies) r.peer

    unfoldable pub general_limiter : HttpHandler P → HttpHandler P
    general_limiter handler id r s =
        let (v, l) =
          middleware P.redis general_rl (client_of r) r.now
            (record { redis = s.redis; local = s.general }) in
        on_verdict v handler id r (record s { redis = l.redis; general = l.local })

    unfoldable pub strict_limiter : HttpHandler P → HttpHandler P
    strict_limiter handler id r s =
        let (v, l) =
          middleware P.redis strict_rl (client_of r) r.now
            (record { redis = s.redis; local = s.strict }) in
        on_verdict v handler id r (record s { redis = l.redis; strict = l.local })

    abbrev auth_mw : HttpHandler P → HttpHandler P
    auth_mw = auth_middleware c.secret

    -- The route table.
    unfoldable pub routes : List (Route P)
    routes =
        route "POST" "/api/v1/auth/register" (strict_limiter (json_body_limit register))
        ∷ route "POST" "/api/v1/auth/login" (strict_limiter (json_body_limit (login c.secret)))
        ∷ route "POST" "/api/v1/folders" (general_limiter (auth_mw (json_body_limit create_folder)))
        ∷ route "GET" "/api/v1/directory" (general_limiter (auth_mw list_directory))
        ∷ route "DELETE" "/api/v1/folders/{id}" (general_limiter (auth_mw delete_folder))
        ∷ route "GET" "/api/v1/search" (general_limiter (auth_mw search_files))
        ∷ route "POST" "/api/v1/files/upload" (strict_limiter (auth_mw upload_file))
        ∷ route "GET" "/api/v1/files/{id}/download" (general_limiter (auth_mw download_file))
        ∷ route "DELETE" "/api/v1/files/{id}" (general_limiter (auth_mw delete_file))
        ∷ route "GET" "/health" (λ id r s. (healthy, s))
        ∷ route "GET" "/health/ready" (ready P)
        ∷ []
      where
        route : String → String → HttpHandler P → Route P
        route method pattern handler = record {
          method = method;
          pattern = pattern;
          handler = handler;
        }

    -- `tracing.Middleware`: the header X-Request-ID of the answer, and the answer.
    unfoldable pub tracing_middleware :
        HttpHandler P → Request → Server P → String × (Response × Server P)
    tracing_middleware handler r s =
        let trace = request_trace_id r.request_id r.random in
        (trace, handler "" (record r { context = with_trace_id r.context trace }) s)

    -- The handler of the server.
    unfoldable pub api : Request → Server P → String × (Response × Server P)
    unfolding serve_http
    api r s = tracing_middleware (serve_http P routes) r s
