-- ===== src/Api/Paths.antt =====
-- Where the route table leads.
use distributed_cloud_system.Base.{
  ◌≡◌, refl, String, [], ◌∷◌, false, ◌||◌, str_eq, split, Bool-cases, inl, inr,
}
use distributed_cloud_system.Api.{Packages, Request, Response, Server}
use distributed_cloud_system.Api.Mux.{serve_http}
use distributed_cloud_system.Api.Routes.{
  Settings, register, login, upload_file, download_file, json_body_limit, auth_middleware,
  general_limiter, strict_limiter, routes,
}

abbrev pub to : String → String → Request → Request
to method path r = record r { method = method; path = path }

module _ (P : Packages) (c : Settings P) (r : Request) (s : Server P) where
  abbrev serve : String → String → Response × Server P
  serve method path = serve_http P (routes P c) "" (to method path r) s

  pub serve-register :
      serve "POST" "/api/v1/auth/register"
      ≡ strict_limiter P c
          (json_body_limit P (register P))
          ""
          (to "POST" "/api/v1/auth/register" r)
          s
  unfolding serve_http routes split
  serve-register = refl

  pub serve-login :
      serve "POST" "/api/v1/auth/login"
      ≡ strict_limiter P c
          (json_body_limit P (login P c.secret))
          ""
          (to "POST" "/api/v1/auth/login" r)
          s
  unfolding serve_http routes split
  serve-login = refl

  pub serve-upload_file :
      serve "POST" "/api/v1/files/upload"
      ≡ strict_limiter P c
          (auth_middleware P c.secret (upload_file P))
          ""
          (to "POST" "/api/v1/files/upload" r)
          s
  unfolding serve_http routes split
  serve-upload_file = refl

  pub serve-download_file :
      (path id : String)
      → split b'/' path ≡ "" ∷ "api" ∷ "v1" ∷ "files" ∷ id ∷ "download" ∷ []
      → str_eq id "" ≡ false
      → (str_eq id "." || str_eq id "..") ≡ false
      → serve "GET" path
        ≡ general_limiter P c (auth_middleware P c.secret (download_file P)) id (to "GET" path r) s
  unfolding serve_http routes split
  serve-download_file path id parts full plain = elim (Bool-cases (str_eq "upload" id)) [
    | inl same ↦ rw (parts, full, plain, same, full) refl
    | inr other ↦ rw (parts, full, plain, other, full) refl
  ]
