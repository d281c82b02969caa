-- ===== src/Api/Session.antt =====
-- From a registration to a download, through the server.
use distributed_cloud_system.Base.{
  ℕ, ◌*◌, ◌^◌, ◌/◌, ◌≡◌, refl, sym, ap, ◌∙◌, ◌⊎◌, inl, inr, String, Option, none, some, List, [],
  ◌∷◌, true, false, ◌||◌, arith, str_eq, split, Bool-cases,
}
use distributed_cloud_system.Storage.Action.{ok}
use distributed_cloud_system.Storage.Service.{Stream}
use distributed_cloud_system.Storage.Handler as StorageHandler
use distributed_cloud_system.Storage.Handler.{form}
use distributed_cloud_system.Auth.Tokens.{Claims, checked, bearer, next, authorize}
use distributed_cloud_system.Middleware.Limiter.{Verdict, serve, too_many_requests}
use distributed_cloud_system.Middleware.BodyLimit.{max_bytes_reader, read_body}
use distributed_cloud_system.Storage.Proofs.Stored.{IsSound}
use distributed_cloud_system.Storage.Proofs.Step.{IsCollisionFree}
use distributed_cloud_system.Storage.Proofs.Download.{calm}
use distributed_cloud_system.Storage.Handler.Served.{handle_download-handle_upload}
use distributed_cloud_system.Tracing.{with_trace_id, request_trace_id}
use distributed_cloud_system.Api as Api
use distributed_cloud_system.Api.{
  Packages, Request, Response, error, account, file, Server, HttpHandler,
}
use distributed_cloud_system.Api.Routes.{
  second, Settings, with_file, upload_file, download_file, auth_middleware, on_verdict,
  general_limiter, strict_limiter, routes, tracing_middleware, api,
}
use distributed_cloud_system.Api.Mux.{serve_http}
use distributed_cloud_system.Api.Paths.{to, serve-upload_file, serve-download_file}

module _ (P : Packages) (c : Settings P) where
  -- Where a limiter leads: to its refusal, or to the handler, in a state with the same accounts and
  -- files.
  abbrev pub Passes : HttpHandler P → String → Request → Server P → Response × Server P → Type 0
  Passes h id r s x =
      ((seconds : ℕ) × (x.0 ≡ Api.too_many_requests seconds))
      ⊎ ((s1 : Server P) × (s1.accounts ≡ s.accounts) × (s1.world ≡ s.world) × (x ≡ h id r s1))

  on_verdict-Passes :
      (v : Verdict) (h : HttpHandler P) (id : String) (r : Request) (s s1 : Server P)
      → s1.accounts ≡ s.accounts
      → s1.world ≡ s.world
      → Passes h id r s (on_verdict P v h id r s1)
  on_verdict-Passes serve h id r s s1 a w = inr (s1, a, w, refl)
  on_verdict-Passes (too_many_requests seconds) h id r s s1 a w = inl (seconds, refl)

  pub strict_limiter-Passes :
      (h : HttpHandler P) (id : String) (r : Request) (s : Server P)
      → Passes h id r s (strict_limiter P c h id r s)
  unfolding strict_limiter
  strict_limiter-Passes h id r s = on_verdict-Passes _ h id r s _ refl refl

  pub general_limiter-Passes :
      (h : HttpHandler P) (id : String) (r : Request) (s : Server P)
      → Passes h id r s (general_limiter P c h id r s)
  unfolding general_limiter
  general_limiter-Passes h id r s = on_verdict-Passes _ h id r s _ refl refl

  checked_full :
      (o : Option Claims) (user : String) → checked P.jwt o ≡ next user → str_eq user "" ≡ false
  checked_full none user e = ground arith
  checked_full (some claims) user e = elim (Bool-cases (str_eq claims.subject "")) [
    | inl empty ↦ ground (arith, empty)
    | inr full ↦ let same : claims.subject ≡ user = ground (arith, full) in rw (← same) full
  ]

  bearer_full :
      (now : ℕ) (parts : List String) (user : String)
      → bearer P.jwt c.secret now parts ≡ next user
      → str_eq user "" ≡ false
  bearer_full now [] user e = ground arith
  bearer_full now (scheme ∷ []) user e = ground arith
  bearer_full now (scheme ∷ token ∷ []) user e = elim (Bool-cases (str_eq scheme "Bearer")) [
    | inl same ↦ checked_full (P.jwt.parse c.secret now token) user (rw same at e)
    | inr other ↦ ground (arith, other)
  ]
  bearer_full now (a ∷ b ∷ d ∷ ds) user e = ground arith

  -- A request is let through for a user with an id only.
  pub authorize_full :
      (now : ℕ) (header user : String)
      → authorize P.jwt c.secret now header ≡ next user
      → str_eq user "" ≡ false
  unfolding authorize
  authorize_full now header user e = elim (Bool-cases (str_eq header "")) [
    | inl empty ↦ ground (arith, empty)
    | inr full ↦ bearer_full now (split b' ' header) user (rw full at e)
  ]

  abbrev form_of : Request → StorageHandler.Form
  form_of r = P.parse_form (read_body (max_bytes_reader (100 * 2 ^ 20) r.body))

  -- What the handlers for files do for a user.
  auth_middleware-upload_file :
      (id user : String) (r : Request) (s : Server P)
      → authorize P.jwt c.secret (r.now / second) r.authorization ≡ next user
      → auth_middleware P c.secret (upload_file P) id r s
        ≡ with_file P
            (StorageHandler.handle_upload P.sha P.detect_content_type true
              (some (P.number user))
              (form_of r)
              s.world)
            s
  unfolding auth_middleware upload_file
  auth_middleware-upload_file id user r s allowed =
      let full = authorize_full (r.now / second) r.authorization user allowed in
      rw (allowed, full) refl

  auth_middleware-download_file :
      (id user : String) (r : Request) (s : Server P)
      → authorize P.jwt c.secret (r.now / second) r.authorization ≡ next user
      → str_eq id "" ≡ false
      → auth_middleware P c.secret (download_file P) id r s
        ≡ with_file P
            (StorageHandler.handle_download P.sha
              (some (P.number user))
              (some (P.number id))
              s.world)
            s
  unfolding auth_middleware download_file
  auth_middleware-download_file id user r s allowed named =
      let full = authorize_full (r.now / second) r.authorization user allowed in
      rw (allowed, full, named) refl

  same_file :
      (a : StorageHandler.Response) (b : StorageHandler.Response)
      → Path Response (file a) (file b)
      → a ≡ b
  same_file a b e = cc

  -- What an upload that was answered with an id has done.
  uploaded :
      (r : Request) (s : Server P) (user : String) (id : ℕ) (x : Response × Server P)
      → authorize P.jwt c.secret (r.now / second) r.authorization ≡ next user
      → Passes (auth_middleware P c.secret (upload_file P)) "" r s x
      → x.0 ≡ file (StorageHandler.created id)
      → StorageHandler.handle_upload P.sha P.detect_content_type true
          (some (P.number user))
          (form_of r)
          s.world
        ≡ (StorageHandler.created id, x.1.world)
  uploaded r s user id x allowed (inl (seconds, e)) done = ground (arith, e)
  uploaded r s user id x allowed (inr (s1, a, w, e)) done =
      let q = e ∙ auth_middleware-upload_file "" user r s1 allowed in
      let first = same_file _ _ (sym (ap (λ (y : Response × Server P). y.0) q) ∙ done) in
      let last = sym (ap (λ (y : Response × Server P). y.1.world) q) in
      let answer : StorageHandler.handle_upload P.sha P.detect_content_type true
            (some (P.number user)) (form_of r) s1.world
          ≡ (StorageHandler.created id, x.1.world) =
        λ i. (first i, last i) in
      rw w at answer

  -- What a download is answered with.
  downloaded :
      (r : Request) (s : Server P) (user id : String) (file_id : ℕ)
      (answer : StorageHandler.Response) (x : Response × Server P)
      → authorize P.jwt c.secret (r.now / second) r.authorization ≡ next user
      → str_eq id "" ≡ false
      → P.number id ≡ file_id
      → (StorageHandler.handle_download P.sha (some (P.number user)) (some file_id) s.world).0
        ≡ answer
      → Passes (auth_middleware P c.secret (download_file P)) id r s x
      → ((seconds : ℕ) × (x.0 ≡ Api.too_many_requests seconds)) ⊎ (x.0 ≡ file answer)
  downloaded r s user id file_id answer x allowed named numbered served (inl refused) = inl refused
  downloaded r s user id file_id answer x allowed named numbered served (inr (s1, a, w, e)) =
      let q = e ∙ auth_middleware-download_file id user r s1 allowed named in
      inr (ap (λ (y : Response × Server P). y.0) q ∙ (rw (numbered, w, served) refl))

  -- Where the digest has no collisions and the store is sound: a file whose upload the server has
  -- answered with an id, whatever failures it met, is served again. Where nothing fails any more, a
  -- request with a token of the same user for the path of its id is refused by the limiter, or it is
  -- answered with a file whose body is the uploaded content, to its end.
  pub download_file-upload_file :
      (up down : Request) (s s' : Server P) (user trace id path : String) (file_id : ℕ)
      (folder : Option ℕ) (name : String) (content : Stream)
      → IsCollisionFree P.sha
      → IsSound P.sha s.world.objects s.world.db
      → authorize P.jwt c.secret (up.now / second) up.authorization ≡ next user
      → authorize P.jwt c.secret (down.now / second) down.authorization ≡ next user
      → form_of up ≡ form folder name content
      → api P c (to "POST" "/api/v1/files/upload" up) s
        ≡ (trace, (file (StorageHandler.created file_id), s'))
      → split b'/' path ≡ "" ∷ "api" ∷ "v1" ∷ "files" ∷ id ∷ "download" ∷ []
      → str_eq id "" ≡ false
      → (str_eq id "." || str_eq id "..") ≡ false
      → P.number id ≡ file_id
      → let response = (api P c (to "GET" path down) (record s' { world = calm s'.world })).1.0 in
        ((seconds : ℕ) × (response ≡ Api.too_many_requests seconds))
        ⊎ ((content_type : String) × (response
              ≡ file (
                  StorageHandler.served content_type
                    (record { out = content.rest; ended = ok tt }))))
  unfolding api tracing_middleware
  download_file-upload_file up down s s' user trace id path file_id folder name content free sound
        may_up may_down parsed done parts full plain numbered =
      let up' = record up {
        context = with_trace_id up.context (request_trace_id up.request_id up.random);
      } in
      let down' = record down {
        context = with_trace_id down.context (request_trace_id down.request_id down.random);
      } in
      let s1 : Server P = record s' { world = calm s'.world } in
      let at_upload =
        strict_limiter-Passes (auth_middleware P c.secret (upload_file P)) ""
          (to "POST" "/api/v1/files/upload" up') s in
      let at_download =
        general_limiter-Passes (auth_middleware P c.secret (download_file P)) id
          (to "GET" path down') s1 in
      let y = ap (λ (z : String × (Response × Server P)). z.1) done in
      let stored =
        uploaded (to "POST" "/api/v1/files/upload" up') s user file_id _ may_up
          (rw (← serve-upload_file P c up' s) at at_upload)
          (ap (λ (z : Response × Server P). z.0) y) in
      let same : (serve_http P (routes P c) "" (to "POST" "/api/v1/files/upload" up') s).1.world
          ≡ s'.world =
        ap (λ (z : Response × Server P). z.1.world) y in
      let (content_type, served) =
        handle_download-handle_upload P.sha P.detect_content_type true (P.number user) folder name
          content s.world file_id s'.world free sound (rw (same, parsed) at stored) in
      elim (downloaded (to "GET" path down') s1 user id file_id _ _ may_down full numbered served
        (rw (← serve-download_file P c down' s1 path id parts full plain) at at_download)) [
          | inl refused ↦ inl refused
          | inr answer ↦ inr (content_type, answer)
        ]
