-- ===== src/Api/Every.antt =====
-- A property of every handler of a route table is one of the server.
use distributed_cloud_system.Base.{
  inl, inr, String, Option, none, some, List, [], ◌∷◌, All, Bool, true, false, split, Bool-cases,
}
use distributed_cloud_system.Api.{
  Packages, Request, Response, moved_permanently, Server, HttpHandler,
}
use distributed_cloud_system.Api.Mux.{
  Route, or_moved, on_match, match_path, accepts_method, dispatch, serve_http,
  method_not_allowed_or_not_found,
}

module _ (P : Packages) (Q : Request → Server P → Response × Server P → Type 0) where
  -- The property holds of each answer of a handler.
  abbrev pub Gives : HttpHandler P → Type 0
  Gives h = (id : String) (r : Request) (s : Server P) → Q r s (h id r s)

  on_match-Gives :
      (o : Option String) (x : Route P) (later known : HttpHandler P)
      → Gives x.handler
      → Gives later
      → Gives known
      → Gives (on_match P o x later known)
  on_match-Gives none x later known here there found id r s = there id r s
  on_match-Gives (some value) x later known here there found id r s =
      elim (Bool-cases (accepts_method x.method r.method)) [
        | inl same ↦ rw same (here value r s)
        | inr other ↦ rw other (found id r s)
      ]

  module _
      (missing : (known : Bool) (r : Request) (s : Server P)
        → Q r s (method_not_allowed_or_not_found known, s))
      (moved : (r : Request) (s : Server P) → Q r s (moved_permanently, s)) where
    dispatch-Gives :
        (xs : List (Route P)) (known : Bool) (path : List String)
        → All (λ (x : Route P). Gives x.handler) xs
        → Gives (dispatch P xs known path)
    unfolding dispatch
    dispatch-Gives [] known path k = λ id r s. missing known r s
    dispatch-Gives (x ∷ xs) known path k =
        on_match-Gives (match_path (split b'/' x.pattern) path "") x (dispatch P xs known path)
          (dispatch P xs true path) k.0 (dispatch-Gives xs known path k.1)
          (dispatch-Gives xs true path k.1)

    or_moved-Gives : (b : Bool) (h : HttpHandler P) → Gives h → Gives (or_moved P b h)
    or_moved-Gives true h k = k
    or_moved-Gives false h k = λ id r s. moved r s

    pub serve_http-Gives :
        (xs : List (Route P)) → All (λ (x : Route P). Gives x.handler) xs → Gives (serve_http P xs)
    unfolding serve_http
    serve_http-Gives xs k id r s =
        or_moved-Gives _ (dispatch P xs false (split b'/' r.path))
          (dispatch-Gives xs false (split b'/' r.path) k) id r s
