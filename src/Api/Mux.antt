-- ===== src/Api/Mux.antt =====
-- Package net/http's `ServeMux`, as cmd/api/main.go uses it: patterns of a method and a path, whose
-- segment "{id}" stands for one segment that is not empty.
use distributed_cloud_system.Base.{
  String, Option, none, some, List, [], ◌∷◌, Bool, true, false, ◌||◌, ◌&&◌, not, str_eq,
  if◌then◌else◌, split,
}
use distributed_cloud_system.Api.{Packages, Response, error, moved_permanently, HttpHandler}

-- The path's "{id}", which is "" where the pattern has none, or `none` where the path differs.
unfoldable pub match_path : List String → List String → String → Option String
match_path [] [] id = some id
match_path [] (s ∷ ss) id = none
match_path (p ∷ ps) [] id = none
match_path (p ∷ ps) (s ∷ ss) id =
    let wild = match_path ps ss s in
    let rest = match_path ps ss id in
    if str_eq p "{id}"
    then (if str_eq s "" then none else wild)
    else if str_eq p s
    then rest
    else none

-- A pattern for GET serves HEAD too.
abbrev pub accepts_method : String → String → Bool
accepts_method pattern method =
    str_eq pattern method || (str_eq pattern "GET" && str_eq method "HEAD")

abbrev is_dots : String → Bool
is_dots s = str_eq s "." || str_eq s ".."

-- Whether `cleanPath` leaves a path as it is, by the segments after the first slash: an empty segment
-- stands at the end only.
unfoldable pub is_clean : List String → Bool
is_clean [] = false
is_clean (s ∷ []) = not (is_dots s)
is_clean (s ∷ ss) = let rest = is_clean ss in not (str_eq s "" || is_dots s) && rest

abbrev after_slash : List String → Bool
after_slash [] = false
after_slash (s ∷ ss) = str_eq s "" && is_clean ss

abbrev pub method_not_allowed_or_not_found : Bool → Response
method_not_allowed_or_not_found known =
    if known then error 405 "Method Not Allowed" else error 404 "404 page not found"

module _ (P : Packages) where
  -- `mux.Handle` with a pattern, by its method and its path.
  pub record Route : Type 0 where
    pub method : String
    pub pattern : String
    pub handler : HttpHandler P

  -- A route that matches the path with some "{id}" serves its own method; `later` are the routes
  -- after it, where the path is not known by it, and `known` where it is.
  abbrev pub on_match : Option String → Route → (later known : HttpHandler P) → HttpHandler P
  on_match none x later known id r s = later id r s
  on_match (some value) x later known id r s =
      if accepts_method x.method r.method then x.handler value r s else known id r s

  -- The route of a request. No two patterns of the program match the same request, so that the first
  -- one that matches is the one; `known` says whether an earlier pattern matches the path.
  unfoldable pub dispatch : List Route → Bool → List String → HttpHandler P
  dispatch [] known path id r s = (method_not_allowed_or_not_found known, s)
  dispatch (x ∷ xs) known path id r s =
      on_match (match_path (split b'/' x.pattern) path "") x (dispatch xs known path)
        (dispatch xs true path) id r s

  -- A redirection to the clean path.
  abbrev pub or_moved : Bool → HttpHandler P → HttpHandler P
  or_moved true handler id r s = handler id r s
  or_moved false handler id r s = (moved_permanently, s)

  -- `ServeMux.ServeHTTP`; CONNECT is not redirected.
  unfoldable pub serve_http : List Route → HttpHandler P
  unfolding dispatch is_clean match_path
  serve_http routes id r s =
      let path = split b'/' r.path in
      or_moved (after_slash path || str_eq r.method "CONNECT") (dispatch routes false path) id r s
