-- ===== src/Auth/Tokens.antt =====
-- The claims of a token, and internal/middleware/auth.go: `AuthMiddleware`.
use distributed_cloud_system.Base.{
  ℕ, ◌*◌, String, Option, none, some, List, [], ◌∷◌, str_eq, if◌then◌else◌, split,
}

-- `Claims`, with the registered claims that the service sets.
pub record Claims : Type 0 where
  pub email : String
  pub subject : String
  pub issued_at : ℕ
  pub expires_at : ℕ

-- `TokenTTL`, in seconds.
abbrev pub token_ttl : ℕ
token_ttl = 24 * 60 * 60

-- What the source uses of the JWT library, with HS256 only: `SignedString` under a key, and
-- `ParseWithClaims` under a key at a time, which answers claims only for a valid token.
pub record Jwt : Type 0 where
  pub sign : String → Claims → Option String
  pub parse : String → ℕ → String → Option Claims

-- What the middleware does: 401 with a message, or the next handler with the user's id.
pub data Access : Type 0 where
  unauthorized : String → Access
  next : String → Access

module _ (J : Jwt) where
  abbrev pub checked : Option Claims → Access
  checked none = unauthorized "invalid or expired token"
  checked (some claims) =
      if str_eq claims.subject ""
      then unauthorized "missing user id in token"
      else next claims.subject

  -- The parts of the header.
  abbrev pub bearer : String → ℕ → List String → Access
  bearer secret now (scheme ∷ token ∷ []) =
      if str_eq scheme "Bearer"
      then checked (J.parse secret now token)
      else unauthorized "invalid authorization header format"
  bearer secret now _ = unauthorized "invalid authorization header format"

  -- `AuthMiddleware`, on the value of the Authorization header.
  unfoldable pub authorize : String → ℕ → String → Access
  authorize secret now header =
      if str_eq header ""
      then unauthorized "missing authorization header"
      else bearer secret now (split b' ' header)
