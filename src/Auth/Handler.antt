-- ===== src/Auth/Handler.antt =====
-- internal/auth/handler.go: the status codes and messages of the two endpoints.
use distributed_cloud_system.Base.{ℕ, String, ◌||◌, str_eq, if◌then◌else◌}
use distributed_cloud_system.Auth.Tokens.{Jwt}
use distributed_cloud_system.Auth.Users.{
  Bcrypt, User, Accounts, email_taken, Result, ok, err, register, login,
}

-- How the body decodes: past its limit, malformed, or to an `authRequest`.
pub data Body : Type 0 where
  too_large malformed : Body
  auth_request : String → String → Body

pub data Response : Type 0 where
  error : ℕ → String → Response
  message : ℕ → String → Response
  token : ℕ → String → Response

abbrev pub registered : Result User → Response
registered (ok _) = message 201 "user registered successfully"
registered (err email_taken) = error 409 "email already registered"
registered (err _) = error 500 "failed to register user"

abbrev pub logged_in : Result String → Response
logged_in (ok t) = token 200 t
logged_in (err _) = error 401 "invalid credentials"

module _ (B : Bcrypt) where
  -- `Handler.Register`, with `decodeRequest`.
  unfoldable pub handle_register : ℕ → Body → Accounts → Response × Accounts
  handle_register salt too_large a = (error 413 "request body too large", a)
  handle_register salt malformed a = (error 400 "invalid request body", a)
  handle_register salt (auth_request email password) a =
      if str_eq email "" || str_eq password ""
      then (error 400 "email and password are required", a)
      else let (r, a') = register B salt email password a in (registered r, a')

  -- `Handler.Login`, with `decodeRequest`.
  unfoldable pub handle_login : Jwt → String → ℕ → Body → Accounts → Response × Accounts
  handle_login J secret now too_large a = (error 413 "request body too large", a)
  handle_login J secret now malformed a = (error 400 "invalid request body", a)
  handle_login J secret now (auth_request email password) a =
      let (r, a') = login B J secret email password now a in (logged_in r, a')
