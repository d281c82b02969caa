-- ===== src/Auth/Users.antt =====
-- internal/auth/repository.go and internal/auth/service.go. bcrypt and the JWT library are
-- parameters.
use distributed_cloud_system.Base.{
  ℕ, suc, ◌+◌, String, Option, none, some, List, [], ◌∷◌, ◌++◌, Bool, false, find, str_eq,
  if◌then◌else◌,
}
use distributed_cloud_system.Auth.Tokens.{Claims, Jwt, token_ttl}

-- What the service uses of bcrypt: `GenerateFromPassword`, whose salt is drawn anew each time and
-- which refuses some passwords, and whether `CompareHashAndPassword` finds no error.
pub record Bcrypt : Type 0 where
  pub generate : ℕ → String → Option String
  pub compare : String → String → Bool

-- `User`, the row of `users` (migrations/00001).
pub record User : Type 0 where
  pub id : String
  pub email : String
  pub password_hash : String

-- What the driver may report of a query that did not run.
pub data DbError : Type 0 where
  broken : DbError

-- The table, the ids to come of `uuid_generate_v4`, the salts to come, and which of the coming
-- queries fail.
pub record Accounts : Type 0 where
  pub users : List User
  pub fresh_id : ℕ → String
  pub next : ℕ
  pub fails : List Bool

pub data Error : Type 0 where
  email_taken user_not_found invalid_credentials : Error
  db : DbError → Error
  hashing signing : Error

pub data Result (A : Type 0) : Type 0 where
  ok : A → Result A
  err : Error → Result A

abbrev pub has_email : String → User → Bool
has_email email u = str_eq u.email email

abbrev pub user_by_email : String → Accounts → Option User
user_by_email email a = find (has_email email) a.users

abbrev pub next_fails : List Bool → Bool
next_fails [] = false
next_fails (f ∷ _) = f

abbrev pub later : List Bool → List Bool
later [] = []
later (_ ∷ fs) = fs

abbrev pub after_query : Accounts → Accounts
after_query a = record {
  users = a.users;
  fresh_id = a.fresh_id;
  next = a.next;
  fails = later a.fails;
}

abbrev pub new_user : String → String → Accounts → User
new_user email password_hash a = record {
  id = a.fresh_id a.next;
  email = email;
  password_hash = password_hash;
}

abbrev pub with_user : User → Accounts → Accounts
with_user u a = record {
  users = a.users ++ u ∷ [];
  fresh_id = a.fresh_id;
  next = suc a.next;
  fails = a.fails;
}

-- The unique index on `users.email` decides.
abbrev pub insert_user : Option User → User → Accounts → Result User × Accounts
insert_user (some _) u a = (err email_taken, a)
insert_user none u a = (ok u, with_user u a)

-- `repository.CreateUser`
unfoldable pub create_user : String → String → Accounts → Result User × Accounts
create_user email password_hash a =
    if next_fails a.fails
    then (err (db broken), after_query a)
    else insert_user (user_by_email email a) (new_user email password_hash a) (after_query a)

abbrev pub found_user : Option User → Result User
found_user none = err user_not_found
found_user (some u) = ok u

-- `repository.GetUserByEmail`
unfoldable pub get_user_by_email : String → Accounts → Result User × Accounts
get_user_by_email email a =
    if next_fails a.fails
    then (err (db broken), after_query a)
    else (found_user (user_by_email email a), after_query a)

module _ (B : Bcrypt) where
  abbrev pub register_hashed : Option String → String → Accounts → Result User × Accounts
  register_hashed none email a = (err hashing, a)
  register_hashed (some password_hash) email a = create_user email password_hash a

  -- `authService.Register`
  unfoldable pub register : ℕ → String → String → Accounts → Result User × Accounts
  register salt email password a = register_hashed (B.generate salt password) email a

  module _ (J : Jwt) where
    abbrev pub signed : Option String → Result String
    signed none = err signing
    signed (some token) = ok token

    abbrev pub claims_of : User → ℕ → Claims
    claims_of u now = record {
      email = u.email;
      subject = u.id;
      issued_at = now;
      expires_at = now + token_ttl;
    }

    -- What `Login` does with the answer of the repository.
    abbrev pub check_password : Result User → String → String → ℕ → Result String
    check_password (err _) secret password now = err invalid_credentials
    check_password (ok u) secret password now =
        if B.compare u.password_hash password
        then signed (J.sign secret (claims_of u now))
        else err invalid_credentials

    -- `authService.Login`; `now` is in seconds, as `jwt.NumericDate` counts.
    unfoldable pub login : String → String → String → ℕ → Accounts → Result String × Accounts
    login secret email password now a =
        let (found, a') = get_user_by_email email a in
        (check_password found secret password now, a')
