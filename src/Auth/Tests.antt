-- ===== src/Auth/Tests.antt =====
-- The theorems on sessions, at an account, a password and a token.
use Prim.Native.String.{[], ◌∷◌}
use distributed_cloud_system.Base.{
  ◌+◌, ◌≡◌, refl, sym, ap, ◌⊎◌, inl, inr, String, Option, none, some, [], ◌∷◌, Bool, true, false,
  ◌&&◌, arith, str_eq, str_eq_iff, if◌then◌else◌, ltb, ◌==◌, ==_iff, Bool-cases, split,
}
use distributed_cloud_system.Auth.Tokens.{Claims, Jwt, token_ttl, unauthorized, next, authorize}
use distributed_cloud_system.Auth.Users.{
  Bcrypt, User, Accounts, ok, user_by_email, create_user, get_user_by_email, register, claims_of,
  login,
}
use distributed_cloud_system.Auth.Handler.{error, token, auth_request, handle_login}
use distributed_cloud_system.Auth.Registered.{Compares, Signs, reachable, bearer_header}
use distributed_cloud_system.Auth.Session.{login_answers, login-authorize}

abbrev plain : Bcrypt
plain = record { generate = λ salt p. some p; compare = λ h q. str_eq h q }

plain-Compares : Compares plain
plain-Compares = record {
  compares = λ salt p h q e. ap (λ (x : Option String). str_eq (or_empty x) q) (sym e);
}
  where
    or_empty : Option String → String
    or_empty none = ""
    or_empty (some s) = s

-- A signer of one claim.
abbrev ann : Claims
ann = record {
  email = "ann@example.org";
  subject = "u1";
  issued_at = 1000;
  expires_at = 1000 + token_ttl;
}

abbrev same_claims : Claims → Claims → Bool
same_claims c d =
    str_eq c.email d.email
    && (str_eq c.subject d.subject
        && ((c.issued_at == d.issued_at) && (c.expires_at == d.expires_at)))

same_claims_sound : (c d : Claims) → same_claims c d ≡ true → c ≡ d
same_claims_sound c d h =
    let emails = (str_eq_iff c.email d.email).0 (ground arith) in
    let subjects = (str_eq_iff c.subject d.subject).0 (ground arith) in
    let issues = (==_iff c.issued_at d.issued_at).0 (ground arith) in
    let expiries = (==_iff c.expires_at d.expires_at).0 (ground arith) in
    λ i. record {
      email = emails i;
      subject = subjects i;
      issued_at = issues i;
      expires_at = expiries i;
    }

abbrev one_token : Jwt
one_token = record {
  sign = λ key c. if same_claims c ann then some "token" else none;
  parse = λ key now t. if ltb now ann.expires_at then some ann else none;
}

token-word : split b' ' "token" ≡ "token" ∷ []
unfolding split
token-word = refl

one_signed :
    (key : String) (c : Claims) (t : String)
    → one_token.sign key c ≡ some t
    → (c ≡ ann) × (t ≡ "token")
one_signed key c t e = elim (Bool-cases (same_claims c ann)) [
  | inl same ↦ (same_claims_sound c ann same, ground (arith, same))
  | inr other ↦ ground (arith, other)
]

one_token-Signs : Signs one_token
one_token-Signs = record {
  accepts = λ key c t now e early.
      let p = (one_signed key c t e).0 in
      let q : c.expires_at ≡ ann.expires_at = ap (λ (x : Claims). x.expires_at) p in
      let r : ltb now ann.expires_at ≡ true = ground (arith, q) in rw (r, p) refl;
  expires = λ key c t now e late.
      let q : c.expires_at ≡ ann.expires_at =
        ap (λ (x : Claims). x.expires_at) (one_signed key c t e).0 in
      let r : ltb now ann.expires_at ≡ false = ground (arith, q) in rw r refl;
  one_word = λ key c t e. rw (one_signed key c t e).1 token-word;
}

abbrev nobody : Accounts
nobody = record { users = []; fresh_id = λ n. "u1"; next = 0; fails = [] }

abbrev user : User
user = record { id = "u1"; email = "ann@example.org"; password_hash = "secret" }

abbrev one_account : Accounts
one_account = record { users = user ∷ []; fresh_id = λ n. "u1"; next = 1; fails = [] }

registers : register plain 0 "ann@example.org" "secret" nobody ≡ (ok user, one_account)
unfolding register create_user
registers = refl

logs_in :
    (login plain one_token "key" "ann@example.org" "secret" 1000 (reachable one_account)).0
    ≡ ok "token"
unfolding login get_user_by_email
logs_in = refl

login-authorize_example :
    authorize one_token "key" 5000 (bearer_header "token")
    ≡ (if ltb 5000 (1000 + token_ttl) then next "u1" else unauthorized "invalid or expired token")
login-authorize_example =
    login-authorize plain plain-Compares one_token one_token-Signs "key" "ann@example.org" "secret"
      0 nobody user one_account registers refl 1000 5000 "token" logs_in

login_answers_example :
    let response =
      (handle_login plain one_token "key" 1000
        (auth_request "bob@example.org" "x")
        one_account).0 in
    (response ≡ error 401 "invalid credentials")
    ⊎ ((u : User) × (t : String) × (user_by_email "bob@example.org" one_account ≡ some u)
        × (plain.compare u.password_hash "x" ≡ true)
        × (one_token.sign "key" (claims_of plain one_token u 1000) ≡ some t)
        × (response ≡ token 200 t))
login_answers_example = login_answers plain one_token "key" "bob@example.org" "x" 1000 one_account
