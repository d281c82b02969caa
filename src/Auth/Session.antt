-- ===== src/Auth/Session.antt =====
-- From a registration to the requests that its token opens.
use Prim.Native.Char.{Char, char}
use Prim.Native.String.{◌∷◌, ◌++◌ as ◌+++◌}
use text.Mathlib.TextLemmas.{nil-append, cons-append, append-eq-nil_iff}
use distributed_cloud_system.Base.{
  ℕ, ◌+◌, ◌≡◌, refl, ap, ◌∙◌, ◌⊎◌, inl, inr, String, Option, none, some, ◌∷◌, Bool, true, false,
  arith, str_eq, str_eq_iff, if◌then◌else◌, ltb, ltb→lt, Bool-cases, split, split-append,
}
use distributed_cloud_system.Auth.Tokens.{Claims, Jwt, token_ttl, unauthorized, next, authorize}
use distributed_cloud_system.Auth.Users.{
  Bcrypt, User, Accounts, email_taken, invalid_credentials, Result, ok, err, user_by_email,
  create_user, get_user_by_email, register, claims_of, signed, check_password, login, found_user,
  db, broken, next_fails, after_query,
}
use distributed_cloud_system.Auth.Handler.{error, token, auth_request, handle_login, logged_in}
use distributed_cloud_system.Auth.Registered.{
  Compares, Signs, reachable, bearer_header, register-ok,
}

module _ (B : Bcrypt) (J : Jwt) (secret email password : String) (now : ℕ) where
  login-reachable :
      (a : Accounts) (u : User)
      → user_by_email email a ≡ some u
      → (login B J secret email password now (reachable a)).0 ≡ (
          if B.compare u.password_hash password
          then signed B J (J.sign secret (claims_of B J u now))
          else err invalid_credentials)
  unfolding login get_user_by_email
  login-reachable a u found = rw found refl

  signed-ok : (o : Option String) (t : String) → signed B J o ≡ ok t → o ≡ some t
  signed-ok none t e = ground arith
  signed-ok (some x) t e = ground arith

  abbrev Checked : Accounts → String → Type 0
  Checked a t =
      (u : User) × (user_by_email email a ≡ some u)
      × (B.compare u.password_hash password ≡ true)
      × (J.sign secret (claims_of B J u now) ≡ some t)

  check_password-ok :
      (a : Accounts) (u : User) (t : String) (same : Bool)
      → user_by_email email a ≡ some u
      → B.compare u.password_hash password ≡ same
      → (if same then signed B J (J.sign secret (claims_of B J u now)) else err invalid_credentials)
        ≡ ok t
      → Checked a t
  check_password-ok a u t true found same e =
      (u, found, same, signed-ok (J.sign secret (claims_of B J u now)) t e)
  check_password-ok a u t false found same e = ground arith

  found_user-ok :
      (a : Accounts) (o : Option User) (t : String)
      → user_by_email email a ≡ o
      → check_password B J (found_user o) secret password now ≡ ok t
      → Checked a t
  found_user-ok a none t found e = ground arith
  found_user-ok a (some u) t found e =
      check_password-ok a u t (B.compare u.password_hash password) found refl e

  -- What a login that gives a token has checked.
  login-ok :
      (a : Accounts) (t : String) → (login B J secret email password now a).0 ≡ ok t → Checked a t
  unfolding login get_user_by_email
  login-ok a t =
      elim (next_fails a.fails)
        as (λ b.
          let x : Result User × Accounts =
            (if b
              then (err (db broken), after_query a)
              else (found_user (user_by_email email a), after_query a)) in
          check_password B J x.0 secret password now ≡ ok t → Checked a t) [
            | true ↦ λ e. ground arith
            | false ↦ λ e. found_user-ok a (user_by_email email a) t refl e
          ]

  -- A login answers with a token only where an account has the address, its hash compares equal to
  -- the password and the token is signed for it. Every other answer is the same one.
  pub login_answers :
      (a : Accounts)
      → let response = (handle_login B J secret now (auth_request email password) a).0 in
        (response ≡ error 401 "invalid credentials")
        ⊎ ((u : User) × (t : String) × (user_by_email email a ≡ some u)
            × (B.compare u.password_hash password ≡ true)
            × (J.sign secret (claims_of B J u now) ≡ some t)
            × (response ≡ token 200 t))
  unfolding handle_login
  login_answers a = go (login B J secret email password now a).0 refl
    where
      go :
          (r : Result String)
          → (login B J secret email password now a).0 ≡ r
          → (logged_in r ≡ error 401 "invalid credentials")
            ⊎ ((u : User) × (t : String) × (user_by_email email a ≡ some u)
                × (B.compare u.password_hash password ≡ true)
                × (J.sign secret (claims_of B J u now) ≡ some t)
                × (logged_in r ≡ token 200 t))
      go (err _) e = inl refl
      go (ok t) e =
          let (u, found, same, sign) = login-ok a t e in inr (u, t, found, same, sign, refl)

abbrev space : Char
space = char b' ' tt

split-bearer_header : (t : String) → split b' ' (bearer_header t) ≡ "Bearer" ∷ split b' ' t
unfolding split
split-bearer_header t =
    ap (λ (s : String). split b' ' ("Bearer" +++ s))
      (cons-append space "" t ∙ ap (λ (s : String). space ∷ s) (nil-append t))
    ∙ split-append space "Bearer" t

module _ (J : Jwt) (laws : Signs J) (secret : String) (c : Claims) (t : String) (now : ℕ) where
  bearer_header-full : str_eq (bearer_header t) "" ≡ false
  bearer_header-full = elim (Bool-cases (str_eq (bearer_header t) "")) [
    | inr full ↦ full
    | inl empty ↦
        let e = (append-eq-nil_iff.0 ((str_eq_iff (bearer_header t) "").0 empty)).0 in
        let f = (str_eq_iff "Bearer" "").1 e in ground (arith, f)
  ]

  authorize-signed :
      J.sign secret c ≡ some t
      → str_eq c.subject "" ≡ false
      → authorize J secret now (bearer_header t)
        ≡ (if ltb now c.expires_at then next c.subject else unauthorized "invalid or expired token")
  unfolding authorize
  authorize-signed h named =
      rw (bearer_header-full, split-bearer_header t, laws.one_word secret c t h)
        (elim (Bool-cases (ltb now c.expires_at)) [
          | inl valid ↦
              rw (laws.accepts secret c t now h (ltb→lt now c.expires_at valid), named, valid) refl
          | inr old ↦ rw (laws.expires secret c t now h (ground arith), old) refl
        ])

module _ (B : Bcrypt) (bcrypt : Compares B) (J : Jwt) (jwt : Signs J)
    (secret email password : String) (salt : ℕ) (a : Accounts) (u : User) (a' : Accounts) where
  -- After a registration, and while the database answers, a login with the same address gives a
  -- token for the same password, where one can be signed, and is refused for any other password.
  -- bcrypt is supposed to find a hash equal to its own password only.
  pub register-login :
      register B salt email password a ≡ (ok u, a')
      → (q : String) (now : ℕ)
      → (login B J secret email q now (reachable a')).0 ≡ (
          if str_eq password q
          then signed B J (J.sign secret (claims_of B J u now))
          else err invalid_credentials)
  register-login done q now =
      let (h, generated, (hashed, found)) = register-ok B salt email password a u a' done in
      login-reachable B J secret email q now a' u found
      ∙ (rw (hashed, bcrypt.compares salt password h q generated) refl)

  -- The token of a login after a registration opens requests as the user that was registered, for
  -- 24 hours and no longer, where the user's id is not empty and bcrypt and JWT keep their laws.
  pub login-authorize :
      register B salt email password a ≡ (ok u, a')
      → str_eq u.id "" ≡ false
      → (since now : ℕ) (t : String)
      → (login B J secret email password since (reachable a')).0 ≡ ok t
      → authorize J secret now (bearer_header t) ≡ (
          if ltb now (since + token_ttl)
          then next u.id
          else unauthorized "invalid or expired token")
  login-authorize done named since now t e =
      let (h, generated, (hashed, found)) = register-ok B salt email password a u a' done in
      let (v, found', same, sign) = login-ok B J secret email password since (reachable a') t e in
      let eq : v ≡ u = ground (arith, found, found') in
      rw (authorize-signed J jwt secret (claims_of B J v since) t now sign (rw eq named), eq) refl

  -- After a registration the address is taken: a further registration with it, whatever its
  -- password, is refused while the database answers, where the password can be hashed, and changes
  -- nothing.
  pub register-register :
      register B salt email password a ≡ (ok u, a')
      → (more : ℕ) (q h : String) → B.generate more q ≡ some h
      → register B more email q (reachable a') ≡ (err email_taken, reachable a')
  unfolding register create_user
  register-register done more q h generated =
      let (first, _, (hashed, found)) = register-ok B salt email password a u a' done in
      rw (generated, found) refl
