-- ===== src/Auth/Registered.antt =====
-- internal/auth/service.go: what a registration has done, and what is known of bcrypt and JWT.
use Prim.Native.String.{[], ◌∷◌, ◌++◌ as ◌+++◌}
use text.Mathlib.TextPositions.{eq_refl}
use distributed_cloud_system.Base.{
  ℕ, ◌≤◌, ◌<◌, ◌≡◌, refl, subst, String, Option, none, some, List, [], ◌∷◌, ◌++◌, Bool, true, false,
  find, arith, str_eq, if◌then◌else◌, split,
}
use distributed_cloud_system.Auth.Tokens.{Claims, Jwt}
use distributed_cloud_system.Auth.Users.{
  Bcrypt, User, Accounts, Result, ok, err, has_email, user_by_email, new_user, insert_user,
  create_user, register_hashed, register, db, broken, next_fails, after_query,
}

-- bcrypt: a hash that was generated for a password compares equal to that password only.
pub record Compares (B : Bcrypt) : Type 0 where
  pub compares :
      (salt : ℕ) (p h q : String) → B.generate salt p ≡ some h → B.compare h q ≡ str_eq p q

-- JWT: a signed token is valid under its key until it expires, with the claims that were signed, and
-- has no space in it.
pub record Signs (J : Jwt) : Type 0 where
  pub accepts :
      (key : String) (c : Claims) (t : String) (now : ℕ)
      → J.sign key c ≡ some t
      → now < c.expires_at
      → J.parse key now t ≡ some c
  pub expires :
      (key : String) (c : Claims) (t : String) (now : ℕ)
      → J.sign key c ≡ some t
      → c.expires_at ≤ now
      → J.parse key now t ≡ none
  pub one_word :
      (key : String) (c : Claims) (t : String) → J.sign key c ≡ some t → split b' ' t ≡ t ∷ []

-- The database answers every query to come.
abbrev pub reachable : Accounts → Accounts
reachable a = record { users = a.users; fresh_id = a.fresh_id; next = a.next; fails = [] }

abbrev pub bearer_header : String → String
bearer_header t = "Bearer" +++ (" " +++ t)

find-append :
    (p : User → Bool) (us : List User) (u : User)
    → find p us ≡ none
    → p u ≡ true
    → find p (us ++ u ∷ []) ≡ some u
find-append p [] u absent h = rw h refl
find-append p (x ∷ us) u absent h = let rest = find-append p us u in ground (arith, rest)

module _ (email h : String) where
  -- What a creation that returns a user has done.
  abbrev pub Created : Result User × Accounts → Type 0
  Created (ok u, a) = (u.password_hash ≡ h) × (user_by_email email a ≡ some u)
  Created (err _, a) = Unit

  insert_user-Created :
      (o : Option User) (a : Accounts)
      → user_by_email email a ≡ o
      → Created (insert_user o (new_user email h a) (after_query a))
  insert_user-Created (some _) a e = tt
  insert_user-Created none a e =
      (refl, find-append (has_email email) a.users (new_user email h a) e (eq_refl email))

  create_user-Created : (a : Accounts) → Created (create_user email h a)
  unfolding create_user
  create_user-Created a =
      elim (next_fails a.fails)
        as (λ b. Created (
          if b
          then (err (db broken), after_query a)
          else insert_user (user_by_email email a) (new_user email h a) (after_query a))) [
            | true ↦ tt
            | false ↦ insert_user-Created (user_by_email email a) a refl
          ]

module _ (B : Bcrypt) (salt : ℕ) (email password : String) (a : Accounts) where
  -- What a registration has done.
  pub register-ok :
      (u : User) (a' : Accounts)
      → register B salt email password a ≡ (ok u, a')
      → (h : String) × (B.generate salt password ≡ some h) × Created email h (ok u, a')
  unfolding register
  register-ok u a' done = go (B.generate salt password) refl done
    where
      go :
          (o : Option String)
          → B.generate salt password ≡ o
          → register_hashed B o email a ≡ (ok u, a')
          → (h : String) × (B.generate salt password ≡ some h) × Created email h (ok u, a')
      go none e d = ground arith
      go (some h) e d = (
        h,
        e,
        subst (λ (x : Result User × Accounts). Created email h x) d (create_user-Created email h a),
      )
