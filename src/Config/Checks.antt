-- ===== src/Config/Checks.antt =====
-- What the settings that were accepted are like.
use distributed_cloud_system.Base.{
  ℕ, ◌≤◌, ◌<◌, ◌%◌, ◌^◌, ◌≡◌, refl, String, Option, none, some, Bool, true, false, arith, ltb,
  str_eq, any, trim_space, [], ◌∷◌, Bool-cases, inl, inr,
}
use distributed_cloud_system.Config.{
  Env, Config, load, validate_for_api, SecretError, required, placeholder, too_short,
  known_insecure_jwt_secrets, min_jwt_secret_length, byte_length, get_env_int, pool_size,
}

-- A key that may sign tokens: set, of at least 32 bytes, and no placeholder up to case and space around it.
pub record IsSigningKey (to_lower : String → String) (env : Env) : Type 0 where
  pub key : String
  pub is_set : env "JWT_SECRET" ≡ some key
  pub is_long : 32 ≤ byte_length key
  pub is_private :
      any
        (str_eq (to_lower (trim_space key)))
        ("change-me-in-production-use-a-long-random-string" ∷ "changeme" ∷ "secret" ∷ [])
      ≡ false

accepted :
    (to_lower : String → String) (c : Config)
    → validate_for_api to_lower c ≡ none
    → (str_eq c.jwt_secret "" ≡ false)
      × (min_jwt_secret_length ≤ byte_length c.jwt_secret)
      × (any (str_eq (to_lower (trim_space c.jwt_secret))) known_insecure_jwt_secrets ≡ false)
unfolding validate_for_api
accepted to_lower c h = elim (Bool-cases (str_eq c.jwt_secret "")) [
  | inl empty ↦
      absurd (let e : Path (Option SecretError) (some required) none = rw empty at h in cc)
  | inr filled ↦
      elim (Bool-cases
        (any (str_eq (to_lower (trim_space c.jwt_secret))) known_insecure_jwt_secrets)) [
          | inl public ↦ absurd (
              let e : Path (Option SecretError) (some placeholder) none =
                rw (filled, public) at h in
              cc)
          | inr private ↦ elim (Bool-cases (ltb (byte_length c.jwt_secret) min_jwt_secret_length)) [
            | inl short ↦ absurd (
                let e : Path (Option SecretError) (some too_short) none =
                  rw (filled, private, short) at h in
                cc)
            | inr long ↦ (filled, ground (arith, long), private)
          ]
        ]
]

-- The API starts only with a signing key that the environment sets: nothing that the repository
-- contains is used in its place.
pub load-IsSigningKey :
    (to_lower : String → String) (env : Env)
    → validate_for_api to_lower (load env) ≡ none
    → IsSigningKey to_lower env
unfolding load
load-IsSigningKey to_lower env h = go (env "JWT_SECRET") refl
  where
    go : (o : Option String) → env "JWT_SECRET" ≡ o → IsSigningKey to_lower env
    go none e =
        absurd (let q : Path Bool true false = rw e at ((accepted to_lower (load env) h).0) in cc)
    go (some key) e =
        let (filled, long, private) = accepted to_lower (load env) h in
        record { key = key; is_set = e; is_long = rw e at long; is_private = rw e at private }

-- The pool has at least one connection and as many as 32 signed bits hold at most, and exactly those
-- that the environment asks for where that is a positive number of 31 bits.
pub pool_size-load :
    (env : Env)
    → (1 ≤ pool_size (load env).db_max_conns)
      × (pool_size (load env).db_max_conns < 2 ^ 31)
      × ((n : ℕ)
          → get_env_int env "DB_MAX_CONNS" 0 ≡ n
          → 1 ≤ n
          → n < 2 ^ 31
          → pool_size (load env).db_max_conns ≡ n)
unfolding load pool_size
pool_size-load env =
    let m = get_env_int env "DB_MAX_CONNS" 0 in
    (positive (m % 2 ^ 32), small (m % 2 ^ 32), λ n e le lt. rw e (exact n le lt))
  where
    positive : (k : ℕ) → 1 ≤ pool_size k
    positive k = ground arith

    small : (k : ℕ) → pool_size k < 2 ^ 31
    small k = ground arith

    exact : (n : ℕ) → 1 ≤ n → n < 2 ^ 31 → pool_size (n % 2 ^ 32) ≡ n
    exact n le lt = let e : n % 2 ^ 32 ≡ n = omega arith in rw e (ground arith)
