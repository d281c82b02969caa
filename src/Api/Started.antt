-- ===== src/Api/Started.antt =====
-- What holds once the server has started.
use distributed_cloud_system.Base.{
  ◌≡◌, refl, subst, sym, ap, ◌∙◌, String, Option, none, some, List, Bool, true, false, arith,
}
use distributed_cloud_system.Config.{Env, Config, load, SecretError, validate_for_api}
use distributed_cloud_system.Config.Checks.{IsSigningKey, load-IsSigningKey}
use distributed_cloud_system.Config.Database as Database
use distributed_cloud_system.Config.Database.{Postgres}
use distributed_cloud_system.Storage.ObjectStore.{ObjectServer, new_minio_client}
use distributed_cloud_system.Events.Connect.{is_busy, RedisServer, new_redis_broker}
use distributed_cloud_system.Middleware.ClientIp.{new_trusted_proxies}
use distributed_cloud_system.Api.{Packages}
use distributed_cloud_system.Api.Routes.{Settings}
use distributed_cloud_system.Api.Start.{
  validated, Servers, with_redis, with_minio, with_database, connect, Started, exit, serving,
  with_proxies, start,
}

-- A client has its bucket, and a second one is made the same way and changes nothing.
new_minio_client-none :
    (s s' : ObjectServer)
    → new_minio_client s ≡ (none, s')
    → (s'.has_bucket ≡ true) × (new_minio_client s' ≡ (none, s'))
unfolding new_minio_client
new_minio_client-none s s' e = ground arith

-- Redis reports an error about the group as such only where the group is there.
abbrev pub TellsBusy : RedisServer → Type 0
TellsBusy s = (error : String) → s.create_error ≡ some error → is_busy error ≡ false

abbrev redis_of : Option String → Option String → Bool → RedisServer
redis_of p c g = record { ping_error = p; create_error = c; has_group = g }

abbrev IsJoined : RedisServer → Type 0
IsJoined s = (s.has_group ≡ true) × (new_redis_broker s ≡ (none, s))

redis_of-none :
    (p c : Option String) (g : Bool) (s' : RedisServer)
    → TellsBusy (redis_of p c g)
    → new_redis_broker (redis_of p c g) ≡ (none, s')
    → IsJoined s'
unfolding new_redis_broker
redis_of-none (some x) c g s' tells e = ground arith
redis_of-none none (some x) g s' tells e = let q = rw (tells x refl) at e in ground (arith, q)
redis_of-none none none true s' tells e =
    subst IsJoined (ap (λ (y : Option String × RedisServer). y.1) e) (refl, refl)
redis_of-none none none false s' tells e =
    subst IsJoined (ap (λ (y : Option String × RedisServer). y.1) e) (refl, refl)

-- Both connections, made again, are made as before and change nothing.
abbrev pub AreMade : Config → Servers → Type 0
AreMade cfg s =
    (s.minio.has_bucket ≡ true) × (s.redis.has_group ≡ true) × (connect cfg s ≡ (none, s))

module _ (s s' : Servers) where
  -- What each connection has given.
  abbrev Connected : Option String → Type 0
  Connected d =
      (d ≡ none)
      × (new_minio_client s.minio ≡ (none, s'.minio))
      × (new_redis_broker s.redis ≡ (none, s'.redis))
      × (s'.postgres ≡ s.postgres)

  with_redis-none :
      (minio : ObjectServer) (r : Option String × RedisServer)
      → new_minio_client s.minio ≡ (none, minio)
      → new_redis_broker s.redis ≡ r
      → with_redis r (record s { minio = minio }) ≡ (none, s')
      → Connected none
  with_redis-none minio (o, redis) em er e =
      let last = ap (λ (y : Option String × Servers). y.1) e in
      let first = ap (λ (y : Option String × Servers). y.0) e in
      (
        refl,
        em ∙ (λ i. (none, (last i).minio)),
        er ∙ (λ i. (first i, (last i).redis)),
        sym (λ i. (last i).postgres),
      )

  with_minio-none :
      (m : Option String × ObjectServer)
      → new_minio_client s.minio ≡ m
      → with_minio m s ≡ (none, s')
      → Connected none
  with_minio-none (some error, minio) em e = ground arith
  with_minio-none (none, minio) em e = with_redis-none minio (new_redis_broker s.redis) em refl e

  with_database-none : (d : Option String) → with_database d s ≡ (none, s') → Connected d
  with_database-none (some error) e = ground arith
  with_database-none none e = with_minio-none (new_minio_client s.minio) refl e

  -- Made again, the connections change nothing.
  connect-none : (cfg : Config) → TellsBusy s.redis → connect cfg s ≡ (none, s') → AreMade cfg s'
  unfolding connect
  connect-none cfg tells e =
      let (d, minio, redis, same) =
        with_database-none (Database.new s.postgres cfg.database_url cfg.db_max_conns) e in
      let (bucket, again) = new_minio_client-none s.minio s'.minio minio in
      let (group, joined) =
        redis_of-none s.redis.ping_error s.redis.create_error s.redis.has_group s'.redis tells
          redis in
      (bucket, group, rw (same, d, again, joined) refl)

load-secret :
    (to_lower : String → String) (env : Env) (k : IsSigningKey to_lower env)
    → k.key ≡ (load env).jwt_secret
unfolding load
load-secret to_lower env k = rw k.is_set refl

module _ (P : Packages) (to_lower : String → String) (env : Env) (s s' : Servers) where
  abbrev cfg : Config
  cfg = load env

  -- What is known of the settings, and of the servers after the connections.
  abbrev Serves : Settings P → Servers → Type 0
  Serves c x =
      (cfg.jwt_secret ≡ c.secret)
      × (new_trusted_proxies P.net cfg.trusted_proxy_cidrs ≡ some c.proxies)
      × (x ≡ s')

  with_proxies-serving :
      (c : Settings P) (o : Option (List P.net.Block)) (x : Servers)
      → new_trusted_proxies P.net cfg.trusted_proxy_cidrs ≡ o
      → Path (Started P to_lower × Servers) (with_proxies P to_lower cfg o, x) (serving c, s')
      → Serves c x
  with_proxies-serving c none x eo e = ground arith
  with_proxies-serving c (some proxies) x eo e =
      let settings : record { secret = cfg.jwt_secret; proxies = proxies } ≡ c =
        ground (arith, e) in
      (
        ap (λ (y : Settings P). y.secret) settings,
        eo ∙ ap (λ (y : Settings P). some y.proxies) settings,
        ap (λ (y : Started P to_lower × Servers). y.1) e,
      )

  -- Where the server comes to serve, its tokens are signed with a key that the environment sets and
  -- that `ValidateForAPI` accepts, its proxies are the ones that the environment lists, the bucket and
  -- the consumer group are there, and a restart serves with the same settings and changes nothing.
  -- Redis is supposed to report a group as existing only where it does.
  pub start-serving :
      (c : Settings P)
      → TellsBusy s.redis
      → start P to_lower env s ≡ (serving c, s')
      → ((key : IsSigningKey to_lower env) × (key.key ≡ c.secret))
        × (new_trusted_proxies P.net (load env).trusted_proxy_cidrs ≡ some c.proxies)
        × (s'.minio.has_bucket ≡ true)
        × (s'.redis.has_group ≡ true)
        × (start P to_lower env s' ≡ (serving c, s'))
  unfolding start
  start-serving c tells e = go (validate_for_api to_lower cfg) refl (connect cfg s) refl e
    where
      go :
          (v : Option SecretError)
          → validate_for_api to_lower cfg ≡ v
          → (x : Option String × Servers) → connect cfg s ≡ x
          → validated P to_lower v cfg s ≡ (serving c, s')
          → ((key : IsSigningKey to_lower env) × (key.key ≡ c.secret))
            × (new_trusted_proxies P.net cfg.trusted_proxy_cidrs ≡ some c.proxies)
            × (s'.minio.has_bucket ≡ true)
            × (s'.redis.has_group ≡ true)
            × (start P to_lower env s' ≡ (serving c, s'))
      go (some error) ev x ex f = ground arith
      go none ev (some error, s1) ex f =
          let g : Path (Started P to_lower × Servers) (exit error, s1) (serving c, s') =
            rw ex at f in
          ground (arith, g)
      go none ev (none, s1) ex f =
          let proxies = new_trusted_proxies P.net cfg.trusted_proxy_cidrs in
          let g : Path (Started P to_lower × Servers) (with_proxies P to_lower cfg proxies, s1)
              (serving c, s') =
            rw ex at f in
          let (secret, trusted, same) = with_proxies-serving c proxies s1 refl g in
          let (bucket, group, again) = rw same at (connect-none s s1 cfg tells ex) in
          let key = load-IsSigningKey to_lower env ev in
          (
            (key, load-secret to_lower env key ∙ secret),
            trusted,
            bucket,
            group,
            rw (ev, again) (λ i. ((g i).0, s')),
          )
