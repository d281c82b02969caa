-- ===== src/Api/Start.antt =====
-- How `main` of cmd/api/main.go starts: it serves, or it exits with status 1.
use distributed_cloud_system.Base.{String, Option, none, some, List}
use distributed_cloud_system.Config.{Env, Config, load, SecretError, validate_for_api}
use distributed_cloud_system.Config.Database as Database
use distributed_cloud_system.Config.Database.{Postgres}
use distributed_cloud_system.Storage.ObjectStore.{ObjectServer, new_minio_client}
use distributed_cloud_system.Events.Connect.{RedisServer, new_redis_broker}
use distributed_cloud_system.Middleware.ClientIp.{new_trusted_proxies}
use distributed_cloud_system.Api.{Packages}
use distributed_cloud_system.Api.Routes.{Settings}

-- The servers that a program of the repository connects to.
pub record Servers : Type 0 where
  pub postgres : Postgres
  pub minio : ObjectServer
  pub redis : RedisServer

abbrev pub with_redis : Option String × RedisServer → Servers → Option String × Servers
with_redis (e, redis) s = (e, record s { redis = redis })

abbrev pub with_minio : Option String × ObjectServer → Servers → Option String × Servers
with_minio (some error, minio) s = (some error, record s { minio = minio })
with_minio (none, minio) s = with_redis (new_redis_broker s.redis) (record s { minio = minio })

abbrev pub with_database : Option String → Servers → Option String × Servers
with_database (some error) s = (some error, s)
with_database none s = with_minio (new_minio_client s.minio) s

-- The connections that both programs make, in their order; the error is the first one.
unfoldable pub connect : Config → Servers → Option String × Servers
connect cfg s = with_database (Database.new s.postgres cfg.database_url cfg.db_max_conns) s

module _ (P : Packages) (to_lower : String → String) where
  -- The server with its settings, or `os.Exit(1)` with the error that is logged.
  pub data Started : Type 0 where
    exit : String → Started
    serving : Settings P → Started

  abbrev pub with_proxies : Config → Option (List P.net.Block) → Started
  with_proxies cfg none = exit "invalid TRUSTED_PROXY_CIDRS"
  with_proxies cfg (some proxies) = serving (record { secret = cfg.jwt_secret; proxies = proxies })

  abbrev pub connected : Config → Option String × Servers → Started × Servers
  connected cfg (some error, s) = (exit error, s)
  connected cfg (none, s) =
      (with_proxies cfg (new_trusted_proxies P.net cfg.trusted_proxy_cidrs), s)

  abbrev pub validated : Option SecretError → Config → Servers → Started × Servers
  validated (some error) cfg s = (exit "invalid configuration", s)
  validated none cfg s = connected cfg (connect cfg s)

  unfoldable pub start : Env → Servers → Started × Servers
  start env s = validated (validate_for_api to_lower (load env)) (load env) s
