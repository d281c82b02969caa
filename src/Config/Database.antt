-- ===== src/Config/Database.antt =====
-- internal/database/db.go: `New`.
use distributed_cloud_system.Base.{ℕ, ◌*◌, String, Option, none, some}
use distributed_cloud_system.Config.{pool_size}

-- `pgxpool.Config`, as far as it is set; times are in seconds.
pub record PoolConfig : Type 0 where
  pub max_conns : ℕ
  pub min_conns : ℕ
  pub max_conn_lifetime : ℕ
  pub max_conn_idle_time : ℕ

-- What the driver answers: the configuration of a DSN, and the errors of a pool and of its ping.
pub record Postgres : Type 0 where
  pub parse_config : String → Option PoolConfig
  pub new_with_config : PoolConfig → Option String
  pub ping_error : Option String

abbrev pub pool_settings : PoolConfig → ℕ → PoolConfig
pool_settings config max_conns = record config {
  max_conns = pool_size max_conns;
  min_conns = 2;
  max_conn_lifetime = 60 * 60;
  max_conn_idle_time = 30 * 60;
}

abbrev pinged : Option String → Option String
pinged none = none
pinged (some error) = some "failed to ping database"

abbrev connected : Option String → Option String → Option String
connected none ping_error = pinged ping_error
connected (some error) ping_error = some "failed to connect to database"

abbrev parsed : Postgres → Option PoolConfig → ℕ → Option String
parsed p none max_conns = some "failed to parse config"
parsed p (some config) max_conns =
    connected (p.new_with_config (pool_settings config max_conns)) p.ping_error

-- `New`; the error is `none` where there is a pool.
unfoldable pub new : Postgres → String → ℕ → Option String
new p dsn max_conns = parsed p (p.parse_config dsn) max_conns
