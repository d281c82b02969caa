-- ===== src/Api/Tests.antt =====
-- Runs of the server, and its theorems at them.
use distributed_cloud_system.Base.{
  ℕ, ◌-◌, ◌*◌, ◌≤◌, ◌≡◌, refl, ◌⊎◌, String, none, some, [], ◌∷◌, true, false, arith, str_eq,
  if◌then◌else◌, split, trim_space,
}
use distributed_cloud_system.Tracing.{background, unavailable, request_trace_id}
use distributed_cloud_system.Config.{Env, load, validate_for_api, byte_length, get_env_list}
use distributed_cloud_system.Config.Checks.{IsSigningKey}
use distributed_cloud_system.Config.Database as Database
use distributed_cloud_system.Storage.ObjectStore.{new_minio_client}
use distributed_cloud_system.Events.Connect.{new_redis_broker}
use distributed_cloud_system.Storage.Action.{ok, query, effect, in_tx}
use distributed_cloud_system.Storage.Repository.{create_file, update_file_size_and_status}
use distributed_cloud_system.Storage.Chunks.{get_or_create_chunk, link_file_chunk}
use distributed_cloud_system.Storage.Reader.{chunk_size}
use distributed_cloud_system.Storage.Service as Service
use distributed_cloud_system.Storage.Service.{
  read_full, upload_chunk, store_chunk, store_loop, store_chunks, finish_upload,
}
use distributed_cloud_system.Storage.Handler.{handle_upload}
use distributed_cloud_system.Storage.Samples.{
  encode, encode-IsCollisionFree, empty_world, empty-IsSound,
}
use distributed_cloud_system.Storage.Handler as StorageHandler
use distributed_cloud_system.Storage.Proofs.Download.{calm}
use distributed_cloud_system.Middleware.ClientIp.{Net, client_ip, new_trusted_proxies}
use distributed_cloud_system.Middleware.Counter.{allow_in_redis}
use distributed_cloud_system.Middleware.Limiter.{middleware, allow}
use distributed_cloud_system.Middleware.Samples.{keys, keys_Expires}
use distributed_cloud_system.Middleware.Script.{redis_counter_script}
use distributed_cloud_system.Middleware.Script.Counting.{scripted, scripted_Counts}
use distributed_cloud_system.Auth.Tokens.{Claims, authorize, next}
use distributed_cloud_system.Auth.Handler as AuthHandler
use distributed_cloud_system.Metadata.Handler as MetadataHandler
use distributed_cloud_system.Api as Api
use distributed_cloud_system.Api.{
  Packages, Request, Pings, Response, error, readiness, file, Server,
}
use distributed_cloud_system.Api.Mux.{serve_http}
use distributed_cloud_system.Api.Routes as Routes
use distributed_cloud_system.Api.Routes.{
  Settings, second, strict_limiter, auth_middleware, tracing_middleware, api,
}
use distributed_cloud_system.Api.Paths.{to}
use distributed_cloud_system.Api.Guarded.{Served, api-Served}
use distributed_cloud_system.Api.Growth.{counted}
use distributed_cloud_system.Api.Strict.{served, served_bound}
use distributed_cloud_system.Api.Probes.{api-ready}
use distributed_cloud_system.Api.Start.{Servers, connect, start, serving}
use distributed_cloud_system.Api.Started.{start-serving}
use distributed_cloud_system.Api.Session.{download_file-upload_file}

-- Addresses as texts, where a block holds one address.
abbrev net : Net
net = record {
  Ip = String;
  Block = String;
  parse = λ s. some s;
  print = λ ip. ip;
  is_v4 = λ ip. true;
  parse_cidr = λ s. some s;
  holds = λ b ip. str_eq b ip;
  host = λ s. some s;
}

abbrev claims : Claims
claims = record { email = "ann@example.org"; subject = "u1"; issued_at = 0; expires_at = 1000 }

-- One token, and forms that hold one file.
abbrev packages : Packages
packages = record {
  redis = scripted keys;
  net = net;
  bcrypt = record { generate = λ salt p. some p; compare = λ h q. str_eq h q };
  jwt = record {
    sign = λ key c. some "token";
    parse = λ key now t. if str_eq t "token" then some claims else none;
  };
  sha = encode;
  detect_content_type = λ b. "text/plain";
  fold = λ c. c;
  jsonb = record { has_tag = λ d t. false; summary = λ d. none; tags = λ d. none };
  decode_auth = λ b. if b.too_large then AuthHandler.too_large else AuthHandler.malformed;
  decode_folder = λ b. if b.too_large then MetadataHandler.too_large else MetadataHandler.malformed;
  parse_form = λ b. StorageHandler.form none "a.txt" (record { rest = b.bytes; breaks = false });
  number = λ s. if str_eq s "u1" then 7 else 1;
}

abbrev settings : Settings packages
settings = record { secret = "key"; proxies = [] }

abbrev server : Server packages
server = record {
  accounts = record { users = []; fresh_id = λ n. "u1"; next = 0; fails = [] };
  world = empty_world;
  redis = λ k. none;
  general = λ k. none;
  strict = λ k. none;
}

abbrev request : Request
request = record {
  method = "GET";
  path = "/api/v1/search";
  peer = record { remote_addr = "client"; forwarded_for = "" };
  authorization = "Bearer token";
  request_id = "trace";
  folder_id = "";
  search = "a";
  body = record { content = 5 ∷ 6 ∷ 7 ∷ []; limit = none };
  context = background;
  now = 3 * second;
  salt = 1;
  random = unavailable "3";
  pings = record { database = none; redis = some "refused"; storage = none };
}

api-Served_example :
    Served packages settings request server (api packages settings request server).1
api-Served_example = api-Served packages settings request server

api-ready_example : (api packages settings (to "GET" "/health/ready" request) server).1 ≡ (
  readiness 503 (
      ("status", "DEGRADED")
      ∷ ("database", "OK")
      ∷ ("redis", "UNAVAILABLE")
      ∷ ("storage", "OK")
      ∷ []),
  server,
)
api-ready_example = api-ready packages settings request server

served_bound_example :
    served packages settings
      (scripted_Counts keys keys_Expires)
      "client"
      0
      (to "POST" "/api/v1/auth/login" request
        ∷ request
        ∷ to "POST" "/api/v1/auth/login" request
        ∷ [])
      server
    ≤ 15 - counted packages settings (scripted_Counts keys keys_Expires) "client" 0 server
served_bound_example =
    served_bound packages settings (scripted_Counts keys keys_Expires) "client" 0
      (to "POST" "/api/v1/auth/login" request
        ∷ request
        ∷ to "POST" "/api/v1/auth/login" request
        ∷ [])
      server

allowed : authorize packages.jwt "key" 3 "Bearer token" ≡ next "u1"
unfolding authorize split
allowed = refl

abbrev upload : Request
upload = to "POST" "/api/v1/files/upload" request

uploaded : Server packages
unfolding api
uploaded = (api packages settings upload server).1.1

uploads :
    api packages settings upload server ≡ ("trace", (file (StorageHandler.created 1), uploaded))
unfolding uploaded api tracing_middleware request_trace_id serve_http Routes.routes strict_limiter
    middleware allow allow_in_redis redis_counter_script client_ip auth_middleware authorize split
    Routes.upload_file handle_upload Service.upload_file finish_upload store_chunks store_loop
    store_chunk read_full chunk_size create_file get_or_create_chunk link_file_chunk upload_chunk
    update_file_size_and_status query effect in_tx
uploads = refl

download_path :
    split b'/' "/api/v1/files/1/download" ≡ "" ∷ "api" ∷ "v1" ∷ "files" ∷ "1" ∷ "download" ∷ []
unfolding split
download_path = refl

download_file-upload_file_example :
    let response =
      (api packages settings
        (to "GET" "/api/v1/files/1/download" request)
        (record uploaded { world = calm uploaded.world })).1.0 in
    ((seconds : ℕ) × (response ≡ Api.too_many_requests seconds))
    ⊎ ((content_type : String) × (response
          ≡ file (
              StorageHandler.served content_type (record { out = 5 ∷ 6 ∷ 7 ∷ []; ended = ok tt }))))
download_file-upload_file_example =
    download_file-upload_file packages settings request request server uploaded "u1" "trace" "1"
      "/api/v1/files/1/download" 1 none "a.txt" (record { rest = 5 ∷ 6 ∷ 7 ∷ []; breaks = false })
      encode-IsCollisionFree empty-IsSound allowed allowed refl uploads download_path refl refl refl

-- Servers that answer, where the group is there and the bucket is not.
abbrev servers : Servers
servers = record {
  postgres = record {
    parse_config = λ dsn.
        some
          (record { max_conns = 4; min_conns = 0; max_conn_lifetime = 0; max_conn_idle_time = 0 });
    new_with_config = λ config. none;
    ping_error = none;
  };
  minio = record { new_error = none; exists_error = none; make_error = none; has_bucket = false };
  redis = record { ping_error = none; create_error = none; has_group = true };
}

abbrev environment : Env
environment name =
    if str_eq name "JWT_SECRET" then some "0123456789abcdef0123456789abcdef" else none

abbrev keyed : Settings packages
keyed = record { secret = "0123456789abcdef0123456789abcdef"; proxies = [] }

abbrev joined : Servers
joined = record servers {
  minio = record { new_error = none; exists_error = none; make_error = none; has_bucket = true };
}

starts : start packages (λ s. s) environment servers ≡ (serving keyed, joined)
unfolding start connect load validate_for_api new_trusted_proxies Database.new new_minio_client
    new_redis_broker trim_space byte_length get_env_list
starts = refl

start-serving_example :
    ((key : IsSigningKey (λ s. s) environment) × (key.key ≡ "0123456789abcdef0123456789abcdef"))
    × (new_trusted_proxies net (load environment).trusted_proxy_cidrs ≡ some [])
    × (joined.minio.has_bucket ≡ true)
    × (joined.redis.has_group ≡ true)
    × (start packages (λ s. s) environment joined ≡ (serving keyed, joined))
start-serving_example =
    start-serving packages (λ s. s) environment servers joined keyed (λ error e. ground arith)
      starts
