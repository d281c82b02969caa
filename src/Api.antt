-- ===== src/Api.antt =====
-- cmd/api/main.go: the API server. A request passes through the middlewares of its route to a handler;
-- what the program takes from elsewhere are the fields of `Packages`.
pub mod Mux
pub mod Readiness
pub mod Routes
pub mod Every
pub mod Guarded
pub mod Growth
pub mod Strict
pub mod Probes
pub mod Start
pub mod Started
mod Tests
pub mod Paths
pub mod Session
use distributed_cloud_system.Base.{ℕ, String, Option, List}
use distributed_cloud_system.Tracing.{Context, Random}
use distributed_cloud_system.Storage.World.{World, Bytes}
use distributed_cloud_system.Middleware.BodyLimit.{Body, ReadBody}
use distributed_cloud_system.Middleware.Counter.{Clients, Redis}
use distributed_cloud_system.Middleware.ClientIp.{Net, HttpRequest}
use distributed_cloud_system.Auth.Tokens.{Jwt}
use distributed_cloud_system.Auth.Users.{Bcrypt, Accounts}
use distributed_cloud_system.Auth.Handler as AuthHandler
use distributed_cloud_system.Metadata.Repository.{Jsonb}
use distributed_cloud_system.Metadata.Handler as MetadataHandler
use distributed_cloud_system.Storage.Handler as StorageHandler

-- The code from elsewhere: Redis' counter script, package net, bcrypt, the JWT library, the digest,
-- http.DetectContentType, PostgreSQL's case folding and jsonb, how a JSON body decodes, how a form
-- with a file parses, and the number that stands for a UUID's text.
pub record Packages : Type 1 where
  pub redis : Redis
  pub net : Net
  pub bcrypt : Bcrypt
  pub jwt : Jwt
  pub sha : Bytes → ℕ
  pub detect_content_type : Bytes → String
  pub fold : ℕ → ℕ
  pub jsonb : Jsonb
  pub decode_auth : ReadBody → AuthHandler.Body
  pub decode_folder : ReadBody → MetadataHandler.FolderBody
  pub parse_form : ReadBody → StorageHandler.Form
  pub number : String → ℕ

-- What `Ping` of the three dependencies answers: no error, or its text.
pub record Pings : Type 0 where
  pub database : Option String
  pub redis : Option String
  pub storage : Option String

-- The body of the readiness probe: a `map[string]string`, by its entries.
abbrev pub Report : Type 0
Report = List (String × String)

-- `http.Request`, and what the system gives while it is handled: the time in nanoseconds, the salt of
-- a hash, the bytes of a trace id and the answers of the pings. A path is given without percent escapes.
pub record Request : Type 0 where
  pub method : String
  pub path : String
  pub peer : HttpRequest
  pub authorization : String
  pub request_id : String
  pub folder_id : String
  pub search : String
  pub body : Body
  pub context : Context
  pub now : ℕ
  pub salt : ℕ
  pub random : Random
  pub pings : Pings

-- `http.Error`, a redirection, the refusal of the limiter with `Retry-After`, the probes, and what the
-- handlers of the three packages answer.
pub data Response : Type 0 where
  error : ℕ → String → Response
  moved_permanently : Response
  too_many_requests : ℕ → Response
  healthy : Response
  readiness : ℕ → Report → Response
  account : AuthHandler.Response → Response
  metadata : MetadataHandler.Response → Response
  file : StorageHandler.Response → Response

-- What the handlers work on: the two parts of the database, Redis, and the clients that the two
-- limiters of this process have counted by themselves.
pub record Server (P : Packages) : Type 0 where
  pub accounts : Accounts
  pub world : World
  pub redis : P.redis.State
  pub general : Clients
  pub strict : Clients

-- `http.Handler`; `r.PathValue("id")` is the first argument.
abbrev pub HttpHandler : Packages → Type 0
HttpHandler P = String → Request → Server P → Response × Server P
