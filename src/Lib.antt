-- ===== src/Lib.antt =====
-- Nimbus, a distributed file store: a Go API server and a worker over PostgreSQL, MinIO and Redis.
-- Files are cut into chunks that are stored once for each content; an upload is announced on a Redis
-- stream, whose consumers enrich the file; requests pass a rate limiter and a check of their token.
--
-- The parts, and the files that model them:
--
-- * Storage (internal/storage/service.go, internal/storage/repository.go). Storage/World is the state:
--   the tables of migrations/ that the package uses, the bucket as a map from hashes, the events that
--   were published, the clock, and a plan that says what becomes of each call to come: it goes
--   through, fails, takes effect and is reported as failed, since its answer is lost, or its rows break
--   off. Storage/Action is
--   the monad of state and errors with transactions; Storage/Repository and Storage/Chunks have one
--   function for each SQL method, with the translation of errors; Storage/Service has UploadFile,
--   storeChunks, storeChunk, abandonUpload, DownloadFile and DownloadFileInternal; Storage/Reader the
--   verified reader; Storage/Collection RunGarbageCollection and collectChunk. DeleteFile of the
--   service is `delete_file` of the repository. Storage/Handler has the endpoints of
--   internal/storage/handler.go and Storage/Disposition the filename of a download's header. Storage/Handshake lets the transactions of
--   storeChunk and collectChunk about one content run at the same time, with the row locks between
--   them, where a statement that waited for a lock goes by the references it saw before. Storage/ObjectStore is the connection of internal/storage/minio.go, whose calls on objects
--   are `upload_chunk`, `download_chunk` and `delete_object`. Storage/Proofs has the invariant of the tables and the bucket, and what follows from it.
-- * Events (internal/events/redis.go). Events/Broker is what a consumer sees of Redis,
--   which may refuse a dead letter or an acknowledgement; Events/Connect
--   is NewRedisBroker and PublishFileUploaded, Events/Retry is
--   handleMessageWithRetry, Events/Consume is Consume and claimAndProcessStaleMessages, over a list of
--   what Redis answers in each turn, and Events/Backoff is consumeBackoff on 64-bit words.
-- * Middleware (internal/middleware/ratelimit.go, ratelimit_store.go, clientip.go, bodylimit.go). Middleware/Counter
--   has the two stores, Middleware/Limiter the limiter with its fallback, Middleware/ClientIp the
--   address that requests are counted by and NewTrustedProxies. Middleware/OneEvent, Middleware/Bounds and Middleware/Shared count what is let
--   through. Middleware/Script is redisCounterScript over the commands INCR and
--   PEXPIRE, and Middleware/Script/Counting gives it to the shared store.
--   Middleware/BodyLimit is the cap on bodies.
-- * Auth (internal/auth/service.go, repository.go, handler.go, and internal/middleware/auth.go).
--   Auth/Users is the table and the service, Auth/Tokens the claims and AuthMiddleware, Auth/Handler
--   the two endpoints. Auth/Registered and Auth/Session go from a registration to the
--   requests of its token.
--
-- * Metadata (internal/metadata/repository.go, service.go, handler.go). Metadata/Repository has the
--   statements on folders, the listings and the search, Metadata/Like the escaping of a search term and
--   PostgreSQL's ILIKE, Metadata/Service and Metadata/Handler what stands above them. Metadata/Steps
--   lets requests run at the same time: each statement is a step, and a request remembers the folder
--   that its check has found; Metadata/Requests shows the endpoints to be runs of these steps.
-- * Enrichment (internal/ai/service.go, repository.go). Enrichment/Service is
--   GenerateAndSaveEmbedding, Enrichment/Repository the upsert of its answer.
-- * Worker (internal/worker/processor.go). Worker/Processor is ProcessFileUploaded, over the storage
--   model and the interface of the enrichment; Worker/Reading is io.ReadFull from the readers of a
--   download, Worker/Checked what it puts into the buffer, Worker/ContentType isTextualContentType.
-- * Config (internal/config/config.go and internal/database/db.go). The environment is a function;
--   Config/Database is what the driver is asked for.
-- * Tracing (internal/tracing/tracing.go). The contexts and the trace ids; Tracing/Traced shows that
--   there always is one.
-- * Api (cmd/api/main.go). Api has the requests and the state of the server, which is the accounts,
--   the world of Storage, the counters in Redis and those of the two limiters; Api/Routes the
--   middlewares as functions on handlers, the handlers and the route table, and tracing.Middleware;
--   Api/Mux what the program uses of ServeMux; Api/Readiness the probe, Api/Start the start with its
--   guards. Api/Every carries a property of each route over to the server, Api/Guarded and Api/Strict
--   apply it, Api/Session follows a file from its upload to its download.
-- * The worker's program (cmd/worker/main.go) is Worker/Run, where a message finds a world, and the
--   calls for it are made one after the other; Worker/Delivered joins the processing to the consumer.
--
-- The SQL statements are what they do to the tables, with the constraints and the cascades that
-- migrations/ declares. Other code from outside the repository is a parameter: the digest (SHA-256;
-- some theorems suppose that it has no collisions), http.DetectContentType, Go's net package, Redis'
-- commands, bcrypt and the JWT library, the last three with the laws that a theorem uses of
-- them as hypotheses; the answers of the model's server, encoding/json, package mime, the case of
-- letters, and the repair and the trimming of bytes. UUIDs are numbers that were not given out before; hashes are
-- numbers too: the server reads the text of a UUID as one by a parameter, so that a path with a text
-- that is no UUID is not told from one with an unknown id. Row locks are modelled
-- in Storage/Handshake only, and mutexes are not: elsewhere each statement and each call of a store is
-- one step, and but for Metadata/Steps calls are made one after the other. Log lines are left out. Sizes and counts do not reach 2^63.
--
-- Fuel: the loop of storeChunks has one round for each byte that is left to read and two more, where
-- each round but the last takes a byte at least. The loops of the consumer run over the list of turns
-- that they are given.
--
-- Not modelled: the handling of signals and the shutdown of the two programs, the deadlines of the
-- server and of its calls, and that the worker's consumer and its collections run at the same time;
-- cmd/infra, which opens three connections and prints whether they work; the loggers. Headers of
-- answers are modelled where a theorem speaks of them: X-Request-ID, Retry-After, the filename and the
-- type of a download.
pub mod Base
pub mod Storage
pub mod Events
pub mod Middleware
pub mod Auth
pub mod Metadata
pub mod Enrichment
pub mod Worker
pub mod Config
pub mod Tracing
pub mod Api
