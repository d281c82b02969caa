-- ===== src/Worker/Run.antt =====
-- cmd/worker/main.go: the processor as the handler of the consumer, and the ticker's collections.
use distributed_cloud_system.Base.{ℕ, zero, suc, ◌*◌, String, Option, List, [], ◌∷◌}
use distributed_cloud_system.Storage.World.{World, Bytes}
use distributed_cloud_system.Storage.Collection.{run_garbage_collection}
use distributed_cloud_system.Enrichment.Service.{
  Settings, ChatRequest, HttpResult, Json, generate_and_save_embedding,
}
use distributed_cloud_system.Events.Broker.{Handled, success, failure, Handler}
use distributed_cloud_system.Events.Consume.{Exit, gave_up}
use distributed_cloud_system.Config.{Env, load}
use distributed_cloud_system.Api.Start.{Servers, connect}
use distributed_cloud_system.Worker.ContentType.{MediaTypes}
use distributed_cloud_system.Worker.Processor.{Utf8, Processed, no_error, process_file_uploaded}

-- The services of the worker, and what they need from elsewhere: the settings of the model's server
-- and its answers, encoding/json, text in UTF-8, package mime, the digest, the number that stands for
-- a UUID's text, and the text of an error.
pub record Services : Type 0 where
  pub settings : Settings
  pub post : ChatRequest → HttpResult
  pub json : Json
  pub utf8 : Utf8
  pub media_types : MediaTypes
  pub sha : Bytes → ℕ
  pub number : String → ℕ
  pub text_of : Processed → String

module _ (S : Services) where
  -- `processor.ProcessFileUploaded`, with the service of the enrichment.
  abbrev pub process : String → World → Processed × World
  process file w =
      process_file_uploaded S.utf8
        (λ f content v. generate_and_save_embedding S.settings S.post S.json f content v)
        (S.number file) S.media_types S.sha w

  abbrev pub handled : Processed → Handled
  handled no_error = success
  handled p = failure (S.text_of p)

  -- The world after some calls for a file.
  unfoldable pub after : ℕ → String → World → World
  after zero file w = w
  after (suc n) file w = (process file (after n file w)).1

  -- The handler that `main` passes to `Consume`, where a message finds the world `w`.
  unfoldable pub handler : World → Handler
  unfolding after
  handler w n trace file = handled (process file (after n file w)).0

  -- How the process ends: `Consume` returned an error that is not `context.Canceled`, or not.
  abbrev pub exit_code : Exit → ℕ
  exit_code gave_up = 1
  exit_code _ = 0

  -- What the goroutine of the ticker finds: that the context has ended, or that six hours are over.
  pub data Tick : Type 0 where
    done tick : Tick

  -- The collections, each of chunks that are older than 24 hours; an error is only logged. Times are in
  -- the unit of the world's clock, `hour` of it for one hour.
  unfoldable pub collect_periodically : ℕ → List Tick → World → World
  collect_periodically hour [] w = w
  collect_periodically hour (done ∷ ts) w = w
  collect_periodically hour (tick ∷ ts) w =
      collect_periodically hour ts (run_garbage_collection (24 * hour) w).1

-- How `main` starts: the connections, and status 1 with the error where one of them fails.
unfoldable pub start_worker : Env → Servers → Option String × Servers
start_worker env s = connect (load env) s
