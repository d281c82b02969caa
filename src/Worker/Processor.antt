-- ===== src/Worker/Processor.antt =====
-- internal/worker/processor.go: `ProcessFileUploaded`. The enrichment is the interface `ai.Service`,
-- which Enrichment/Service implements; package mime and the functions on text are parameters.
use distributed_cloud_system.Base.{ℕ, ◌*◌, Option, none, some, [], ◌∷◌, if◌then◌else◌}
use distributed_cloud_system.Storage.World.{World, Bytes, Error}
use distributed_cloud_system.Storage.Action.{Result, ok, err}
use distributed_cloud_system.Storage.Service.{Download, download_file_internal}
use distributed_cloud_system.Enrichment.Service.{AiError}
use distributed_cloud_system.Worker.ContentType.{MediaTypes, is_textual_content_type}
use distributed_cloud_system.Worker.Reading.{read_up_to}

-- `strings.ToValidUTF8` with an empty replacement, and `strings.TrimSpace`.
pub record Utf8 : Type 0 where
  pub to_valid : Bytes → Bytes
  pub trim_space : Bytes → Bytes

-- The error that is returned, each with the one that it wraps.
pub data Processed : Type 0 where
  no_error : Processed
  download_error read_error : Error → Processed
  ai_error : AiError → Processed

unfoldable pub buffer_size : ℕ
buffer_size = 100 * 1024

abbrev pub Enrich : Type 0
Enrich = ℕ → Bytes → World → Option AiError × World

module _ (U : Utf8) (enrich : Enrich) (file : ℕ) where
  abbrev pub enriched : Option AiError × World → Processed × World
  enriched (none, w) = (no_error, w)
  enriched (some e, w) = (ai_error e, w)

  abbrev pub on_text : Bytes → Bytes → World → Processed × World
  on_text text [] w = (no_error, w)
  on_text text (b ∷ bs) w = enriched (enrich file text w)

  abbrev pub on_content : Result Unit → Bytes → World → Processed × World
  on_content (err e) content w = (read_error e, w)
  on_content (ok _) content w = let text = U.to_valid content in on_text text (U.trim_space text) w

  module _ (M : MediaTypes) (sha : Bytes → ℕ) where
    unfoldable pub on_download : Result Download × World → Processed × World
    unfolding read_up_to buffer_size
    on_download (err e, w) = (download_error e, w)
    on_download (ok (hs, info), w) =
        if is_textual_content_type M info.content_type
        then (let (c, w1) = read_up_to sha buffer_size hs w in on_content c.ended c.out w1)
        else (no_error, w)

    unfoldable pub process_file_uploaded : World → Processed × World
    unfolding on_download
    process_file_uploaded w = on_download (download_file_internal file w)
