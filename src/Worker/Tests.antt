-- ===== src/Worker/Tests.antt =====
-- Runs of internal/worker, and its theorems at them.
use Prim.Native.String.{[], ◌∷◌}
use distributed_cloud_system.Base.{ℕ, ◌+◌, ◌≡◌, refl, String, some, none, [], ◌∷◌, true, false}
use distributed_cloud_system.Storage.World.{World, FileRow, Bytes, ready}
use distributed_cloud_system.Storage.Action.{ok, query}
use distributed_cloud_system.Storage.Repository.{get_file_info, select_file}
use distributed_cloud_system.Storage.Chunks.{
  get_file_chunks, query_rows, chunks_of, order_by_index, join_chunks, place,
}
use distributed_cloud_system.Storage.Reader.{load, download_chunk, verify, chunk_size}
use distributed_cloud_system.Storage.Service.{download_file_internal}
use distributed_cloud_system.Enrichment.Repository.{save_embedding, upsert_embedding}
use distributed_cloud_system.Enrichment.Service.{
  Settings, ChatRequest, HttpResult, response, Json, on_response, generate_and_save_embedding,
}
use distributed_cloud_system.Events.Broker.{Broker}
use distributed_cloud_system.Worker.Run.{Services}
use distributed_cloud_system.Worker.ContentType.{
  MediaTypes, is_textual_content_type, has_prefix, has_suffix,
}
use distributed_cloud_system.Worker.Reading.{read_up_to}
use distributed_cloud_system.Worker.Checked.{IsChecked, read_up_to-IsChecked}
use distributed_cloud_system.Worker.Processor.{
  Utf8, Enrich, no_error, process_file_uploaded, on_download, buffer_size,
}
use distributed_cloud_system.Worker.Processed.{IsSkipped, process_file_uploaded-IsSkipped}

abbrev sum : Bytes → ℕ
sum [] = 0
sum (b ∷ bs) = b + sum bs

abbrev media : MediaTypes
media = record { parse_media_type = λ t. some t; to_lower = λ t. t }

abbrev utf8 : Utf8
utf8 = record { to_valid = λ b. b; trim_space = λ b. b }

svg_is_text : is_textual_content_type media "image/svg+xml" ≡ true
unfolding is_textual_content_type has_prefix has_suffix
svg_is_text = refl

abbrev upload : ℕ → String → FileRow
upload id content_type = record {
  id = id;
  user_id = 7;
  folder_id = none;
  name = "upload";
  content_type = content_type;
  size = 2;
  status = ready;
  created_at = 3;
  updated_at = 3;
}

abbrev stored : World
stored = record {
  db = record {
    folders = [];
    files = upload 1 "text/plain" ∷ upload 2 "image/png" ∷ [];
    chunks = record { id = 3; hash = 177; size = 2; created_at = 3 } ∷ [];
    links =
        record { file_id = 1; chunk_id = 3; chunk_index = 0 }
        ∷ record { file_id = 2; chunk_id = 3; chunk_index = 0 }
        ∷ [];
    embeddings = [];
    next_id = 4;
  };
  objects = λ _. some (72 ∷ 105 ∷ []);
  published = 1 ∷ 2 ∷ [];
  now = 9;
  plan = [];
}

abbrev settings : Settings
settings = record { api_key = "key"; model = "model" }

abbrev server : ChatRequest → HttpResult
server r = response 200 r.content false

abbrev json : Json
json = record { choices = λ _. some ("{}" ∷ []); is_object = λ _. true }

abbrev summarise : Enrich
summarise file content w = generate_and_save_embedding settings server json file content w

abbrev stay_silent : Enrich
stay_silent file content w = (none, w)

read_up_to-IsChecked_example :
    IsChecked sum 3 (177 ∷ 177 ∷ 177 ∷ []) (read_up_to sum 3 (177 ∷ 177 ∷ 177 ∷ []) stored).0
read_up_to-IsChecked_example = read_up_to-IsChecked sum 3 (177 ∷ 177 ∷ 177 ∷ []) stored

reads_three :
    (read_up_to sum 3 (177 ∷ 177 ∷ 177 ∷ []) stored).0
    ≡ record { out = 72 ∷ 105 ∷ 72 ∷ []; ended = ok tt }
unfolding read_up_to load download_chunk verify chunk_size
reads_three = refl

runs_well : (process_file_uploaded utf8 summarise 1 media sum stored).0 ≡ no_error
unfolding process_file_uploaded on_download buffer_size read_up_to load download_chunk verify
    chunk_size is_textual_content_type has_prefix has_suffix download_file_internal get_file_info
    select_file get_file_chunks query_rows chunks_of order_by_index join_chunks place query
    generate_and_save_embedding on_response save_embedding upsert_embedding
runs_well = refl

not_text : is_textual_content_type media "image/png" ≡ false
unfolding is_textual_content_type has_prefix has_suffix
not_text = refl

process_file_uploaded-IsSkipped_example :
    IsSkipped utf8 media sum 2 stored.db (process_file_uploaded utf8 stay_silent 2 media sum stored)
    × (process_file_uploaded utf8 stay_silent 2 media sum stored
        ≡ process_file_uploaded utf8 summarise 2 media sum stored)
process_file_uploaded-IsSkipped_example =
    process_file_uploaded-IsSkipped utf8 media sum 2 stay_silent summarise stored
      (upload 2 "image/png") refl not_text

abbrev services : Services
services = record {
  settings = settings;
  post = server;
  json = json;
  utf8 = utf8;
  media_types = media;
  sha = sum;
  number = λ s. 1;
  text_of = λ p. "failed";
}

abbrev broker : Broker
broker = record {
  acked = [];
  dead_letters = [];
  waited = 0;
  add_fails = [];
  ack_fails = [];
  cancelled_after = none;
}
