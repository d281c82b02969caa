-- ===== src/Enrichment/Tests.antt =====
-- A call of internal/ai, and the theorems at it.
use distributed_cloud_system.Base.{some, none, [], ◌∷◌, true, false}
use distributed_cloud_system.Storage.World.{World, FileRow, ready}
use distributed_cloud_system.Enrichment.Service.{Settings, ChatRequest, HttpResult, response, Json}

abbrev letter : FileRow
letter = record {
  id = 1;
  user_id = 7;
  folder_id = none;
  name = "letter.txt";
  content_type = "text/plain";
  size = 2;
  status = ready;
  created_at = 3;
  updated_at = 3;
}

-- The file has a row from an earlier delivery of its event.
abbrev before : World
before = record {
  db = record {
    folders = [];
    files = letter ∷ [];
    chunks = [];
    links = [];
    embeddings = record { file_id = 1; embedding = "{\"tags\":[]}" } ∷ [];
    next_id = 2;
  };
  objects = λ _. none;
  published = [];
  now = 9;
  plan = [];
}

abbrev settings : Settings
settings = record { api_key = "key"; model = "model" }

abbrev server : ChatRequest → HttpResult
server r = response 200 r.content false

abbrev json : Json
json = record { choices = λ _. some ("{}" ∷ []); is_object = λ _. true }
