-- ===== src/Enrichment/Service.antt =====
-- internal/ai/service.go. What the model's server answers to a request and how JSON is read are
-- parameters. The URL is a constant and the body is made of texts, so that building the request does
-- not fail.
use distributed_cloud_system.Base.{
  ℕ, ◌*◌, String, Option, none, some, List, [], ◌∷◌, Bool, ◌&&◌, not, ◌==◌, str_eq, if◌then◌else◌,
  ltb, length, take,
}
use distributed_cloud_system.Storage.World.{World, Bytes, Error}
use distributed_cloud_system.Storage.Action.{Result, ok, err}
use distributed_cloud_system.Enrichment.Repository.{save_embedding}

pub record Settings : Type 0 where
  pub api_key : String
  pub model : String

-- What varies of the request: the key of its header, and the model and the user's message of its body.
pub record ChatRequest : Type 0 where
  pub key : String
  pub model : String
  pub content : Bytes

-- No response, or a status and a body that ends or breaks off.
pub data HttpResult : Type 0 where
  no_response : HttpResult
  response : ℕ → Bytes → Bool → HttpResult

-- `json.Unmarshal`: the contents of the choices of a response, and whether a text is read into a map.
pub record Json : Type 0 where
  pub choices : Bytes → Option (List String)
  pub is_object : String → Bool

pub data AiError : Type 0 where
  no_api_key no_model api_error body_error bad_response no_choices not_json : AiError
  bad_status : ℕ → AiError
  not_saved : Error → AiError

abbrev pub max_content : ℕ
max_content = 5000

unfoldable pub max_body : ℕ
max_body = 1024 * 1024

abbrev pub request_of : Settings → Bytes → ChatRequest
request_of s content = record {
  key = s.api_key;
  model = s.model;
  content = take max_content content;
}

-- A nil error is `none`.
abbrev pub saved : Result Unit × World → Option AiError × World
saved (ok _, w) = (none, w)
saved (err e, w) = (some (not_saved e), w)

module _ (J : Json) (file : ℕ) where
  -- The first choice, once the body has been decoded.
  abbrev pub on_choices : Option (List String) → World → Option AiError × World
  on_choices none w = (some bad_response, w)
  on_choices (some []) w = (some no_choices, w)
  on_choices (some (text ∷ _)) w =
      if J.is_object text then saved (save_embedding file text w) else (some not_json, w)

  -- From the response to the end; reading the body stops at its limit.
  unfoldable pub on_response : HttpResult → World → Option AiError × World
  unfolding max_body
  on_response no_response w = (some api_error, w)
  on_response (response status body breaks) w =
      if breaks && ltb (length body) max_body
      then (some body_error, w)
      else if not (status == 200)
      then (some (bad_status status), w)
      else on_choices (J.choices (take max_body body)) w

-- `GenerateAndSaveEmbedding`
unfoldable pub generate_and_save_embedding :
    Settings → (ChatRequest → HttpResult) → Json → ℕ → Bytes → World → Option AiError × World
unfolding on_response
generate_and_save_embedding s post J file content w =
    if str_eq s.api_key ""
    then (some no_api_key, w)
    else if str_eq s.model ""
    then (some no_model, w)
    else on_response J file (post (request_of s content)) w
