-- ===== src/Enrichment/Saved.antt =====
-- What `GenerateAndSaveEmbedding` leaves behind.
use distributed_cloud_system.Base.{
  ℕ, ◌≡◌, refl, ◌∙◌, String, Option, List, [], ◌∷◌, Bool, true, false, ◌&&◌, arith, ◌==◌, ==_iff,
  ==_refl, find, any, none, some, take, length, ltb, str_eq, Bool-cases, inl, inr, ◌⊎◌,
}
use distributed_cloud_system.Storage.World.{World, Bytes, Database, EmbeddingRow}
use distributed_cloud_system.Storage.Repository.{is_file}
use distributed_cloud_system.Storage.Action.{Result, ok, err}
use distributed_cloud_system.Storage.Proofs.Statements.{query_cases}
use distributed_cloud_system.Storage.Proofs.Tables.{find-append_none}
use distributed_cloud_system.Enrichment.Repository.{of_embedded, upsert_embedding, save_embedding}
use distributed_cloud_system.Enrichment.Service.{
  Settings, ChatRequest, HttpResult, no_response, response, Json, AiError, max_body, request_of,
  saved, on_choices, on_response, generate_and_save_embedding, no_api_key, no_model, api_error,
  body_error, bad_response, no_choices, not_json, bad_status,
}
use distributed_cloud_system.Enrichment.Rows.{find-map-replaced}

find-none_of_any :
    (id : ℕ) (es : List EmbeddingRow)
    → any (of_embedded id) es ≡ false
    → find (of_embedded id) es ≡ none
find-none_of_any id [] h = refl
find-none_of_any id (e ∷ es) h = ground (arith, find-none_of_any id es)

-- The file's row holds the text, and no other table has changed.
abbrev pub IsSaved : ℕ → String → Database → Database → Type 0
IsSaved file json d d' =
    (find (of_embedded file) d'.embeddings ≡ some (record { file_id = file; embedding = json }))
    × (d' ≡ record d { embeddings = d'.embeddings })

-- What an upsert does to the tables, also where its answer is lost.
abbrev Upserted : ℕ → String → Database → Result Unit → Database → Type 0
Upserted file json d (ok _) d' = IsSaved file json d d'
Upserted file json d (err _) d' = (d' ≡ d) ⊎ IsSaved file json d d'

upsert_embedding-Upserted :
    (file : ℕ) (json : String) (now : ℕ) (d : Database)
    → let x = upsert_embedding file json now d in Upserted file json d x.0 x.1
unfolding upsert_embedding
upsert_embedding-Upserted file json now d =
    elim (Bool-cases (any (of_embedded file) d.embeddings)) [
      | inl old ↦ rw old (find-map-replaced file json d.embeddings old, refl)
      | inr new ↦ elim (Bool-cases (any (is_file file) d.files)) [
        | inr missing ↦ rw (new, missing) (inl refl)
        | inl there ↦
            rw (new, there)
              (
                find-append_none (of_embedded file) d.embeddings _
                      (find-none_of_any file d.embeddings new)
                    ∙ ground (arith, ==_refl file),
                refl,
              )
      ]
    ]

save_embedding-Upserted :
    (file : ℕ) (json : String) (w : World)
    → let x = save_embedding file json w in Upserted file json w.db x.0 x.1.db
unfolding save_embedding
save_embedding-Upserted file json w = elim (query_cases (upsert_embedding file json) w) [
  | inl ran ↦ rw ran (upsert_embedding-Upserted file json w.now w.db)
  | inr (inl (e, failed)) ↦ rw failed (inl refl)
  | inr (inr lost) ↦ rw lost (changed _ (upsert_embedding-Upserted file json w.now w.db))
]
  where
    changed :
        (x : Result Unit × Database)
        → Upserted file json w.db x.0 x.1
        → (x.1 ≡ w.db) ⊎ IsSaved file json w.db x.1
    changed (ok _, d) h = inr h
    changed (err _, d) h = h

-- The text that the server answered with, as the first choice of a whole response.
abbrev pub IsAnswered : (ChatRequest → HttpResult) → Json → ChatRequest → String → Type 0
IsAnswered post J r text =
    (body : Bytes) × (breaks : Bool) × (rest : List String) × (post r ≡ response 200 body breaks)
    × (J.choices (take max_body body) ≡ some (text ∷ rest))
    × (J.is_object text ≡ true)

module _ (J : Json) (file : ℕ) (w : World) where
  abbrev Ended : HttpResult → Option AiError × World → Type 0
  Ended r x =
      ((e : AiError) × (x ≡ (some e, w)))
      ⊎ ((text : String) × (body : Bytes) × (breaks : Bool) × (rest : List String) × (r
            ≡ response 200 body breaks)
          × (J.choices (take max_body body) ≡ some (text ∷ rest))
          × (J.is_object text ≡ true)
          × (x ≡ saved (save_embedding file text w)))

  on_choices-Ended :
      (body : Bytes) (breaks : Bool) (cs : Option (List String))
      → J.choices (take max_body body) ≡ cs
      → Ended (response 200 body breaks) (on_choices J file cs w)
  on_choices-Ended body breaks none e = inl (bad_response, refl)
  on_choices-Ended body breaks (some []) e = inl (no_choices, refl)
  on_choices-Ended body breaks (some (text ∷ rest)) e = elim (Bool-cases (J.is_object text)) [
    | inl valid ↦ inr (text, body, breaks, rest, refl, e, valid, rw valid refl)
    | inr invalid ↦ inl (not_json, rw invalid refl)
  ]

  on_response-Ended : (r : HttpResult) → Ended r (on_response J file r w)
  unfolding on_response
  on_response-Ended no_response = inl (api_error, refl)
  on_response-Ended (response status body breaks) =
      elim (Bool-cases (breaks && ltb (length body) max_body)) [
        | inl broken_body ↦ inl (body_error, rw broken_body refl)
        | inr whole ↦ elim (Bool-cases (status == 200)) [
          | inr other ↦ inl (bad_status status, rw (whole, other) refl)
          | inl fine ↦
              let e : status ≡ 200 = ground (arith, ==_iff status 200) in
              rw (whole, e) (on_choices-Ended body breaks (J.choices (take max_body body)) refl)
        ]
      ]

module _ (s : Settings) (post : ChatRequest → HttpResult) (J : Json) (file : ℕ) (content : Bytes)
    (w : World) where
  abbrev run : Option AiError × World
  run = generate_and_save_embedding s post J file content w

  -- The call fails before it saves, or it saves what the server has answered.
  run-ended :
      ((e : AiError) × (run ≡ (some e, w)))
      ⊎ ((text : String) × IsAnswered post J (request_of s content) text
          × (run ≡ saved (save_embedding file text w)))
  unfolding generate_and_save_embedding
  run-ended = elim (Bool-cases (str_eq s.api_key "")) [
    | inl no_key ↦ inl (no_api_key, rw no_key refl)
    | inr key ↦ elim (Bool-cases (str_eq s.model "")) [
      | inl unnamed ↦ inl (no_model, rw (key, unnamed) refl)
      | inr named ↦ elim (on_response-Ended J file w (post (request_of s content))) [
        | inl (e, failed) ↦ inl (e, rw (key, named) failed)
        | inr (text, body, breaks, rest, got, decoded, valid, done) ↦
            inr (text, (body, breaks, rest, got, decoded, valid), rw (key, named) done)
      ]
    ]
  ]

  -- What the call has done: nothing, or the saving of what the server has answered.
  abbrev pub Kept : Type 0
  Kept =
      (run.1.db ≡ w.db)
      ⊎ ((text : String) × IsAnswered post J (request_of s content) text
          × IsSaved file text w.db run.1.db)

  saved-IsSaved :
      (text : String) (x : Result Unit × World)
      → Upserted file text w.db x.0 x.1.db
      → ((saved x).1.db ≡ w.db) ⊎ IsSaved file text w.db (saved x).1.db
  saved-IsSaved text (ok _, w1) h = inr h
  saved-IsSaved text (err f, w1) h = h

  -- However the call ends, it has changed no table, or it has saved what the server has answered.
  pub generate_and_save_embedding-kept : Kept
  generate_and_save_embedding-kept = elim run-ended [
    | inl (f, failed) ↦ inl (rw failed refl)
    | inr (text, answered, done) ↦
        elim (saved-IsSaved text (save_embedding file text w)
          (save_embedding-Upserted file text w)) [
            | inl same ↦ inl (rw done same)
            | inr kept ↦ inr (text, answered, rw done kept)
          ]
  ]
