-- ===== src/Worker/Processed.antt =====
-- What the processing of an event does to the tables.
use distributed_cloud_system.Base.{ℕ, ◌≡◌, refl, sym, ap, ◌∙◌, String, some, List, false, ◌⊎◌}
use distributed_cloud_system.Storage.World.{World, Bytes, FileRow, Database}
use distributed_cloud_system.Storage.Action.{Result, ok, err}
use distributed_cloud_system.Storage.Repository.{file_row, FileInfo}
use distributed_cloud_system.Storage.Service.{Download, download_file_internal}
use distributed_cloud_system.Storage.Proofs.Reads.{
  download_file_internal-Reads, download_file_internal-info,
}
use distributed_cloud_system.Enrichment.Service.{
  Settings, ChatRequest, HttpResult, Json, request_of, generate_and_save_embedding,
}
use distributed_cloud_system.Enrichment.Saved.{IsAnswered, IsSaved}
use distributed_cloud_system.Worker.ContentType.{MediaTypes, is_textual_content_type}
use distributed_cloud_system.Worker.Reading.{read_up_to}
use distributed_cloud_system.Worker.Processor.{
  Utf8, Processed, no_error, download_error, buffer_size, Enrich, on_download,
  process_file_uploaded,
}

module _ (U : Utf8) (M : MediaTypes) (sha : Bytes → ℕ) (file : ℕ) where
  abbrev process : Enrich → World → Processed × World
  process enrich = process_file_uploaded U enrich file M sha

  -- The answer for a file that is not text: no error, or that of the database.
  abbrev pub IsSkipped : Database → Processed × World → Type 0
  IsSkipped d (no_error, w) = w.db ≡ d
  IsSkipped d (download_error e, w) = w.db ≡ d
  IsSkipped d _ = ⊥

  -- A file whose stored type is not textual is never summarised: whatever fails, its event ends
  -- without an error or with that of the database, the tables stay as they are, and the enrichment has
  -- no influence.
  pub process_file_uploaded-IsSkipped :
      (enrich other : Enrich) (w : World) (f : FileRow)
      → file_row file w.db ≡ some f
      → is_textual_content_type M f.content_type ≡ false
      → IsSkipped w.db (process enrich w) × (process enrich w ≡ process other w)
  unfolding process_file_uploaded on_download
  process_file_uploaded-IsSkipped enrich other w f found not_text =
      go (download_file_internal file w) refl (download_file_internal-Reads file w)
    where
      same_row : (g : FileRow) → file_row file w.db ≡ some g → f ≡ g
      same_row g there = let e : some f ≡ some g = sym found ∙ there in cc

      go :
          (x : Result Download × World)
          → download_file_internal file w ≡ x
          → x.1.db ≡ w.db
          → IsSkipped w.db (on_download U enrich file M sha x)
            × (on_download U enrich file M sha x ≡ on_download U other file M sha x)
      go (err e, w1) p same = (same, refl)
      go (ok (hs, info), w1) p same =
          let (g, there, seen) = download_file_internal-info file w hs info w1 p in
          let e : is_textual_content_type M info.content_type ≡ false =
            rw (ap (λ (i : FileInfo). i.content_type) seen) (rw (← same_row g there) not_text) in
          rw e (same, refl)

module _ (s : Settings) (post : ChatRequest → HttpResult) (J : Json) (U : Utf8) (M : MediaTypes)
    (sha : Bytes → ℕ) (file : ℕ) where
  abbrev enrich : Enrich
  enrich file content w = generate_and_save_embedding s post J file content w

  -- What has been done to the tables: nothing, or the file's row holds the answer to a request for
  -- some content, and no other table has changed.
  abbrev pub Did : (Bytes → Type 0) → Database → Processed × World → Type 0
  Did Source d x =
      (x.1.db ≡ d)
      ⊎ ((content : Bytes) × (text : String) × Source content
          × IsAnswered post J (request_of s (U.to_valid content)) text
          × IsSaved file text d x.1.db)

  -- The beginning of the file, as much as the buffer holds.
  abbrev pub IsBeginning : World → Bytes → Type 0
  IsBeginning w content =
      (hs : List ℕ) × (info : FileInfo) × (w1 : World) × (download_file_internal file w
        ≡ (ok (hs, info), w1))
      × ((read_up_to sha buffer_size hs w1).0.out ≡ content)
