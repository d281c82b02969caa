-- ===== src/Storage/Handler.antt =====
-- internal/storage/handler.go: the answers of the three endpoints. The user id is what the
-- authentication has put into the context; the form is what `ParseMultipartForm` and `FormFile` give.
pub mod Served
pub mod Unswept
use distributed_cloud_system.Base.{
  ℕ, String, Option, none, some, List, [], ◌∷◌, Bool, str_eq, if◌then◌else◌,
}
use distributed_cloud_system.Storage.World.{
  World, Bytes, Error, access_denied, file_not_found, duplicate_name,
}
use distributed_cloud_system.Storage.Action.{Result, ok, err}
use distributed_cloud_system.Storage.Repository.{FileInfo, delete_file}
use distributed_cloud_system.Storage.Reader.{Copied, prepend, load, copy_all}
use distributed_cloud_system.Storage.Service.{Stream, Download, upload_file, download_file}

-- The form of an upload; a `folder_id` that is empty is `none`.
pub data Form : Type 0 where
  bad_form no_file : Form
  form : Option ℕ → String → Stream → Form

-- A status with a message, the id of a new file, or a file: its content type and what `io.Copy`
-- writes after the status.
pub data Response : Type 0 where
  error : ℕ → String → Response
  created : ℕ → Response
  no_content : Response
  served : String → Copied → Response

abbrev pub uploaded : Result ℕ → Response
uploaded (ok file) = created file
uploaded (err access_denied) = error 403 "folder not found or access denied"
uploaded (err duplicate_name) = error 409 "a file with this name already exists in this directory"
uploaded (err _) = error 500 "internal server error"

abbrev pub refused : Error → Response
refused access_denied = error 403 "file not found or access denied"
refused file_not_found = error 403 "file not found or access denied"
refused _ = error 500 "internal server error"

abbrev pub deleted : Result Unit → Response
deleted (ok _) = no_content
deleted (err e) = refused e

abbrev pub content_type_or_default : String → String
content_type_or_default t = if str_eq t "" then "application/octet-stream" else t

abbrev unauthorized : Response
unauthorized = error 401 "Unauthorized"

-- `Handler.DeleteFile`; the path's id may be missing.
unfoldable pub handle_delete : Option ℕ → Option ℕ → World → Response × World
handle_delete none file w = (unauthorized, w)
handle_delete (some user) none w = (error 400 "Invalid file ID", w)
handle_delete (some user) (some file) w = let (r, w1) = delete_file user file w in (deleted r, w1)

module _ (sha : Bytes → ℕ) where
  -- `Handler.UploadFile`
  unfoldable pub handle_upload :
      (Bytes → String) → Bool → Option ℕ → Form → World → Response × World
  handle_upload detect_content_type has_publisher none f w = (unauthorized, w)
  handle_upload detect_content_type has_publisher (some user) bad_form w =
      (error 400 "Error parsing form data or file too large (max 100MB)", w)
  handle_upload detect_content_type has_publisher (some user) no_file w =
      (error 400 "File not present in request", w)
  handle_upload detect_content_type has_publisher (some user) (form folder name stream) w =
      let (r, w1) = upload_file sha detect_content_type has_publisher user folder name stream w in
      (uploaded r, w1)

  -- What the copy writes once a first byte has been peeked, where the first chunk is `b`.
  abbrev pub with_first :
      Bytes
      → (World → Option Copied × World)
      → (World → Copied × World)
      → World
      → Option Copied × World
  with_first [] peek copy w = peek w
  with_first (b ∷ bs) peek copy w = let (c, w1) = copy w in (some (prepend (b ∷ bs) c), w1)

  abbrev pub peek_next :
      Result Bytes × World
      → (World → Option Copied × World)
      → (World → Copied × World)
      → Option Copied × World
  peek_next (err e, w) peek copy = (none, w)
  peek_next (ok b, w) peek copy = with_first b peek copy w

  -- `buffered.Peek(1)` and, unless it fails, `io.Copy(w, buffered)`.
  unfoldable pub peek_and_copy : List ℕ → World → Option Copied × World
  peek_and_copy [] w = (some (record { out = []; ended = ok tt }), w)
  peek_and_copy (h ∷ hs) w =
      peek_next (load sha h w) (λ w1. peek_and_copy hs w1) (λ w1. copy_all sha hs w1)

  abbrev pub peeked : String → Option Copied → Response
  peeked content_type none = error 500 "internal server error"
  peeked content_type (some c) = served (content_type_or_default content_type) c

  abbrev pub serve : Result Download × World → Response × World
  serve (err e, w) = (refused e, w)
  serve (ok (hs, info), w) = let (c, w1) = peek_and_copy hs w in (peeked info.content_type c, w1)

  -- `Handler.DownloadFile`
  unfoldable pub handle_download : Option ℕ → Option ℕ → World → Response × World
  unfolding peek_and_copy
  handle_download none file w = (unauthorized, w)
  handle_download (some user) none w = (error 400 "Invalid file ID", w)
  handle_download (some user) (some file) w = serve (download_file user file w)
