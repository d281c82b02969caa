-- ===== src/Metadata/Repository.antt =====
-- internal/metadata/repository.go: each method is its SQL statement over the tables of
-- Storage/World. A `File` is a row of `files` and a `Folder` a row of `folders`.
use distributed_cloud_system.Base.{
  ℕ, zero, suc, String, Option, none, some, List, [], ◌∷◌, ◌++◌, Bool, true, false, ◌&&◌, ◌||◌, not,
  ◌==◌, str_eq, if◌then◌else◌, ltb, keep, find, any, take,
}
use distributed_cloud_system.Storage.World.{
  Database, FileRow, FolderRow, EmbeddingRow, uploading, ready, Error, folder_not_found, db,
  DbError, no_rows, pg_error, broken,
}
use distributed_cloud_system.Storage.Action.{ok, err, Action, Statement, query}
use distributed_cloud_system.Storage.Repository.{
  translate, as_duplicate, same_folder, is_folder, folder_exists, owns_folder, select_folder,
  delete_files,
}
use distributed_cloud_system.Storage.Chunks.{query_rows}
use distributed_cloud_system.Metadata.Like.{escape, anywhere, ilike}

unfoldable pub folder_clashes : ℕ → Option ℕ → String → FolderRow → Bool
folder_clashes user parent name f =
    f.user_id == user && (same_folder f.parent_id parent && str_eq f.name name)

abbrev pub new_folder : ℕ → Option ℕ → String → ℕ → Database → FolderRow
new_folder user parent name now d = record {
  id = d.next_id;
  user_id = user;
  parent_id = parent;
  name = name;
  created_at = now;
  updated_at = now;
}

abbrev pub with_folder : FolderRow → Database → Database
with_folder f d = record d { folders = d.folders ++ f ∷ []; next_id = suc d.next_id }

-- The two unique indexes on `folders` of migrations/00007, and the foreign key of `parent_id`.
unfoldable pub insert_folder : ℕ → Option ℕ → String → Statement FolderRow
insert_folder user parent name now d =
    if any (folder_clashes user parent name) d.folders
    then (err (db (pg_error "23505")), d)
    else if not (folder_exists parent d)
    then (err (db (pg_error "23503")), d)
    else (ok (new_folder user parent name now d), with_folder (new_folder user parent name now d) d)

-- `repository.CreateFolder`
unfoldable pub create_folder_row : ℕ → Option ℕ → String → Action FolderRow
unfolding insert_folder
create_folder_row user parent name = translate as_duplicate (query (insert_folder user parent name))

abbrev pub in_directory : ℕ → Option ℕ → FolderRow → Bool
in_directory user parent f = f.user_id == user && same_folder f.parent_id parent

-- `repository.ListFolders`
unfoldable pub list_folders : ℕ → Option ℕ → Action (List FolderRow)
list_folders user parent = query_rows (λ w. keep (in_directory user parent) w.db.folders)

-- Whether a folder is `root` or lies under it. A folder is made after the one it lies in, so that
-- its id bounds the number of folders above it.
unfoldable pub lies_under : ℕ → ℕ → List FolderRow → FolderRow → Bool
lies_under zero root fs f = is_folder root f
lies_under (suc fuel) root fs f = is_folder root f || (elim f.parent_id [
  | none ↦ false
  | some parent ↦ elim (find (is_folder parent) fs) [
    | none ↦ false
    | some g ↦ lies_under fuel root fs g
  ]
])

abbrev pub is_doomed : ℕ → List FolderRow → FolderRow → Bool
is_doomed root fs f = lies_under f.id root fs f

abbrev pub lies_in : (FolderRow → Bool) → List FolderRow → Option ℕ → Bool
lies_in doomed fs none = false
lies_in doomed fs (some folder) = any (λ f. is_folder folder f && doomed f) fs

-- The row and, by `ON DELETE CASCADE`, the folders under it and the files in all of them.
unfoldable pub delete_folder_tree : ℕ → Database → Database
unfolding lies_under
delete_folder_tree root d =
    let doomed = is_doomed root d.folders in
    let d1 = delete_files (λ f. lies_in doomed d.folders f.folder_id) d in
    record d1 { folders = keep (λ f. not (doomed f)) d.folders }

-- `RowsAffected() == 0` where there is no such folder of the user.
unfoldable pub delete_owned_folder : ℕ → ℕ → Statement Unit
delete_owned_folder user folder now d =
    if any (owns_folder user folder) d.folders
    then (ok tt, delete_folder_tree folder d)
    else (err folder_not_found, d)

-- `repository.DeleteFolder`
unfoldable pub delete_folder : ℕ → ℕ → Action Unit
unfolding delete_owned_folder
delete_folder user folder = query (delete_owned_folder user folder)

-- `isInvalidTextRepresentation`: 22P02 is what PostgreSQL answers to an id that is no UUID.
abbrev pub is_invalid_text_representation : DbError → Bool
is_invalid_text_representation (pg_error code) = str_eq code "22P02"
is_invalid_text_representation _ = false

abbrev pub as_not_found : DbError → Error
as_not_found no_rows = folder_not_found
as_not_found (pg_error code) =
    if is_invalid_text_representation (pg_error code) then folder_not_found else db (pg_error code)
as_not_found broken = db broken

-- `repository.VerifyFolderOwnership`
unfoldable pub verify_ownership : ℕ → ℕ → Action Unit
verify_ownership user folder = translate as_not_found (query (select_folder user folder))

abbrev pub is_ready : FileRow → Bool
is_ready f = elim f.status [ ready ↦ true | uploading ↦ false ]

abbrev pub is_listed : ℕ → Option ℕ → FileRow → Bool
is_listed user folder f = f.user_id == user && (same_folder f.folder_id folder && is_ready f)

-- `repository.ListFiles`
unfoldable pub list_files : ℕ → Option ℕ → Action (List FileRow)
list_files user folder = query_rows (λ w. keep (is_listed user folder) w.db.files)

abbrev pub max_search_results : ℕ
max_search_results = 200

-- What the search uses of `jsonb`, on the text of a document: whether its tags hold a text, and the
-- texts of its summary and of its tags.
pub record Jsonb : Type 0 where
  pub has_tag : String → String → Bool
  pub summary : String → Option String
  pub tags : String → Option String

-- ORDER BY f.created_at DESC, f.id
abbrev pub comes_first : FileRow → FileRow → Bool
comes_first f g = ltb g.created_at f.created_at || (f.created_at == g.created_at && ltb f.id g.id)

unfoldable pub place_file : FileRow → List FileRow → List FileRow
place_file f [] = f ∷ []
place_file f (g ∷ gs) =
    let rest = place_file f gs in if comes_first f g then f ∷ g ∷ gs else g ∷ rest

unfoldable pub newest_first : List FileRow → List FileRow
newest_first [] = []
newest_first (f ∷ fs) = place_file f (newest_first fs)

module _ (fold : ℕ → ℕ) (J : Jsonb) where
  abbrev pub null_ilike : Option String → String → Bool
  null_ilike none pattern = false
  null_ilike (some text) pattern = ilike fold pattern text

  -- The condition on a row of the join, whose embedding may be NULL.
  abbrev pub embedding_matches : String → Option EmbeddingRow → Bool
  embedding_matches search none = false
  embedding_matches search (some e) =
      J.has_tag e.embedding search
      || (null_ilike (J.summary e.embedding) (anywhere (escape search))
          || null_ilike (J.tags e.embedding) (anywhere (escape search)))

  abbrev pub embedding_of : ℕ → Database → Option EmbeddingRow
  embedding_of file d = find (λ e. e.file_id == file) d.embeddings

  abbrev pub is_hit : ℕ → String → Database → FileRow → Bool
  is_hit user search d f =
      f.user_id == user
      && (is_ready f
          && (ilike fold (anywhere (escape search)) f.name
              || embedding_matches search (embedding_of f.id d)))

  unfoldable pub hits : ℕ → String → Database → List FileRow
  unfolding newest_first place_file
  hits user search d = take max_search_results (newest_first (keep (is_hit user search d) d.files))

  -- `repository.SearchFiles`
  unfoldable pub search_rows : ℕ → String → Action (List FileRow)
  search_rows user search = query_rows (λ w. hits user search w.db)
