-- ===== src/Storage/Repository.antt =====
-- internal/storage/repository.go: each method is its SQL statement over the tables, and the
-- translation of the driver's errors. Deletes cascade as migrations/00002 and 00003 declare.
use distributed_cloud_system.Base.{
  ℕ, suc, String, Option, none, some, [], ◌∷◌, ◌++◌, Bool, true, false, ◌&&◌, not, ◌==◌, str_eq,
  if◌then◌else◌, keep, find, any, map,
}
use distributed_cloud_system.Storage.World.{
  Database, FileRow, FolderRow, Status, uploading, Error, file_not_found, access_denied,
  duplicate_name, db, DbError, no_rows, pg_error, broken,
}
use distributed_cloud_system.Storage.Action.{ok, err, Action, Statement, query}

-- The errors of a method's statement, turned into those of the method.
abbrev pub translate : {A : Type 0} → (DbError → Error) → Action A → Action A
translate f m w =
    let (r, w') = m w in
    elim r [ ok a ↦ (ok a, w') | err e ↦ (err (elim e [ db d ↦ f d | other ↦ other ]), w') ]

unfoldable pub is_unique_violation : DbError → Bool
is_unique_violation (pg_error code) = str_eq code "23505"
is_unique_violation _ = false

-- `WHERE folder_id IS NOT DISTINCT FROM $1`.
unfoldable pub same_folder : Option ℕ → Option ℕ → Bool
same_folder none none = true
same_folder (some a) (some b) = a == b
same_folder _ _ = false

unfoldable pub clashes : ℕ → Option ℕ → String → FileRow → Bool
unfolding same_folder
clashes user folder name f =
    f.user_id == user && (same_folder f.folder_id folder && str_eq f.name name)

-- `folder_id` refers to a folder that is there.
abbrev pub is_folder : ℕ → FolderRow → Bool
is_folder folder f = f.id == folder

abbrev pub folder_exists : Option ℕ → Database → Bool
folder_exists none d = true
folder_exists (some folder) d = any (is_folder folder) d.folders

-- The two unique indexes on `files` of migrations/00007, and the foreign key of `folder_id`.
unfoldable pub insert_file : ℕ → Option ℕ → String → String → ℕ → Statement ℕ
insert_file user folder name content_type size now d =
    if any (clashes user folder name) d.files
    then (err (db (pg_error "23505")), d)
    else if not (folder_exists folder d)
    then (err (db (pg_error "23503")), d)
    else (
      ok d.next_id,
      record d {
        files =
            d.files
            ++ record {
              id = d.next_id;
              user_id = user;
              folder_id = folder;
              name = name;
              content_type = content_type;
              size = size;
              status = uploading;
              created_at = now;
              updated_at = now;
            }
              ∷ [];
        next_id = suc d.next_id;
      },
    )

abbrev pub as_duplicate : DbError → Error
as_duplicate e = if is_unique_violation e then duplicate_name else db e

unfoldable pub create_file : ℕ → Option ℕ → String → String → ℕ → Action ℕ
unfolding insert_file
create_file user folder name content_type size =
    translate as_duplicate (query (insert_file user folder name content_type size))

abbrev pub is_file : ℕ → FileRow → Bool
is_file file f = f.id == file

abbrev pub owns_file : ℕ → ℕ → FileRow → Bool
owns_file user file f = f.id == file && f.user_id == user

abbrev pub file_row : ℕ → Database → Option FileRow
file_row file d = find (is_file file) d.files

-- `FileInfo`.
pub record FileInfo : Type 0 where
  pub name : String
  pub content_type : String
  pub status : Status

abbrev pub info_of : FileRow → FileInfo
info_of f = record { name = f.name; content_type = f.content_type; status = f.status }

unfoldable pub select_file : ℕ → Statement FileInfo
select_file file now d = elim (file_row file d) [
  | none ↦ (err (db no_rows), d)
  | some f ↦ (ok (info_of f), d)
]

abbrev pub or_error : Error → DbError → Error
or_error e no_rows = e
or_error e other = db other

unfoldable pub get_file_info : ℕ → Action FileInfo
unfolding select_file
get_file_info file = translate (or_error file_not_found) (query (select_file file))

abbrev pub set_ready : ℕ → ℕ → Status → ℕ → FileRow → FileRow
set_ready file size status now f =
    if is_file file f then record f { size = size; status = status; updated_at = now } else f

unfoldable pub update_file : ℕ → ℕ → Status → Statement Unit
update_file file size status now d =
    (ok tt, record d { files = map (set_ready file size status now) d.files })

unfoldable pub update_file_size_and_status : ℕ → ℕ → Status → Action Unit
unfolding update_file
update_file_size_and_status file size status = query (update_file file size status)

abbrev pub is_gone : (FileRow → Bool) → Database → ℕ → Bool
is_gone gone d file = any (λ f. f.id == file && gone f) d.files

-- The files that pass the test, and with them their links and embeddings: `ON DELETE CASCADE`.
abbrev pub delete_files : (FileRow → Bool) → Database → Database
delete_files gone d = record d {
  files = keep (λ f. not (gone f)) d.files;
  links = keep (λ l. not (is_gone gone d l.file_id)) d.links;
  embeddings = keep (λ e. not (is_gone gone d e.file_id)) d.embeddings;
}

unfoldable pub delete_owned : ℕ → ℕ → Statement Unit
delete_owned user file now d =
    if any (owns_file user file) d.files
    then (ok tt, delete_files (owns_file user file) d)
    else (err access_denied, d)

unfoldable pub delete_file : ℕ → ℕ → Action Unit
unfolding delete_owned
delete_file user file = query (delete_owned user file)

unfoldable pub select_owned : ℕ → ℕ → Statement Unit
select_owned user file now d =
    (if any (owns_file user file) d.files then ok tt else err (db no_rows), d)

unfoldable pub verify_file_ownership : ℕ → ℕ → Action Unit
unfolding select_owned
verify_file_ownership user file =
    translate (or_error access_denied) (query (select_owned user file))

abbrev pub owns_folder : ℕ → ℕ → FolderRow → Bool
owns_folder user folder f = f.id == folder && f.user_id == user

unfoldable pub select_folder : ℕ → ℕ → Statement Unit
select_folder user folder now d =
    (if any (owns_folder user folder) d.folders then ok tt else err (db no_rows), d)

-- 22P02 is what PostgreSQL answers to an id that is no UUID.
abbrev pub as_denied : DbError → Error
as_denied no_rows = access_denied
as_denied (pg_error code) = if str_eq code "22P02" then access_denied else db (pg_error code)
as_denied broken = db broken

unfoldable pub verify_folder_ownership : ℕ → ℕ → Action Unit
unfolding select_folder
verify_folder_ownership user folder = translate as_denied (query (select_folder user folder))
