-- ===== src/Metadata/Service.antt =====
-- internal/metadata/service.go. A nil slice and an empty one are both `[]`.
use distributed_cloud_system.Base.{ℕ, String, Option, none, some, List, [], str_eq, if◌then◌else◌}
use distributed_cloud_system.Storage.World.{FileRow, FolderRow}
use distributed_cloud_system.Storage.Action.{Action, pure, ◌>>=◌, ◌>>◌}
use distributed_cloud_system.Metadata.Repository.{
  create_folder_row, list_folders, list_files, verify_ownership, Jsonb, search_rows,
}

pub record DirectoryContent : Type 0 where
  pub folders : List FolderRow
  pub files : List FileRow

abbrev pub check_parent : ℕ → Option ℕ → Action Unit
check_parent user none = pure tt
check_parent user (some parent) = verify_ownership user parent

-- `service.CreateFolder`; `service.DeleteFolder` is `delete_folder`.
unfoldable pub create_folder : ℕ → Option ℕ → String → Action FolderRow
create_folder user parent name = do check_parent user parent; create_folder_row user parent name

unfoldable pub list_directory : ℕ → Option ℕ → Action DirectoryContent
list_directory user folder = do
  folders ← list_folders user folder
  files ← list_files user folder
  pure (record { folders = folders; files = files })

unfoldable pub search_files : (ℕ → ℕ) → Jsonb → ℕ → String → Action (List FileRow)
search_files fold J user search =
    if str_eq search "" then pure [] else search_rows fold J user search
