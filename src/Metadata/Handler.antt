-- ===== src/Metadata/Handler.antt =====
-- internal/metadata/handler.go: the answers of the four endpoints. The user id is what the
-- authentication has put into the context.
use distributed_cloud_system.Base.{ℕ, String, Option, none, some, List, str_eq, if◌then◌else◌}
use distributed_cloud_system.Storage.World.{
  World, FileRow, FolderRow, folder_not_found, duplicate_name,
}
use distributed_cloud_system.Storage.Action.{Result, ok, err}
use distributed_cloud_system.Metadata.Repository.{Jsonb, delete_folder}
use distributed_cloud_system.Metadata.Service.{
  DirectoryContent, create_folder, list_directory, search_files,
}

-- How the body decodes: past its limit, malformed, or to a name and a parent.
pub data FolderBody : Type 0 where
  too_large malformed : FolderBody
  create_folder_request : String → Option ℕ → FolderBody

pub data Response : Type 0 where
  error : ℕ → String → Response
  created : FolderRow → Response
  directory : DirectoryContent → Response
  found : List FileRow → Response
  no_content : Response

abbrev unauthorized : Response
unauthorized = error 401 "Unauthorized"

abbrev pub folder_created : Result FolderRow → Response
folder_created (ok f) = created f
folder_created (err folder_not_found) = error 403 "parent folder not found or access denied"
folder_created (err duplicate_name) = error 409 "folder with this name already exists in directory"
folder_created (err _) = error 500 "internal server error"

abbrev pub folder_deleted : Result Unit → Response
folder_deleted (ok _) = no_content
folder_deleted (err folder_not_found) = error 403 "folder not found or access denied"
folder_deleted (err _) = error 500 "internal server error"

abbrev pub listed : Result DirectoryContent → Response
listed (ok c) = directory c
listed (err _) = error 500 "internal server error"

abbrev pub searched : Result (List FileRow) → Response
searched (ok fs) = found fs
searched (err _) = error 500 "internal server error"

-- `Handler.CreateFolder`
unfoldable pub handle_create_folder : Option ℕ → FolderBody → World → Response × World
handle_create_folder none body w = (unauthorized, w)
handle_create_folder (some user) too_large w = (error 413 "request body too large", w)
handle_create_folder (some user) malformed w = (error 400 "invalid request body", w)
handle_create_folder (some user) (create_folder_request name parent) w =
    if str_eq name ""
    then (error 400 "folder name is required", w)
    else let (r, w1) = create_folder user parent name w in (folder_created r, w1)

-- `Handler.ListDirectory`; a `folder_id` that is empty is `none`.
unfoldable pub handle_list_directory : Option ℕ → Option ℕ → World → Response × World
handle_list_directory none folder w = (unauthorized, w)
handle_list_directory (some user) folder w =
    let (r, w1) = list_directory user folder w in (listed r, w1)

-- `Handler.DeleteFolder`; the path's id may be missing.
unfoldable pub handle_delete_folder : Option ℕ → Option ℕ → World → Response × World
handle_delete_folder none folder w = (unauthorized, w)
handle_delete_folder (some user) none w = (error 400 "Invalid folder ID", w)
handle_delete_folder (some user) (some folder) w =
    let (r, w1) = delete_folder user folder w in (folder_deleted r, w1)

-- `Handler.SearchFiles`
unfoldable pub handle_search_files : (ℕ → ℕ) → Jsonb → Option ℕ → String → World → Response × World
handle_search_files fold J none search w = (unauthorized, w)
handle_search_files fold J (some user) search w =
    let (r, w1) = search_files fold J user search w in (searched r, w1)
