-- ===== src/Metadata/Tests.antt =====
-- Runs of internal/metadata on small data, and its theorems at concrete inputs.
use distributed_cloud_system.Base.{
  ℕ, ◌+◌, ◌≡◌, refl, some, none, List, [], ◌∷◌, true, false, ◌<◌, ltb, ◌&&◌, if◌then◌else◌, arith,
  inl, length,
}
use distributed_cloud_system.Storage.World.{World, Database, FolderRow, FileRow, ready}
use distributed_cloud_system.Storage.Action.{ok, advance}
use distributed_cloud_system.Storage.Repository.{select_folder}
use distributed_cloud_system.Storage.Chunks.{query_rows}
use distributed_cloud_system.Metadata.Like.{anywhere, escape, ilike, any_end}
use distributed_cloud_system.Metadata.Literal.{holds, begins_with, ilike-escape}
use distributed_cloud_system.Metadata.Repository.{
  Jsonb, delete_owned_folder, insert_folder, search_rows, hits,
}
use distributed_cloud_system.Metadata.Service.{search_files}
use distributed_cloud_system.Metadata.Handler.{
  create_folder_request, handle_create_folder, handle_delete_folder,
}
use distributed_cloud_system.Metadata.Tree.{IsForest}
use distributed_cloud_system.Metadata.Checked.{IsGood}
use distributed_cloud_system.Metadata.Steps.{
  System, Reach, here, later, check, make_folder, change, Change, newest,
}
use distributed_cloud_system.Metadata.Trees.{Reach-IsGood}
use distributed_cloud_system.Metadata.Requests.{state, handlers-Reach}
use distributed_cloud_system.Metadata.Found.{IsAnswer, search_files-IsAnswer}
use distributed_cloud_system.Metadata.Complete.{IsIn, search_files_complete}
use distributed_cloud_system.Metadata.Denied.{Refused, foreign-Refused}

-- The small letters of ASCII for the capitals.
abbrev lower : ℕ → ℕ
lower c = if ltb 64 c && ltb c 91 then c + 32 else c

abbrev no_tags : Jsonb
no_tags = record { has_tag = λ _ _. false; summary = λ _. none; tags = λ _. none }

ilike-escape_example :
    ilike lower (anywhere (escape "50%")) "Up 50% more" ≡ holds lower "50%" "Up 50% more"
ilike-escape_example = ilike-escape lower "50%" "Up 50% more"

finds_wildcard : holds lower "_A" "x_a" ≡ true
unfolding holds begins_with any_end
finds_wildcard = refl

abbrev photos : FolderRow
photos = record {
  id = 1;
  user_id = 7;
  parent_id = none;
  name = "photos";
  created_at = 3;
  updated_at = 3;
}

abbrev notes : FileRow
notes = record {
  id = 2;
  user_id = 7;
  folder_id = some 1;
  name = "Notes.txt";
  content_type = "text/plain";
  size = 3;
  status = ready;
  created_at = 4;
  updated_at = 4;
}

abbrev tables : Database
tables = record {
  folders = photos ∷ [];
  files = notes ∷ [];
  chunks = [];
  links = [];
  embeddings = [];
  next_id = 3;
}

abbrev small : World
small = record { db = tables; objects = λ _. none; published = []; now = 9; plan = [] }

tables-IsForest : IsForest tables
tables-IsForest = record {
  ids = (omega arith, tt);
  parents = (tt, tt);
  order = (tt, tt);
  unique = (refl, tt);
  places = ((photos, refl, refl), tt);
}

found_photos : (select_folder 7 1 9 tables).0 ≡ ok tt
unfolding select_folder
found_photos = refl

-- A request checks a folder, another deletes it, and then the first one inserts.
abbrev raced : System
raced =
    state (insert_folder 7 (some 1) "new" 9 (delete_owned_folder 7 1 9 tables).1).1 ((7, 1) ∷ [])

race : Reach (state tables []) raced
race =
    later (later (later here (check 7 1 9 found_photos)) (change 9 (Change.folder_gone 7 1)))
      (make_folder 7 (some 1) "new" 9 newest)

Reach-IsGood_example : IsGood raced
Reach-IsGood_example = Reach-IsGood race (record { forest = tables-IsForest; known = tt })

handlers-Reach_example :
    ((ds : List (ℕ × ℕ)) × Reach (state tables []) (
        state (handle_create_folder (some 7) (create_folder_request "new" (some 1)) small).1.db ds))
    × Reach (state tables []) (state (handle_delete_folder (some 7) (some 1) small).1.db [])
handlers-Reach_example =
    handlers-Reach (some 7) (create_folder_request "new" (some 1)) (some 1) [] small

search_runs : search_files lower no_tags 7 "NOTE" small ≡ (ok (notes ∷ []), small)
unfolding search_files search_rows query_rows hits ilike escape any_end
search_runs = refl

search_files-IsAnswer_example : IsAnswer 7 (notes ∷ [])
search_files-IsAnswer_example =
    search_files-IsAnswer lower no_tags 7 "NOTE" small small (notes ∷ []) search_runs

notes_held : holds lower "NOTE" "Notes.txt" ≡ true
unfolding holds begins_with any_end
notes_held = refl

search_files_complete_example :
    (fs : List FileRow) × (search_files lower no_tags 7 "NOTE" small ≡ (ok fs, advance small))
    × (length fs < 200 → IsIn notes fs)
search_files_complete_example =
    search_files_complete lower no_tags 7 "NOTE" notes small refl refl (inl refl) refl refl
      notes_held

foreign-Refused_example :
    Refused tables (handle_create_folder (some 8) (create_folder_request "new" (some 1)) small)
    × Refused tables (handle_delete_folder (some 8) (some 1) small)
foreign-Refused_example = foreign-Refused 8 1 "new" small refl
