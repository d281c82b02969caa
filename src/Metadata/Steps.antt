-- ===== src/Metadata/Steps.antt =====
-- Requests that run at the same time: each statement of internal/metadata and internal/storage on the
-- tables is one step, and a request remembers the folder that its ownership check has found.
use distributed_cloud_system.Base.{ℕ, ◌≡◌, String, Option, none, some, List, ◌∷◌}
use distributed_cloud_system.Storage.World.{Database, Status}
use distributed_cloud_system.Storage.Action.{ok, Statement}
use distributed_cloud_system.Storage.Repository.{
  select_folder, insert_file, update_file, delete_owned,
}
use distributed_cloud_system.Storage.Chunks.{
  insert_chunk, insert_link, delete_chunk_row, delete_stale,
}
use distributed_cloud_system.Metadata.Repository.{insert_folder, delete_owned_folder}

pub record System : Type 0 where
  pub tables : Database
  pub checks : List (ℕ × ℕ)  -- a user and a folder, for each check that has gone through

-- The check that the code makes before it inserts: none at the root.
pub data IsChecked : List (ℕ × ℕ) → ℕ → Option ℕ → Type 0 where
  at_root : {cs : List (ℕ × ℕ)} {user : ℕ} → IsChecked cs user none
  newest :
      {cs : List (ℕ × ℕ)} {user folder : ℕ} → IsChecked ((user, folder) ∷ cs) user (some folder)
  older :
      {c : ℕ × ℕ} {cs : List (ℕ × ℕ)} {user : ℕ} {o : Option ℕ}
      → IsChecked cs user o
      → IsChecked (c ∷ cs) user o

-- The statements that need no check of a folder.
pub data Change : Statement Unit → Type 0 where
  folder_gone : (user folder : ℕ) → Change (delete_owned_folder user folder)
  file_gone : (user file : ℕ) → Change (delete_owned user file)
  finish_file : (file size : ℕ) (status : Status) → Change (update_file file size status)
  link_chunk : (file chunk index : ℕ) → Change (insert_link file chunk index)
  drop_chunk : (chunk : ℕ) → Change (delete_chunk_row chunk)

pub data Step : System → System → Type 0 where
  check :
      (user folder now : ℕ) {s : System}
      → (select_folder user folder now s.tables).0 ≡ ok tt
      → Step s (record s { checks = (user, folder) ∷ s.checks })
  make_folder :
      (user : ℕ) (parent : Option ℕ) (name : String) (now : ℕ) {s : System}
      → IsChecked s.checks user parent
      → Step s (record s { tables = (insert_folder user parent name now s.tables).1 })
  make_file :
      (user : ℕ) (folder : Option ℕ) (name content_type : String) (size now : ℕ) {s : System}
      → IsChecked s.checks user folder
      → Step s
          (record s { tables = (insert_file user folder name content_type size now s.tables).1 })
  make_chunk :
      (hash size now : ℕ) {s : System}
      → Step s (record s { tables = (insert_chunk hash size now s.tables).1 })
  drop_stale :
      (min_age now : ℕ) {s : System}
      → Step s (record s { tables = (delete_stale min_age now s.tables).1 })
  change :
      {st : Statement Unit} (now : ℕ) {s : System}
      → Change st
      → Step s (record s { tables = (st now s.tables).1 })

pub data Reach : System → System → Type 0 where
  here : {s : System} → Reach s s
  later : {s t u : System} → Reach s t → Step t u → Reach s u

pub joined : {s t u : System} → Reach s t → Reach t u → Reach s u
joined r here = r
joined r (later r' st) = later (joined r r') st
