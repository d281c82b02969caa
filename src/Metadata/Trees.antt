-- ===== src/Metadata/Trees.antt =====
-- Folders and files stay in the trees of their users, however the statements of requests interleave.
use distributed_cloud_system.Base.{
  ℕ, refl, if◌then◌else◌, String, Option, List, Bool, true, false, not, arith, any, All, All-append,
  All-keep, All-map, Option-cases, inl, inr,
}
use distributed_cloud_system.Storage.World.{Database}
use distributed_cloud_system.Storage.Action.{Statement}
use distributed_cloud_system.Storage.Repository.{
  folder_exists, insert_file, update_file, delete_owned, owns_folder, owns_file, clashes,
}
use distributed_cloud_system.Storage.Chunks.{
  insert_chunk, insert_link, delete_chunk_row, delete_stale, is_stale, chunk_by_hash, at_index,
  refers_to,
}
use distributed_cloud_system.Metadata.Repository.{
  insert_folder, delete_owned_folder, folder_clashes, delete_folder_tree,
}
use distributed_cloud_system.Metadata.Tree.{IsForest}
use distributed_cloud_system.Metadata.Kept.{
  same_trees, delete_files-IsForest, set_ready-IsForest, delete_folder_tree-IsForest,
}
use distributed_cloud_system.Metadata.Checked.{
  Owned, IsGood, select_folder-Owned, insert_folder-IsForest, insert_file-IsForest,
  insert_chunk-IsForest,
}
use distributed_cloud_system.Metadata.Steps.{
  System, Change, Step, check, make_folder, make_file, make_chunk, drop_stale, change, Reach, here,
  later,
}

-- What holds of the tables of both branches.
branches :
    (P : Database → Type 0) {A : Type 0} (b : Bool) (x y : A × Database)
    → P x.1
    → P y.1
    → P (if b then x else y).1
branches P true x y h k = h
branches P false x y h k = k

Change-IsForest :
    {st : Statement Unit} (now : ℕ) (d : Database) → Change st → IsForest d → IsForest (st now d).1
unfolding delete_owned_folder delete_owned update_file delete_chunk_row insert_link
Change-IsForest now d (Change.folder_gone user folder) forest =
    branches IsForest (any (owns_folder user folder) d.folders) _ _
      (delete_folder_tree-IsForest folder d forest) forest
Change-IsForest now d (Change.file_gone user file) forest =
    branches IsForest (any (owns_file user file) d.files) _ _
      (delete_files-IsForest (owns_file user file) d forest) forest
Change-IsForest now d (Change.finish_file file size status) forest =
    set_ready-IsForest file size status now d forest
Change-IsForest now d (Change.link_chunk file chunk index) forest = branches IsForest _ _ _ forest (
    branches IsForest (any (at_index file index) d.links) _ _ forest
      (same_trees d _ refl forest.places (omega arith) forest))
Change-IsForest now d (Change.drop_chunk chunk) forest =
    branches IsForest (any (refers_to chunk) d.links) _ _ forest
      (same_trees d _ refl forest.places (omega arith) forest)

-- What has been checked stays true under each statement.
module _ (user folder : ℕ) (d : Database) (own : Owned d (user, folder)) where
  Owned-folder :
      (u : ℕ) (parent : Option ℕ) (name : String) (now : ℕ)
      → Owned (insert_folder u parent name now d).1 (user, folder)
  unfolding insert_folder
  Owned-folder u parent name now =
      branches (λ e. Owned e (user, folder)) (any (folder_clashes u parent name) d.folders) _ _ own
        (branches (λ e. Owned e (user, folder)) (not (folder_exists parent d)) _ _ own
          (
            omega (arith, own.0),
            All-append _ d.folders _ own.1 ((λ e. absurd (omega (arith, own.0))), tt),
          ))

  Owned-file :
      (u : ℕ) (o : Option ℕ) (name content_type : String) (size now : ℕ)
      → Owned (insert_file u o name content_type size now d).1 (user, folder)
  unfolding insert_file
  Owned-file u o name content_type size now =
      branches (λ e. Owned e (user, folder)) (any (clashes u o name) d.files) _ _ own
        (branches (λ e. Owned e (user, folder)) (not (folder_exists o d)) _ _ own
          (omega (arith, own.0), own.1))

  Owned-chunk : (hash size now : ℕ) → Owned (insert_chunk hash size now d).1 (user, folder)
  unfolding insert_chunk
  Owned-chunk hash size now = elim (Option-cases (chunk_by_hash hash d)) [
    | inl new ↦ rw (new, insert_chunk) (omega (arith, own.0), own.1)
    | inr (c, old) ↦ rw (old, insert_chunk) own
  ]

  Owned-Change : {st : Statement Unit} (now : ℕ) → Change st → Owned (st now d).1 (user, folder)
  unfolding delete_owned_folder delete_owned update_file delete_chunk_row insert_link
      delete_folder_tree
  Owned-Change now (Change.folder_gone u f) =
      branches (λ e. Owned e (user, folder)) (any (owns_folder u f) d.folders) _ _
        (own.0, All-keep _ _ d.folders own.1) own
  Owned-Change now (Change.file_gone u file) =
      branches (λ e. Owned e (user, folder)) (any (owns_file u file) d.files) _ _ own own
  Owned-Change now (Change.finish_file file size status) = own
  Owned-Change now (Change.link_chunk file chunk index) =
      branches (λ e. Owned e (user, folder)) _ _ _ own
        (branches (λ e. Owned e (user, folder)) (any (at_index file index) d.links) _ _ own own)
  Owned-Change now (Change.drop_chunk chunk) =
      branches (λ e. Owned e (user, folder)) (any (refers_to chunk) d.links) _ _ own own

still-Owned :
    (d d' : Database) (cs : List (ℕ × ℕ))
    → ((user folder : ℕ) → Owned d (user, folder) → Owned d' (user, folder))
    → All (Owned d) cs
    → All (Owned d') cs
still-Owned d d' cs f h = All-map _ _ cs (λ c e. f c.0 c.1 e) h

-- Every step of a request keeps the trees of folders, and what other requests have checked.
pub Step-IsGood : {s t : System} → Step s t → IsGood s → IsGood t
unfolding delete_stale
Step-IsGood (check user folder now {s} h) good = record {
  forest = good.forest;
  known = (select_folder-Owned user folder now s.tables good.forest h, good.known);
}
Step-IsGood (make_folder user parent name now {s} k) good = record {
  forest = insert_folder-IsForest user parent name now s.tables s.checks k good.known good.forest;
  known =
      still-Owned s.tables (insert_folder user parent name now s.tables).1 s.checks
        (λ u p own. Owned-folder u p s.tables own user parent name now) good.known;
}
Step-IsGood (make_file user folder name content_type size now {s} k) good = record {
  forest =
      insert_file-IsForest user folder name content_type size now s.tables s.checks k good.known
        good.forest;
  known =
      still-Owned s.tables (insert_file user folder name content_type size now s.tables).1 s.checks
        (λ u p own. Owned-file u p s.tables own user folder name content_type size now) good.known;
}
Step-IsGood (make_chunk hash size now {s}) good = record {
  forest = insert_chunk-IsForest hash size now s.tables good.forest;
  known =
      still-Owned s.tables (insert_chunk hash size now s.tables).1 s.checks
        (λ u p own. Owned-chunk u p s.tables own hash size now) good.known;
}
Step-IsGood (drop_stale min_age now {s}) good = record {
  forest = delete_files-IsForest (is_stale min_age now) s.tables good.forest;
  known = good.known;
}
Step-IsGood (change {st} now {s} c) good = record {
  forest = Change-IsForest now s.tables c good.forest;
  known =
      still-Owned s.tables (st now s.tables).1 s.checks
        (λ u p own. Owned-Change u p s.tables own now c) good.known;
}

-- From a state in which the folders make up trees that do not cross users and each ownership check
-- that has gone through is about a folder of its user, or one that is gone, every interleaving of
-- checks, insertions, deletions and the other statements of requests leads to such a state: every
-- folder and every file lies at a root or in a folder that is there and belongs to the same user.
pub Reach-IsGood : {s t : System} → Reach s t → IsGood s → IsGood t
Reach-IsGood here good = good
Reach-IsGood (later r st) good = Step-IsGood st (Reach-IsGood r good)
