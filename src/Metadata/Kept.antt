-- ===== src/Metadata/Kept.antt =====
-- The trees of folders under the statements that add, change and delete rows.
use distributed_cloud_system.Base.{
  ℕ, ◌≤◌, ◌<◌, ◌≡◌, refl, ◌∙◌, subst, Option, none, some, List, [], ◌∷◌, ◌++◌, Bool, true, false,
  not, arith, ==_refl, keep, find, map, All, All-append, All-keep, All-map, All-keep_where,
  All-both, All-over_map, Bool-cases, inl, inr,
}
use distributed_cloud_system.Storage.World.{Database, FileRow, FolderRow, Status}
use distributed_cloud_system.Storage.Repository.{is_folder, set_ready, is_file, delete_files}
use distributed_cloud_system.Storage.Proofs.Tables.{find-append, find-append_none, All-of_find}
use distributed_cloud_system.Metadata.Repository.{
  with_folder, is_doomed, lies_in, delete_folder_tree,
}
use distributed_cloud_system.Metadata.Tree.{
  LiesIn, IsAfter, IsForest, find-id, find-keep, kept_parent,
}

LiesIn-append :
    (fs gs : List FolderRow) (user : ℕ) (o : Option ℕ) → LiesIn fs user o → LiesIn (fs ++ gs) user o
LiesIn-append fs gs user none h = tt
LiesIn-append fs gs user (some folder) h =
    let (g, there, own) = h in (g, find-append (is_folder folder) fs gs g there, own)

-- A folder that is there has a smaller id than those to come.
LiesIn-IsAfter :
    (d : Database) (user : ℕ) (o : Option ℕ)
    → IsForest d
    → LiesIn d.folders user o
    → IsAfter d.next_id o
LiesIn-IsAfter d user none ok h = tt
LiesIn-IsAfter d user (some folder) ok h =
    let (g, there, own) = h in
    let small : g.id < d.next_id =
      All-of_find (is_folder folder) (λ (f : FolderRow). f.id < d.next_id) d.folders g ok.ids
        there in
    omega (arith, find-id d.folders folder g there)

fresh_folder :
    (fs : List FolderRow) (n : ℕ)
    → All (λ (f : FolderRow). f.id < n) fs
    → find (is_folder n) fs ≡ none
fresh_folder [] n h = refl
fresh_folder (f ∷ fs) n h = ground (arith, fresh_folder fs n h.1)

pub with_folder-IsForest :
    (f : FolderRow) (d : Database)
    → f.id ≡ d.next_id
    → LiesIn d.folders f.user_id f.parent_id
    → IsForest d
    → IsForest (with_folder f d)
with_folder-IsForest f d fresh under ok = record {
  ids =
      All-append _ d.folders (f ∷ []) (All-map _ _ d.folders (λ g e. omega arith) ok.ids)
        (omega arith, tt);
  parents =
      All-append _ d.folders (f ∷ [])
        (All-map _ _ d.folders (λ g e. LiesIn-append d.folders (f ∷ []) g.user_id g.parent_id e)
          ok.parents)
        (LiesIn-append d.folders (f ∷ []) f.user_id f.parent_id under, tt);
  order =
      All-append _ d.folders (f ∷ []) ok.order
        (rw fresh (LiesIn-IsAfter d f.user_id f.parent_id ok under), tt);
  unique =
      All-append _ d.folders (f ∷ [])
        (All-map _ _ d.folders (λ g e. find-append (is_folder g.id) d.folders (f ∷ []) g e)
          ok.unique)
        (
          find-append_none (is_folder f.id) d.folders (f ∷ [])
                (rw fresh (fresh_folder d.folders d.next_id ok.ids))
              ∙ ground (arith, ==_refl f.id),
          tt,
        );
  places =
      All-map _ _ d.files (λ g e. LiesIn-append d.folders (f ∷ []) g.user_id g.folder_id e)
        ok.places;
}

-- What the trees depend on: the folders, the files and the ids to come.
pub same_trees :
    (d d' : Database)
    → d'.folders ≡ d.folders
    → All (λ (f : FileRow). LiesIn d.folders f.user_id f.folder_id) d'.files
    → d.next_id ≤ d'.next_id
    → IsForest d
    → IsForest d'
same_trees d d' same files le ok = record {
  ids = rw same (All-map _ _ d.folders (λ g e. omega arith) ok.ids);
  parents = rw same ok.parents;
  order = rw same ok.order;
  unique = rw same ok.unique;
  places = rw same files;
}

pub delete_files-IsForest :
    (gone : FileRow → Bool) (d : Database) → IsForest d → IsForest (delete_files gone d)
delete_files-IsForest gone d ok =
    same_trees d (delete_files gone d) refl (All-keep _ (λ f. not (gone f)) d.files ok.places)
      (omega arith) ok

pub set_ready-IsForest :
    (file size : ℕ) (status : Status) (now : ℕ) (d : Database)
    → IsForest d
    → IsForest (record d { files = map (set_ready file size status now) d.files })
set_ready-IsForest file size status now d ok =
    same_trees d _ refl
      (All-over_map _ (set_ready file size status now) d.files (
        All-map _ _ d.files
          (λ f e. elim (Bool-cases (is_file file f)) [ inl q ↦ rw q e | inr q ↦ rw q e ])
          ok.places))
      (omega arith) ok

-- The folders that are left after a deletion, and those that go with the root.
module _ (root : ℕ) (d : Database) where
  abbrev stays : FolderRow → Bool
  stays f = not (is_doomed root d.folders f)

  LiesIn-stays :
      (user : ℕ) (o : Option ℕ)
      → LiesIn d.folders user o
      → ((folder : ℕ) (g : FolderRow)
          → o ≡ some folder
          → find (is_folder folder) d.folders ≡ some g
          → stays g ≡ true)
      → LiesIn (keep stays d.folders) user o
  LiesIn-stays user none h safe = tt
  LiesIn-stays user (some folder) h safe =
      let (g, there, own) = h in
      (g, find-keep stays folder d.folders g there (safe folder g refl there), own)

  lies_in-stays :
      (folder : ℕ) (fs : List FolderRow) (g : FolderRow)
      → find (is_folder folder) fs ≡ some g
      → lies_in (is_doomed root d.folders) fs (some folder) ≡ false
      → stays g ≡ true
  lies_in-stays folder [] g there h = ground arith
  lies_in-stays folder (f ∷ fs) g there h = elim (Bool-cases (is_folder folder f)) [
    | inl here ↦ let same : f ≡ g = cc (rw here at there) in rw (← same) (ground (arith, here, h))
    | inr later ↦ lies_in-stays folder fs g (rw later at there) (ground (arith, later, h))
  ]

  -- A folder that stays lies in one that stays.
  parent_stays :
      (f : FolderRow)
      → stays f ≡ true
      → LiesIn d.folders f.user_id f.parent_id
      → IsAfter f.id f.parent_id
      → LiesIn (keep stays d.folders) f.user_id f.parent_id
  parent_stays f kept under after = LiesIn-stays f.user_id f.parent_id under (λ folder g p there.
      let before : folder < f.id = subst (IsAfter f.id) p after in
      let e = kept_parent root d.folders f g folder p there before (ground (arith, kept)) in
      rw e refl)

  file_stays :
      (f : FileRow)
      → not (lies_in (is_doomed root d.folders) d.folders f.folder_id) ≡ true
      → LiesIn d.folders f.user_id f.folder_id
      → LiesIn (keep stays d.folders) f.user_id f.folder_id
  file_stays f kept under = LiesIn-stays f.user_id f.folder_id under (λ folder g p there.
      lies_in-stays folder d.folders g there (
        subst (λ (o : Option ℕ). lies_in (is_doomed root d.folders) d.folders o ≡ false) p
          (ground (arith, kept))))

  pub delete_folder_tree-IsForest : IsForest d → IsForest (delete_folder_tree root d)
  unfolding delete_folder_tree
  delete_folder_tree-IsForest ok = record {
    ids = All-keep _ stays d.folders ok.ids;
    parents =
        All-keep_where _ _ stays d.folders (λ f kept h. parent_stays f kept h.0 h.1)
          (All-both _ _ d.folders ok.parents ok.order);
    order = All-keep _ stays d.folders ok.order;
    unique =
        All-keep_where _ _ stays d.folders (λ f kept h. find-keep stays f.id d.folders f h kept)
          ok.unique;
    places =
        All-keep_where _ _ (λ f. not (lies_in (is_doomed root d.folders) d.folders f.folder_id))
          d.files (λ f kept h. file_stays f kept h) ok.places;
  }
