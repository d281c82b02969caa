-- ===== src/Metadata/Checked.antt =====
-- What an ownership check knows, and the insertions that rely on it.
use distributed_cloud_system.Base.{
  ℕ, ◌<◌, ◌≡◌, refl, sym, subst, ◌∙◌, String, Option, none, some, List, [], ◌∷◌, Bool, true, arith,
  ==_iff, find, any, All, All-append, All-map, Bool-cases, Option-cases, inl, inr,
}
use distributed_cloud_system.Storage.World.{Database, FolderRow, db, no_rows}
use distributed_cloud_system.Storage.Action.{Result, ok, err}
use distributed_cloud_system.Storage.Repository.{
  is_folder, folder_exists, select_folder, insert_file, owns_folder, clashes,
}
use distributed_cloud_system.Storage.Chunks.{insert_chunk, chunk_by_hash}
use distributed_cloud_system.Storage.Proofs.Tables.{find-of_any, All-of_find}
use distributed_cloud_system.Metadata.Repository.{insert_folder, new_folder, folder_clashes}
use distributed_cloud_system.Metadata.Tree.{LiesIn, IsForest, find-id}
use distributed_cloud_system.Metadata.Kept.{with_folder-IsForest, same_trees}
use distributed_cloud_system.Metadata.Steps.{System, IsChecked, newest, older}

-- A folder, if it is there, is the user's; its id has been given out.
abbrev pub Owned : Database → ℕ × ℕ → Type 0
Owned d (user, folder) =
    (folder < d.next_id) × All (λ (f : FolderRow). f.id ≡ folder → f.user_id ≡ user) d.folders

pub record IsGood (s : System) : Type 0 where
  pub forest : IsForest s.tables
  pub known : All (Owned s.tables) s.checks

found_passes : {A : Type 0} (p : A → Bool) (xs : List A) (x : A) → find p xs ≡ some x → p x ≡ true
found_passes p [] x h = ground arith
found_passes p (y ∷ xs) x h = ground (arith, found_passes p xs x)

-- A check that goes through has found a folder of the user.
pub select_folder-Owned :
    (user folder now : ℕ) (d : Database)
    → IsForest d
    → (select_folder user folder now d).0 ≡ ok tt
    → Owned d (user, folder)
unfolding select_folder
select_folder-Owned user folder now d forest h =
    elim (Bool-cases (any (owns_folder user folder) d.folders)) [
      | inr missing ↦
          absurd (let e : Path (Result Unit) (err (db no_rows)) (ok tt) = rw missing at h in cc)
      | inl present ↦
          let (g, there) = find-of_any (owns_folder user folder) d.folders present in
          let owns = found_passes (owns_folder user folder) d.folders g there in
          let same : g.id ≡ folder = ground (arith, ==_iff g.id folder) in
          let own : g.user_id ≡ user = ground (arith, ==_iff g.user_id user) in
          let one =
            All-of_find _ (λ (f : FolderRow). find (is_folder f.id) d.folders ≡ some f) d.folders g
              forest.unique there in
          let small =
            All-of_find _ (λ (f : FolderRow). f.id < d.next_id) d.folders g forest.ids there in
          (
            omega arith,
            All-map _ _ d.folders
                (λ f e u.
                  let q : f ≡ g =
                    some_eq f g (sym (found_at f folder u e) ∙ found_at g folder same one) in
                  rw q own)
                forest.unique,
          )
    ]
  where
    some_eq : (f g : FolderRow) → some f ≡ some g → f ≡ g
    some_eq f g e = cc

    found_at :
        (f : FolderRow) (id : ℕ)
        → f.id ≡ id
        → find (is_folder f.id) d.folders ≡ some f
        → find (is_folder id) d.folders ≡ some f
    found_at f id e h = subst (λ (n : ℕ). find (is_folder n) d.folders ≡ some f) e h

-- What has been checked, of the folder that an insertion names.
checked-Owned :
    (d : Database) (user : ℕ) (folder : ℕ) (cs : List (ℕ × ℕ))
    → IsChecked cs user (some folder)
    → All (Owned d) cs
    → Owned d (user, folder)
checked-Owned d user folder cs newest h = h.0
checked-Owned d user folder _ (older k) h = checked-Owned d user folder _ k h.1

-- The foreign key finds the folder, and the check knows whose it is.
LiesIn-checked :
    (d : Database) (user : ℕ) (o : Option ℕ) (cs : List (ℕ × ℕ))
    → IsChecked cs user o
    → All (Owned d) cs
    → folder_exists o d ≡ true
    → LiesIn d.folders user o
LiesIn-checked d user none cs k h there = tt
LiesIn-checked d user (some folder) cs k h there =
    let (g, e) = find-of_any (is_folder folder) d.folders there in
    (
      g,
      e,
      All-of_find _ (λ (f : FolderRow). f.id ≡ folder → f.user_id ≡ user) d.folders g
          (checked-Owned d user folder cs k h).1 e (find-id d.folders folder g e),
    )

pub insert_folder-IsForest :
    (user : ℕ) (parent : Option ℕ) (name : String) (now : ℕ) (d : Database) (cs : List (ℕ × ℕ))
    → IsChecked cs user parent
    → All (Owned d) cs
    → IsForest d
    → IsForest (insert_folder user parent name now d).1
unfolding insert_folder
insert_folder-IsForest user parent name now d cs k h forest =
    elim (Bool-cases (any (folder_clashes user parent name) d.folders)) [
      | inl clash ↦ rw clash forest
      | inr new ↦ elim (Bool-cases (folder_exists parent d)) [
        | inr missing ↦ rw (new, missing) forest
        | inl present ↦
            rw (new, present)
              (with_folder-IsForest (new_folder user parent name now d) d refl
                (LiesIn-checked d user parent cs k h present) forest)
      ]
    ]

pub insert_file-IsForest :
    (user : ℕ) (folder : Option ℕ) (name content_type : String) (size now : ℕ) (d : Database)
    (cs : List (ℕ × ℕ))
    → IsChecked cs user folder
    → All (Owned d) cs
    → IsForest d
    → IsForest (insert_file user folder name content_type size now d).1
unfolding insert_file
insert_file-IsForest user folder name content_type size now d cs k h forest =
    elim (Bool-cases (any (clashes user folder name) d.files)) [
      | inl clash ↦ rw clash forest
      | inr new ↦ elim (Bool-cases (folder_exists folder d)) [
        | inr missing ↦ rw (new, missing) forest
        | inl present ↦
            rw (new, present)
              (same_trees d _ refl
                (All-append _ d.files _ forest.places
                  (LiesIn-checked d user folder cs k h present, tt))
                (omega arith) forest)
      ]
    ]

pub insert_chunk-IsForest :
    (hash size now : ℕ) (d : Database) → IsForest d → IsForest (insert_chunk hash size now d).1
unfolding insert_chunk
insert_chunk-IsForest hash size now d forest = elim (Option-cases (chunk_by_hash hash d)) [
  | inl new ↦ rw (new, insert_chunk) (same_trees d _ refl forest.places (omega arith) forest)
  | inr (c, old) ↦ rw (old, insert_chunk) forest
]
