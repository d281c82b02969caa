-- ===== src/Metadata/Tree.antt =====
-- Folders make up trees that never cross users: every folder and every file lies in a folder of its
-- own user. The trees of one database.
use distributed_cloud_system.Base.{
  ℕ, zero, suc, ◌-◌, ◌≤◌, ◌<◌, ◌≡◌, refl, subst, Option, none, some, List, [], ◌∷◌, Bool, true,
  false, ◌||◌, arith, ==_iff, keep, find, All, Bool-cases, Option-cases, inl, inr,
}
use distributed_cloud_system.Storage.World.{Database, FileRow, FolderRow}
use distributed_cloud_system.Storage.Repository.{is_folder}
use distributed_cloud_system.Metadata.Repository.{lies_under, is_doomed}

-- The folder, if there is one, is there and belongs to the user.
abbrev pub LiesIn : List FolderRow → ℕ → Option ℕ → Type 0
LiesIn fs user none = Unit
LiesIn fs user (some folder) =
    (g : FolderRow) × (find (is_folder folder) fs ≡ some g) × (g.user_id ≡ user)

-- A folder is made after the one it lies in.
abbrev pub IsAfter : ℕ → Option ℕ → Type 0
IsAfter id none = Unit
IsAfter id (some parent) = parent < id

pub record IsForest (d : Database) : Type 0 where
  pub ids : All (λ (f : FolderRow). f.id < d.next_id) d.folders
  pub parents : All (λ (f : FolderRow). LiesIn d.folders f.user_id f.parent_id) d.folders
  pub order : All (λ (f : FolderRow). IsAfter f.id f.parent_id) d.folders
  pub unique : All (λ (f : FolderRow). find (is_folder f.id) d.folders ≡ some f) d.folders
  pub places : All (λ (f : FileRow). LiesIn d.folders f.user_id f.folder_id) d.files

pub find-id :
    (fs : List FolderRow) (id : ℕ) (g : FolderRow) → find (is_folder id) fs ≡ some g → g.id ≡ id
find-id [] id g h = ground arith
find-id (f ∷ fs) id g h = ground (arith, find-id fs id g, ==_iff f.id id)

-- A folder that is kept is found as before.
pub find-keep :
    (p : FolderRow → Bool) (id : ℕ) (fs : List FolderRow) (g : FolderRow)
    → find (is_folder id) fs ≡ some g
    → p g ≡ true
    → find (is_folder id) (keep p fs) ≡ some g
find-keep p id [] g h k = ground arith
find-keep p id (f ∷ fs) g h k = elim (Bool-cases (is_folder id f)) [
  | inl here ↦
      let same : f ≡ g = cc (rw here at h) in
      let kept : p f ≡ true = rw same k in rw (kept, here, same) refl
  | inr later ↦
      let rest = find-keep p id fs g (rw later at h) k in
      elim (Bool-cases (p f)) [ inl kept ↦ rw (kept, later) rest | inr gone ↦ rw gone rest ]
]

-- Whether the folder that a folder lies in passes a test.
abbrev parent_test : (FolderRow → Bool) → List FolderRow → Option ℕ → Bool
parent_test p fs none = false
parent_test p fs (some parent) = elim (find (is_folder parent) fs) [ none ↦ false | some g ↦ p g ]

test_found :
    (p : FolderRow → Bool) (fs : List FolderRow) (parent : ℕ) (g : FolderRow)
    → find (is_folder parent) fs ≡ some g
    → p g ≡ true
    → parent_test p fs (some parent) ≡ true
test_found p fs parent g found h = rw (found, parent_test) h

lies_under-suc :
    (n root : ℕ) (fs : List FolderRow) (f : FolderRow)
    → lies_under (suc n) root fs f
      ≡ (is_folder root f || parent_test (lies_under n root fs) fs f.parent_id)
unfolding lies_under
lies_under-suc n root fs f = ground arith

lies_under-zero :
    (root : ℕ) (fs : List FolderRow) (f : FolderRow) → lies_under zero root fs f ≡ is_folder root f
unfolding lies_under
lies_under-zero root fs f = refl

parent_test_mono :
    (p q : FolderRow → Bool) (fs : List FolderRow) (o : Option ℕ)
    → ((g : FolderRow) → p g ≡ true → q g ≡ true)
    → parent_test p fs o ≡ true
    → parent_test q fs o ≡ true
parent_test_mono p q fs none imp h = ground arith
parent_test_mono p q fs (some parent) imp h = elim (Option-cases (find (is_folder parent) fs)) [
  | inl missing ↦ absurd (ground arith)
  | inr (g, there) ↦ rw (there, parent_test) (imp g (rw (there, parent_test) at h))
]

-- More fuel finds more ancestors.
lies_under_mono :
    (n m root : ℕ) (fs : List FolderRow) (f : FolderRow)
    → n ≤ m
    → lies_under n root fs f ≡ true
    → lies_under m root fs f ≡ true
lies_under_mono zero zero root fs f le h = h
lies_under_mono zero (suc m) root fs f le h =
    rw (lies_under-suc m root fs f) (let e = lies_under-zero root fs f in ground (arith, e))
lies_under_mono (suc n) zero root fs f le h = absurd (omega arith)
lies_under_mono (suc n) (suc m) root fs f le h =
    rw (lies_under-suc m root fs f) (elim (Bool-cases (is_folder root f)) [
      | inl here ↦ rw here refl
      | inr other ↦
          let up : parent_test (lies_under n root fs) fs f.parent_id ≡ true =
            rw (lies_under-suc n root fs f, other) at h in
          rw other (
            parent_test_mono (lies_under n root fs) (lies_under m root fs) fs f.parent_id
              (λ g e. lies_under_mono n m root fs g (omega arith) e) up)
    ])

-- A folder that is not under the root lies in none that is.
pub kept_parent :
    (root : ℕ) (fs : List FolderRow) (f g : FolderRow) (parent : ℕ)
    → f.parent_id ≡ some parent
    → find (is_folder parent) fs ≡ some g
    → parent < f.id
    → is_doomed root fs f ≡ false
    → is_doomed root fs g ≡ false
kept_parent root fs f g parent p found before kept = elim (Bool-cases (is_doomed root fs g)) [
  | inr safe ↦ safe
  | inl under ↦
      let e : suc (f.id - 1) ≡ f.id = omega arith in
      let id = find-id fs parent g found in
      let up : lies_under (f.id - 1) root fs g ≡ true =
        lies_under_mono g.id (f.id - 1) root fs g (omega arith) under in
      let all : lies_under f.id root fs f
          ≡ (is_folder root f || parent_test (lies_under (f.id - 1) root fs) fs f.parent_id) =
        subst
          (λ (n : ℕ).
            lies_under n root fs f
            ≡ (is_folder root f || parent_test (lies_under (f.id - 1) root fs) fs f.parent_id))
          e (lies_under-suc (f.id - 1) root fs f) in
      let reach : parent_test (lies_under (f.id - 1) root fs) fs f.parent_id ≡ true =
        rw p (test_found (lies_under (f.id - 1) root fs) fs parent g found up) in
      ground (arith, all, reach, kept)
]
