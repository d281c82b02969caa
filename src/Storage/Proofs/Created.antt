-- ===== src/Storage/Proofs/Created.antt =====
-- The steps of an upload but for its chunks: the row of the file, its status and the event.
use distributed_cloud_system.Base.{
  ℕ, suc, ◌<◌, ◌≡◌, refl, sym, ap, ◌∙◌, Option, none, some, List, [], ◌∷◌, ◌++◌, Bool, true, false,
  arith, String, find, map, All, ==_refl,
}
use distributed_cloud_system.Storage.World.{
  World, Database, FileRow, Bytes, Status, uploading, Outcome, pass, fail, late, cut,
}
use distributed_cloud_system.Storage.Action.{
  Result, ok, err, Action, pure, query, effect, attempt_effect, advance, next_outcome,
}
use distributed_cloud_system.Storage.Repository.{
  insert_file, create_file, as_duplicate, is_file, set_ready, update_file,
  update_file_size_and_status, select_folder, verify_folder_ownership, as_denied,
}
use distributed_cloud_system.Storage.Service.{
  Stream, ReadErr, or_abandon, check_folder, first_chunk, publish_if,
}
use distributed_cloud_system.Storage.Proofs.Statements.{query-ok}
use distributed_cloud_system.Storage.Proofs.Inversions.{translate-ok}

-- The row that `CreateFile` inserts.
abbrev pub new_file : ℕ → Option ℕ → String → String → ℕ → ℕ → Database → FileRow
new_file user folder name content_type size now d = record {
  id = d.next_id;
  user_id = user;
  folder_id = folder;
  name = name;
  content_type = content_type;
  size = size;
  status = uploading;
  created_at = now;
  updated_at = now;
}

abbrev pub with_file : FileRow → Database → Database
with_file f d = record d { files = d.files ++ f ∷ []; next_id = suc d.next_id }

pub create_file-ok :
    (user : ℕ) (folder : Option ℕ) (name content_type : String) (size : ℕ) (w : World) (id : ℕ)
    (w' : World)
    → create_file user folder name content_type size w ≡ (ok id, w')
    → (id ≡ w.db.next_id)
      × (w' ≡ record (advance w) {
        db = with_file (new_file user folder name content_type size w.now w.db) w.db;
      })
unfolding create_file insert_file
create_file-ok user folder name ct size w id w' h =
    let (d, s, e) =
      query-ok (insert_file user folder name ct size) w id w'
        (translate-ok as_duplicate (query (insert_file user folder name ct size)) w id w' h) in
    (ground arith, ground arith)

pub update_file-ok :
    (file size : ℕ) (s : Status) (w : World) (u : Unit) (w' : World)
    → update_file_size_and_status file size s w ≡ (ok u, w')
    → w' ≡ record (advance w) {
      db = record w.db { files = map (set_ready file size s w.now) w.db.files };
    }
unfolding update_file_size_and_status update_file
update_file-ok file size s w u w' h =
    let (d, q, e) = query-ok (update_file file size s) w u w' h in ground arith

pub or_abandon-ok :
    {A : Type 0} (user file : ℕ) (m : Action A) (w : World) (a : A) (w' : World)
    → or_abandon user file m w ≡ (ok a, w')
    → m w ≡ (ok a, w')
or_abandon-ok user file m w a w' = go (m w) refl
  where
    go :
        (x : Result _ × World)
        → m w ≡ x
        → or_abandon user file (λ _. x) w ≡ (ok a, w')
        → m w ≡ (ok a, w')
    go (ok b, w1) p h = p ∙ h
    go (err e, w1) p h = ground arith

pub check_folder-ok :
    (user : ℕ) (folder : Option ℕ) (w : World) (u : Unit) (w' : World)
    → check_folder user folder w ≡ (ok u, w')
    → (w'.db ≡ w.db) × (w'.objects ≡ w.objects)
unfolding verify_folder_ownership select_folder
check_folder-ok user none w u w' h = (ground arith, ground arith)
check_folder-ok user (some f) w u w' h =
    let (d, s, e) =
      query-ok (select_folder user f) w u w'
        (translate-ok as_denied (query (select_folder user f)) w u w' h) in
    (ground arith, ground arith)

-- Publishing touches neither the tables nor the bucket, whether it succeeds or not.
pub publish_if-same :
    (b : Bool) (file : ℕ) (w : World)
    → ((publish_if b file w).1.db ≡ w.db) × ((publish_if b file w).1.objects ≡ w.objects)
unfolding effect
publish_if-same false file w = (refl, refl)
publish_if-same true file w = go (next_outcome w.plan)
  where
    go :
        (o : Outcome)
        → let x =
            attempt_effect o (λ v. record v { published = v.published ++ file ∷ [] }) (advance w) in
          (x.1.db ≡ w.db) × (x.1.objects ≡ w.objects)
    go pass = (refl, refl)
    go (fail e) = (refl, refl)
    go (late e) = (refl, refl)
    go (cut n) = (refl, refl)

pub pure-ok :
    {A : Type 0} (a : A) (w : World) (b : A) (w' : World)
    → pure a w ≡ (ok b, w')
    → (b ≡ a) × (w ≡ w')
pure-ok a w b w' h = (cc, ground arith)

pub first_chunk-ok :
    (b : Bool) (x : Bytes × ReadErr × Stream) (w : World) (y : Bytes × ReadErr × Stream)
    (w' : World)
    → first_chunk b x w ≡ (ok y, w')
    → (y ≡ x) × (w' ≡ w)
first_chunk-ok true x w y w' h = cc
first_chunk-ok false x w y w' h = (
  sym (some_eq (ap (λ (r : Result _ × World). r.0) h)),
  sym (ap (λ (r : Result _ × World). r.1) h),
)
  where
    some_eq : {A : Type 0} {a b : A} → ok a ≡ ok b → a ≡ b
    some_eq q = cc

-- A row that no earlier one hides is found.
pub find-new :
    (fs : List FileRow) (f : FileRow)
    → All (λ (x : FileRow). x.id < f.id) fs
    → find (is_file f.id) (fs ++ f ∷ []) ≡ some f
find-new [] f h = ground (arith, ==_refl f.id)
find-new (x ∷ fs) f h = ground (arith, find-new fs f h.1)

module _ (file size : ℕ) (s : Status) (now : ℕ) where
  -- The row of the file after `UpdateFileSizeAndStatus`.
  abbrev pub updated : FileRow → FileRow
  updated f = record f { size = size; status = s; updated_at = now }

  pub find-set_ready :
      (fs : List FileRow) (f : FileRow)
      → find (is_file file) fs ≡ some f
      → find (is_file file) (map (set_ready file size s now) fs) ≡ some (updated f)
  find-set_ready [] f h = ground arith
  find-set_ready (x ∷ fs) f h = ground (arith, find-set_ready fs f)

  pub ids-set_ready :
      (n : ℕ) (fs : List FileRow)
      → All (λ (f : FileRow). f.id < n) fs
      → All (λ (f : FileRow). f.id < n) (map (set_ready file size s now) fs)
  ids-set_ready n [] h = tt
  ids-set_ready n (x ∷ fs) h = (ground arith, ids-set_ready n fs h.1)

abbrev pub with_files : List FileRow → Database → Database
with_files fs d = record d { files = fs }
