-- ===== src/Storage/Proofs/Succeeds.antt =====
-- An upload that nothing hinders succeeds.
use distributed_cloud_system.Base.{
  ℕ, suc, ◌≡◌, refl, ap, ◌∙◌, Option, some, none, List, [], ◌∷◌, ◌++◌, Bool, true, false, arith,
  String, length, any, ==_refl,
}
use distributed_cloud_system.Storage.World.{
  World, Database, Bytes, FileRow, FolderRow, Error, DbError, ready,
}
use distributed_cloud_system.Storage.Action.{Result, ok, Action, ◌>>=◌, ◌>>◌, pure, query, effect}
use distributed_cloud_system.Storage.Repository.{
  is_file, is_folder, clashes, owns_folder, folder_exists, insert_file, create_file, select_folder,
  verify_folder_ownership, update_file, update_file_size_and_status, translate, as_duplicate,
  as_denied,
}
use distributed_cloud_system.Storage.Service.{
  Stream, ReadErr, read_full, store_chunks, or_abandon, check_folder, read_first, finish_upload,
  content_type_of, publish_if, upload_file,
}
use distributed_cloud_system.Storage.Proofs.Tables.{no_links}
use distributed_cloud_system.Storage.Proofs.Stored.{IsSound}
use distributed_cloud_system.Storage.Proofs.Step.{IsCollisionFree}
use distributed_cloud_system.Storage.Proofs.Loop.{read_full-IsRead}
use distributed_cloud_system.Storage.Proofs.Created.{new_file, with_file}
use distributed_cloud_system.Storage.Proofs.Uploaded.{new_file-IsSound}
use distributed_cloud_system.Storage.Proofs.Download.{calm}
use distributed_cloud_system.Storage.Proofs.Calm.{bind_calm, query-calm}
use distributed_cloud_system.Storage.Proofs.CalmLoop.{
  read_full-fine, read_full-breaks, store_loop-calm,
}

-- The folder, if one is named, is the user's.
abbrev pub MayUse : ℕ → Option ℕ → Database → Type 0
MayUse user none d = Unit
MayUse user (some folder) d = any (owns_folder user folder) d.folders ≡ true

owned-there :
    (user folder : ℕ) (fs : List FolderRow)
    → any (owns_folder user folder) fs ≡ true
    → any (is_folder folder) fs ≡ true
owned-there user folder [] h = ground arith
owned-there user folder (f ∷ fs) h = ground (arith, owned-there user folder fs)

MayUse-there :
    (user : ℕ) (folder : Option ℕ) (d : Database)
    → MayUse user folder d
    → folder_exists folder d ≡ true
MayUse-there user none d h = refl
MayUse-there user (some folder) d h = owned-there user folder d.folders h

select_folder_owned :
    (user folder now : ℕ) (d : Database)
    → any (owns_folder user folder) d.folders ≡ true
    → select_folder user folder now d ≡ (ok tt, d)
unfolding select_folder
select_folder_owned user folder now d h = rw h refl

insert_file_free :
    (user : ℕ) (folder : Option ℕ) (name ct : String) (size now : ℕ) (d : Database)
    → any (clashes user folder name) d.files ≡ false
    → folder_exists folder d ≡ true
    → insert_file user folder name ct size now d
      ≡ (ok d.next_id, with_file (new_file user folder name ct size now d) d)
unfolding insert_file
insert_file_free user folder name ct size now d free there = rw (free, there) refl

module _ {A : Type 0} (w w1 : World) (m : Action A) (a : A) (e : m w ≡ (ok a, w1)) where
  translate_calm : (f : DbError → Error) → translate f m w ≡ (ok a, w1)
  translate_calm f = ap (λ (x : Result A × World). translate f (λ _. x) w) e

  or_abandon_calm : (user file : ℕ) → or_abandon user file m w ≡ (ok a, w1)
  or_abandon_calm user file = ap (λ (x : Result A × World). or_abandon user file (λ _. x) w) e

check_folder-calm :
    (user : ℕ) (folder : Option ℕ) (w : World)
    → MayUse user folder w.db
    → check_folder user folder (calm w) ≡ (ok tt, calm w)
unfolding verify_folder_ownership
check_folder-calm user none w h = refl
check_folder-calm user (some folder) w h =
    translate_calm (calm w) (calm w) (query (select_folder user folder)) tt
      (query-calm (select_folder user folder) w (ok tt) w.db
        (select_folder_owned user folder w.now w.db h))
      as_denied

module _ (user : ℕ) (folder : Option ℕ) (name ct : String) (w : World) where
  abbrev row : FileRow
  row = new_file user folder name ct 0 w.now w.db

  abbrev created : World
  created = record w { db = with_file row w.db }

  create_file-calm :
      any (clashes user folder name) w.db.files ≡ false
      → folder_exists folder w.db ≡ true
      → create_file user folder name ct 0 (calm w) ≡ (ok w.db.next_id, calm created)
  unfolding create_file
  create_file-calm free there =
      translate_calm (calm w) (calm created) (query (insert_file user folder name ct 0))
        w.db.next_id
        (query-calm (insert_file user folder name ct 0) w (ok w.db.next_id) (with_file row w.db)
          (insert_file_free user folder name ct 0 w.now w.db free there))
        as_duplicate

published_calm :
    (hp : Bool) (file : ℕ) (w : World)
    → (w1 : World) × (publish_if hp file (calm w) ≡ (ok tt, calm w1))
unfolding effect
published_calm true file w = (record w { published = w.published ++ file ∷ [] }, refl)
published_calm false file w = (w, refl)

updated_calm :
    (file total : ℕ) (w : World)
    → (w1 : World) × (update_file_size_and_status file total ready (calm w) ≡ (ok tt, calm w1))
unfolding update_file_size_and_status update_file query
updated_calm file total w = (record w { db = (update_file file total ready w.now w.db).1 }, refl)

read_first_calm :
    (s : Stream) (w : World) → s.breaks ≡ false → read_first s w ≡ (ok (read_full s), w)
read_first_calm s w fine = rw (read_full-fine s fine) refl

new_there :
    (file : ℕ) (fs : List FileRow) (f : FileRow)
    → f.id ≡ file
    → any (is_file file) (fs ++ f ∷ []) ≡ true
new_there file [] f e = ground (arith, e, ==_refl file)
new_there file (g ∷ gs) f e = ground (arith, new_there file gs f e)

module _ (sha : Bytes → ℕ) (free : IsCollisionFree sha) where
  store_chunks-calm :
      (user : ℕ) (folder : Option ℕ) (name ct : String) (s : Stream) (w : World)
      → s.breaks ≡ false
      → IsSound sha w.objects w.db
      → (t : ℕ) × (w' : World) × (store_chunks sha w.db.next_id
            (read_full s).0
            (read_full s).1
            (read_full s).2
            (calm (created user folder name ct w))
          ≡ (ok t, calm w'))
  unfolding store_chunks
  store_chunks-calm user folder name ct s w fine sd =
      let f = row user folder name ct w in
      let r = read_full-IsRead s in
      store_loop-calm sha free w.db.next_id (suc (suc (length (read_full s).2.rest)))
        (read_full s).0 (read_full s).1 (read_full s).2 0 0 (created user folder name ct w)
        (read_full-breaks s fine) (omega arith) (λ _. omega arith) r.fits
        (new_file-IsSound sha w.objects w.db f refl sd)
        (rw (no_links w.db.next_id w.db.links sd.consistent.link_files) tt) (omega arith)
        (new_there w.db.next_id w.db.files f refl)

  finished :
      (hp : Bool) (user file : ℕ) (x : Bytes × ReadErr × Stream) (w w1 w2 w3 : World) (t : ℕ)
      → store_chunks sha file x.0 x.1 x.2 (calm w) ≡ (ok t, calm w1)
      → update_file_size_and_status file t ready (calm w1) ≡ (ok tt, calm w2)
      → publish_if hp file (calm w2) ≡ (ok tt, calm w3)
      → finish_upload sha hp user file x (calm w) ≡ (ok file, calm w3)
  unfolding finish_upload
  finished hp user file x w w1 w2 w3 t stored updated announced =
      bind_calm (or_abandon user file (store_chunks sha file x.0 x.1 x.2))
        (λ total.
          or_abandon user file (update_file_size_and_status file total ready)
          >> (publish_if hp file >> pure file))
        (calm w) (calm w1) t
        (or_abandon_calm (calm w) (calm w1) (store_chunks sha file x.0 x.1 x.2) t stored user file)
      ∙ (bind_calm (or_abandon user file (update_file_size_and_status file t ready))
            (λ _. publish_if hp file >> pure file) (calm w1) (calm w2) tt
            (or_abandon_calm (calm w1) (calm w2) (update_file_size_and_status file t ready) tt
              updated user file)
          ∙ bind_calm (publish_if hp file) (λ _. pure file) (calm w2) (calm w3) tt announced)

  -- Where the store is sound, the digest has no collisions, and no call fails: an upload of a stream that
  -- does not break succeeds, if the name is free and the folder, where one is named, is the user's.
  pub upload_file_succeeds :
      (detect : Bytes → String) (hp : Bool) (user : ℕ) (folder : Option ℕ) (name : String)
      (s : Stream) (w : World)
      → s.breaks ≡ false
      → IsSound sha w.objects w.db
      → MayUse user folder w.db
      → any (clashes user folder name) w.db.files ≡ false
      → (w' : World) × (upload_file sha detect hp user folder name s (calm w)
          ≡ (ok w.db.next_id, calm w'))
  unfolding upload_file finish_upload
  upload_file_succeeds detect hp user folder name s w fine sd may name_free =
      let file = w.db.next_id in
      let ct = content_type_of detect (read_full s).0 in
      let (t, w1, stored) = store_chunks-calm user folder name ct s w fine sd in
      let (w2, updated) = updated_calm file t w1 in
      let (w3, announced) = published_calm hp file w2 in
      let x = read_full s in
      (
        w3,
        bind_calm (check_folder user folder)
              (λ _. do
                first ← read_first s
                file ← create_file user folder name (content_type_of detect first.0) 0
                finish_upload sha hp user file first)
              (calm w) (calm w) tt (check_folder-calm user folder w may)
            ∙ (bind_calm (read_first s)
                  (λ first. do
                    file ← create_file user folder name (content_type_of detect first.0) 0
                    finish_upload sha hp user file first)
                  (calm w) (calm w) x (read_first_calm s (calm w) fine)
                ∙ (bind_calm (create_file user folder name ct 0)
                      (λ file. finish_upload sha hp user file x) (calm w)
                      (calm (created user folder name ct w)) file
                      (create_file-calm user folder name ct w name_free
                        (MayUse-there user folder w.db may))
                    ∙ finished hp user file x (created user folder name ct w) w1 w2 w3 t stored
                        updated announced)),
      )
