-- ===== src/Storage/Proofs/Upload.antt =====
-- A successful upload: the file is ready, belongs to the uploader, and is made of the stream's bytes.
use distributed_cloud_system.Base.{
  ℕ, suc, ◌≤◌, ◌<◌, ◌≡◌, refl, sym, ap, subst, ◌∙◌, Option, List, [], ◌++◌, Bool, true, arith,
  String, length, map,
}
use distributed_cloud_system.Storage.World.{World, Database, FileRow, Bytes, ready}
use distributed_cloud_system.Storage.Action.{Result, ok, Action, pure, ◌>>=◌, ◌>>◌}
use distributed_cloud_system.Storage.Repository.{
  create_file, set_ready, update_file_size_and_status,
}
use distributed_cloud_system.Storage.Reader.{chunk_size}
use distributed_cloud_system.Storage.Service.{
  Stream, ReadErr, read_full, is_end, is_other, store_chunks, or_abandon, check_folder, read_first,
  finish_upload, content_type_of, publish_if, upload_file,
}
use distributed_cloud_system.Storage.Proofs.Inversions.{bind-ok}
use distributed_cloud_system.Storage.Proofs.Tables.{Before, no_links}
use distributed_cloud_system.Storage.Proofs.Stored.{Objects, IsSound}
use distributed_cloud_system.Storage.Proofs.Step.{IsCollisionFree}
use distributed_cloud_system.Storage.Proofs.Loop.{Loaded, flat, store_loop-ok, read_full-IsRead}
use distributed_cloud_system.Storage.Proofs.Created.{
  new_file, with_file, create_file-ok, update_file-ok, or_abandon-ok, check_folder-ok,
  publish_if-same, pure-ok, first_chunk-ok, with_files,
}
use distributed_cloud_system.Storage.Proofs.Uploaded.{Uploaded, new_file-IsSound, uploaded}

module _ (sha : Bytes → ℕ) where
  module _ (free : IsCollisionFree sha) where
    module _ (user : ℕ) (folder : Option ℕ) (name ct : String) (now : ℕ) (content : Bytes)
        (d0 : Database) where
      abbrev f0 : FileRow
      f0 = new_file user folder name ct 0 now d0

      abbrev IsFirst : Bytes × ReadErr × Stream → Type 0
      IsFirst (chunk, e, s) =
          (chunk ++ s.rest ≡ content)
          × (length chunk ≤ chunk_size)
          × (is_end e ≡ true → s.rest ≡ [])
          × (chunk ≡ [] → s.rest ≡ [])

      -- The loop, started on the row that was just created.
      store_chunks-ok :
          (file : ℕ) (chunk : Bytes) (e : ReadErr) (s : Stream) (w : World) (total : ℕ) (w1 : World)
          → IsFirst (chunk, e, s)
          → IsSound sha w.objects d0
          → w.db ≡ with_file f0 d0
          → file ≡ d0.next_id
          → store_chunks sha file chunk e s w ≡ (ok total, w1)
          → (ps : List Bytes) × (flat ps ≡ content)
            × (total ≡ length content)
            × Loaded sha d0.next_id ps w.objects (with_file f0 d0) w1.objects w1.db
      unfolding store_chunks
      store_chunks-ok file chunk e s w total w1 first sd ed ef h =
          let before : Before d0.next_id 0 (with_file f0 d0).links =
            rw (no_links d0.next_id d0.links sd.consistent.link_files) tt in
          let (ps, ew, et, l) =
            store_loop-ok sha free file (suc (suc (length s.rest))) chunk e s 0 0 w total w1 h
              first.1 first.2 first.3
              (subst (λ x. IsSound sha w.objects x) (sym ed)
                (new_file-IsSound sha w.objects d0 f0 refl sd))
              (subst (λ (x : Database). Before file 0 x.links) (sym ed)
                (subst (λ n. Before n 0 (with_file f0 d0).links) (sym ef) before))
              (subst (λ (x : Database). file < x.next_id) (sym ed) (omega arith)) in
          (
            ps,
            ew ∙ first.0,
            omega (arith, ap length first.0),
            subst (λ (n : ℕ). Loaded sha n ps w.objects (with_file f0 d0) w1.objects w1.db) ef
                (subst (λ (x : Database). Loaded sha file ps w.objects x w1.objects w1.db) ed l),
          )

      -- The status update and the event, and what they leave of the tables and the bucket.
      abbrev publish_and_return : Bool → ℕ → Action ℕ
      publish_and_return hp file = publish_if hp file >> pure file

      published :
          (hp : Bool) (file : ℕ) (w : World) (id : ℕ) (w' : World)
          → publish_and_return hp file w ≡ (ok id, w')
          → (id ≡ file) × (w'.db ≡ w.db) × (w'.objects ≡ w.objects)
      published hp file w id w' h =
          let (u, w3, m, r) = bind-ok (publish_if hp file) (λ _. pure file) w id w' h in
          let same = publish_if-same hp file w in
          let e : (publish_if hp file w).1 ≡ w' =
            ap (λ (x : Result Unit × World). x.1) m ∙ (pure-ok file w3 id w' r).1 in
          (
            (pure-ok file w3 id w' r).0,
            ap (λ (x : World). x.db) (sym e) ∙ same.0,
            ap (λ (x : World). x.objects) (sym e) ∙ same.1,
          )

      finish_upload-ok :
          (hp : Bool) (file : ℕ) (x : Bytes × ReadErr × Stream) (w : World) (id : ℕ) (w' : World)
          → IsFirst x
          → IsSound sha w.objects d0
          → w.db ≡ with_file f0 d0
          → file ≡ d0.next_id
          → finish_upload sha hp user file x w ≡ (ok id, w')
          → Uploaded sha user name content id w'.objects w'.db
      unfolding finish_upload
      finish_upload-ok hp file (chunk, e, s) w id w' first sd ed ef h =
          let (total, w1, m1, r1) =
            bind-ok (or_abandon user file (store_chunks sha file chunk e s))
              (λ total.
                or_abandon user file (update_file_size_and_status file total ready)
                >> publish_and_return hp file)
              w id w' h in
          let (u, w2, m2, r2) =
            bind-ok (or_abandon user file (update_file_size_and_status file total ready))
              (λ _. publish_and_return hp file) w1 id w' r1 in
          let (ei, eb, eo) = published hp file w2 id w' r2 in
          let e2 =
            update_file-ok file total ready w1 u w2
              (or_abandon-ok user file (update_file_size_and_status file total ready) w1 u w2 m2) in
          let (ps, ew, et, l) =
            store_chunks-ok file chunk e s w total w1 first sd ed ef
              (or_abandon-ok user file (store_chunks sha file chunk e s) w total w1 m1) in
          let done =
            uploaded sha user folder name ct now total w1.now content w.objects w1.objects d0 w1.db
              sd ps ew et l in
          let at_file =
            subst
              (λ (n : ℕ).
                Uploaded sha user name content n w1.objects
                  (with_files (map (set_ready n total ready w1.now) w1.db.files) w1.db))
              (sym (ei ∙ ef)) done in
          subst (λ (o : Objects). Uploaded sha user name content id o w'.db)
            (sym (eo ∙ ap (λ (x : World). x.objects) e2))
            (subst (λ (d : Database). Uploaded sha user name content id w1.objects d)
              (sym (
                eb
                ∙ (ap (λ (x : World). x.db) e2
                    ∙ ap
                        (λ (n : ℕ).
                          with_files (map (set_ready n total ready w1.now) w1.db.files) w1.db)
                        (sym ei))))
              at_file)

    -- A successful upload has done what it promises, whatever failed on the way.
    pub upload_file-ok :
        (detect : Bytes → String) (hp : Bool) (user : ℕ) (folder : Option ℕ) (name : String)
        (s : Stream) (w : World) (id : ℕ) (w' : World)
        → IsSound sha w.objects w.db
        → upload_file sha detect hp user folder name s w ≡ (ok id, w')
        → Uploaded sha user name s.rest id w'.objects w'.db
    unfolding upload_file
    upload_file-ok detect hp user folder name s w id w' sd h =
        let (u, w1, m1, r1) =
          bind-ok (check_folder user folder)
            (λ _. do
              first ← read_first s
              file ← create_file user folder name (content_type_of detect first.0) 0
              finish_upload sha hp user file first)
            w id w' h in
        let (x, w2, m2, r2) =
          bind-ok (read_first s)
            (λ first. do
              file ← create_file user folder name (content_type_of detect first.0) 0
              finish_upload sha hp user file first)
            w1 id w' r1 in
        let ct = content_type_of detect x.0 in
        let (file, w3, m3, r3) =
          bind-ok (create_file user folder name ct 0) (λ file. finish_upload sha hp user file x) w2
            id w' r2 in
        let same = check_folder-ok user folder w u w1 m1 in
        let read = first_chunk-ok (is_other (read_full s).1) (read_full s) w1 x w2 m2 in
        let (ef, e3) = create_file-ok user folder name ct 0 w2 file w3 m3 in
        let r = read_full-IsRead s in
        let o2 : w2.objects ≡ w.objects = ap (λ (v : World). v.objects) read.1 ∙ same.1 in
        let d2 : w2.db ≡ w.db = ap (λ (v : World). v.db) read.1 ∙ same.0 in
        let o3 : w3.objects ≡ w2.objects = ap (λ (v : World). v.objects) e3 in
        finish_upload-ok user folder name ct w2.now s.rest w2.db hp file x w3 id w'
          (subst
            (λ (y : Bytes × ReadErr × Stream). IsFirst user folder name ct w2.now s.rest w2.db y)
            (sym read.0) (r.whole, r.fits, r.at_end, r.nothing))
          (subst (λ (o : Objects). IsSound sha o w2.db) (sym (o3 ∙ o2))
            (subst (λ (d : Database). IsSound sha w.objects d) (sym d2) sd))
          (ap (λ (v : World). v.db) e3) ef r3
