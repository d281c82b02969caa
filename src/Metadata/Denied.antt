-- ===== src/Metadata/Denied.antt =====
-- A caller cannot touch the folders of others.
use distributed_cloud_system.Base.{
  ℕ, ◌≡◌, ◌≢◌, refl, String, some, false, any, Bool-cases, str_eq, inl, inr,
}
use distributed_cloud_system.Storage.World.{
  World, Database, Error, folder_not_found, duplicate_name, db, no_rows,
}
use distributed_cloud_system.Storage.Action.{Result, ok, err, ◌>>=◌}
use distributed_cloud_system.Storage.Repository.{select_folder, owns_folder}
use distributed_cloud_system.Storage.Proofs.Statements.{query_cases}
use distributed_cloud_system.Metadata.Repository.{
  verify_ownership, create_folder_row, delete_owned_folder, delete_folder,
}
use distributed_cloud_system.Metadata.Service.{create_folder}
use distributed_cloud_system.Metadata.Handler.{
  Response, error, create_folder_request, folder_created, folder_deleted, handle_create_folder,
  handle_delete_folder,
}
use distributed_cloud_system.Metadata.Requests.{verify_ownership-keeps, verify_ownership-found}

-- An answer that nothing was made or deleted.
abbrev pub IsRefusal : Response → Type 0
IsRefusal (error code text) = Unit
IsRefusal _ = ⊥

abbrev pub Refused : Database → Response × World → Type 0
Refused d (answer, w) = IsRefusal answer × (w.db ≡ d)

refused_check :
    (user folder now : ℕ) (d : Database)
    → any (owns_folder user folder) d.folders ≡ false
    → (select_folder user folder now d).0 ≢ ok tt
unfolding select_folder
refused_check user folder now d foreign h =
    let e : Path (Result Unit) (err (db no_rows)) (ok tt) = rw foreign at h in cc

created-Refused :
    (user folder : ℕ) (name : String) (w : World) (x : Result Unit × World)
    → x.1.db ≡ w.db
    → x.0 ≢ ok tt
    → let r = ((λ (_ : World). x) >>= λ _. create_folder_row user (some folder) name) w in
      Refused w.db (folder_created r.0, r.1)
created-Refused user folder name w (ok u, w1) same denied = absurd (denied refl)
created-Refused user folder name w (err e, w1) same denied = (refusal e, same)
  where
    refusal : (e : Error) → IsRefusal (folder_created (err e))
    refusal folder_not_found = tt
    refusal duplicate_name = tt
    refusal _ = tt

delete_owned_folder-foreign :
    (user folder now : ℕ) (d : Database)
    → any (owns_folder user folder) d.folders ≡ false
    → delete_owned_folder user folder now d ≡ (err folder_not_found, d)
unfolding delete_owned_folder
delete_owned_folder-foreign user folder now d foreign = rw foreign refl

delete_folder-foreign :
    (user folder : ℕ) (w : World)
    → any (owns_folder user folder) w.db.folders ≡ false
    → Refused w.db (folder_deleted (delete_folder user folder w).0, (delete_folder user folder w).1)
unfolding delete_folder
delete_folder-foreign user folder w foreign =
    elim (query_cases (delete_owned_folder user folder) w) [
      | inl ran ↦ rw (ran, delete_owned_folder-foreign user folder w.now w.db foreign) (tt, refl)
      | inr (inl (e, failed)) ↦ rw failed (not_deleted e, refl)
      | inr (inr lost) ↦
          rw (lost, delete_owned_folder-foreign user folder w.now w.db foreign) (tt, refl)
    ]
  where
    not_deleted : (e : Error) → IsRefusal (folder_deleted (err e))
    not_deleted folder_not_found = tt
    not_deleted _ = tt

-- Where a folder is not there or belongs to another user, a request to make a folder in it and a
-- request to delete it are both answered with an error and change no table, whatever else fails.
pub foreign-Refused :
    (user folder : ℕ) (name : String) (w : World)
    → any (owns_folder user folder) w.db.folders ≡ false
    → Refused w.db (handle_create_folder (some user) (create_folder_request name (some folder)) w)
      × Refused w.db (handle_delete_folder (some user) (some folder) w)
unfolding handle_create_folder handle_delete_folder create_folder
foreign-Refused user folder name w foreign = (
  elim (Bool-cases (str_eq name "")) [
    | inl empty ↦ rw empty (tt, refl)
    | inr named ↦ rw named (
        created-Refused user folder name w (verify_ownership user folder w)
          (verify_ownership-keeps user folder w)
          (λ h.
            refused_check user folder w.now w.db foreign (verify_ownership-found user folder w h)))
  ],
  delete_folder-foreign user folder w foreign,
)
