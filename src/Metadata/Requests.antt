-- ===== src/Metadata/Requests.antt =====
-- The requests of internal/metadata as runs of the steps of Metadata/Steps.
use distributed_cloud_system.Base.{
  ℕ, ◌≡◌, refl, sym, ap, ◌∙◌, String, Option, none, some, List, ◌∷◌, arith, Bool-cases, str_eq, inl,
  inr, ◌⊎◌,
}
use distributed_cloud_system.Storage.World.{db, broken, World, Database, Error, DbError}
use distributed_cloud_system.Storage.Proofs.Statements.{query_cases}
use distributed_cloud_system.Storage.Action.{Result, ok, err, Action, Statement, query, ◌>>=◌}
use distributed_cloud_system.Storage.Repository.{select_folder, translate, as_duplicate}
use distributed_cloud_system.Metadata.Repository.{
  insert_folder, delete_owned_folder, create_folder_row, verify_ownership, delete_folder,
  as_not_found,
}
use distributed_cloud_system.Metadata.Handler.{
  FolderBody, too_large, malformed, create_folder_request, handle_create_folder,
  handle_delete_folder,
}
use distributed_cloud_system.Metadata.Service.{create_folder}
use distributed_cloud_system.Metadata.Steps.{
  System, IsChecked, at_root, newest, Change, Step, check, make_folder, change, Reach, here, later,
  joined,
}

abbrev pub state : Database → List (ℕ × ℕ) → System
state d cs = record { tables = d; checks = cs }

module _ {A : Type 0} where
  -- A statement has its effect, or none.
  pub query-tables :
      (st : Statement A) (w : World)
      → ((query st w).1.db ≡ w.db) ⊎ ((query st w).1.db ≡ (st w.now w.db).1)
  query-tables st w = elim (query_cases st w) [
    | inl ran ↦ inr (ap (λ (x : Result A × World). x.1.db) ran)
    | inr (inl (e, failed)) ↦ inl (ap (λ (x : Result A × World). x.1.db) failed)
    | inr (inr lost) ↦ inr (ap (λ (x : Result A × World). x.1.db) lost)
  ]

  -- An answer other than an error is the statement's.
  pub query-answer :
      (st : Statement A) (w : World) (a : A) → (query st w).0 ≡ ok a → (st w.now w.db).0 ≡ ok a
  query-answer st w a h = elim (query_cases st w) [
    | inl ran ↦ sym (ap (λ (x : Result A × World). x.0) ran) ∙ h
    | inr (inl (e, failed)) ↦
        absurd (let q : err e ≡ ok a = sym (ap (λ (x : Result A × World). x.0) failed) ∙ h in cc)
    | inr (inr lost) ↦
        absurd
          (let q : err (db broken) ≡ ok a = sym (ap (λ (x : Result A × World). x.0) lost) ∙ h in cc)
  ]

  translate-world : (f : DbError → Error) (m : Action A) (w : World) → (translate f m w).1 ≡ (m w).1
  translate-world f m w = go (m w)
    where
      go : (x : Result A × World) → (translate f (λ _. x) w).1 ≡ x.1
      go (ok a, w1) = refl
      go (err e, w1) = refl

  translate-answer :
      (f : DbError → Error) (m : Action A) (w : World) (a : A)
      → (translate f m w).0 ≡ ok a
      → (m w).0 ≡ ok a
  translate-answer f m w a = go (m w)
    where
      go : (x : Result A × World) → (translate f (λ _. x) w).0 ≡ ok a → x.0 ≡ ok a
      go (ok b, w1) h = h
      go (err e, w1) h = absurd (ground arith)

module _ (cs : List (ℕ × ℕ)) where
  -- One statement that is a step, or a call that fails and is none.
  query-Reach :
      {A : Type 0} (st : Statement A) (w : World)
      → Step (state w.db cs) (state (st w.now w.db).1 cs)
      → Reach (state w.db cs) (state (query st w).1.db cs)
  query-Reach st w step = elim (query-tables st w) [
    | inl none_done ↦ rw none_done here
    | inr done ↦ rw done (later here step)
  ]

  create_folder_row-Reach :
      (user : ℕ) (parent : Option ℕ) (name : String) (w : World)
      → IsChecked cs user parent
      → Reach (state w.db cs) (state (create_folder_row user parent name w).1.db cs)
  unfolding create_folder_row
  create_folder_row-Reach user parent name w k =
      rw (translate-world as_duplicate (query (insert_folder user parent name)) w)
        (query-Reach (insert_folder user parent name) w (make_folder user parent name w.now k))

  delete_folder-Reach :
      (user folder : ℕ) (w : World)
      → Reach (state w.db cs) (state (delete_folder user folder w).1.db cs)
  unfolding delete_folder
  delete_folder-Reach user folder w =
      query-Reach (delete_owned_folder user folder) w
        (change w.now (Change.folder_gone user folder))

-- The check changes no table, and what it lets through has been found.
select_folder-keeps : (user folder now : ℕ) (d : Database) → (select_folder user folder now d).1 ≡ d
unfolding select_folder
select_folder-keeps user folder now d = refl

pub verify_ownership-keeps :
    (user folder : ℕ) (w : World) → (verify_ownership user folder w).1.db ≡ w.db
unfolding verify_ownership
verify_ownership-keeps user folder w =
    rw (translate-world as_not_found (query (select_folder user folder)) w)
      (elim (query-tables (select_folder user folder) w) [
        | inl e ↦ e
        | inr e ↦ e ∙ select_folder-keeps user folder w.now w.db
      ])

pub verify_ownership-found :
    (user folder : ℕ) (w : World)
    → (verify_ownership user folder w).0 ≡ ok tt
    → (select_folder user folder w.now w.db).0 ≡ ok tt
unfolding verify_ownership
verify_ownership-found user folder w h =
    query-answer (select_folder user folder) w tt
      (translate-answer as_not_found (query (select_folder user folder)) w tt h)

-- A check, and if it goes through an insertion.
checked_then :
    (user folder : ℕ) (name : String) (cs : List (ℕ × ℕ)) (w : World) (x : Result Unit × World)
    → x.1.db ≡ w.db
    → (x.0 ≡ ok tt → (select_folder user folder w.now w.db).0 ≡ ok tt)
    → (ds : List (ℕ × ℕ)) × Reach
        (state w.db cs)
        (state (((λ (_ : World). x) >>= λ _. create_folder_row user (some folder) name) w).1.db ds)
checked_then user folder name cs w (err e, w1) same found = (cs, rw same here)
checked_then user folder name cs w (ok u, w1) same found =
    let passed : Step (state w.db cs) (state w.db ((user, folder) ∷ cs)) =
      check user folder w.now (found refl) in
    let start : Reach (state w.db cs) (state w1.db ((user, folder) ∷ cs)) =
      rw same (later here passed) in
    (
      (user, folder) ∷ cs,
      joined start
          (create_folder_row-Reach ((user, folder) ∷ cs) user (some folder) name w1 newest),
    )

create_folder-Reach :
    (user : ℕ) (parent : Option ℕ) (name : String) (cs : List (ℕ × ℕ)) (w : World)
    → (ds : List (ℕ × ℕ)) × Reach (state w.db cs) (state (create_folder user parent name w).1.db ds)
unfolding create_folder
create_folder-Reach user none name cs w = (cs, create_folder_row-Reach cs user none name w at_root)
create_folder-Reach user (some folder) name cs w =
    checked_then user folder name cs w (verify_ownership user folder w)
      (verify_ownership-keeps user folder w) (verify_ownership-found user folder w)

-- Whatever fails, what the endpoints for creating and for deleting a folder do to the tables is a
-- run of the steps of requests, in which a folder is inserted only below one that a check of the same
-- request has found.
pub handlers-Reach :
    (caller : Option ℕ) (body : FolderBody) (path : Option ℕ) (cs : List (ℕ × ℕ)) (w : World)
    → ((ds : List (ℕ × ℕ)) × Reach
          (state w.db cs)
          (state (handle_create_folder caller body w).1.db ds))
      × Reach (state w.db cs) (state (handle_delete_folder caller path w).1.db cs)
unfolding handle_create_folder handle_delete_folder
handlers-Reach caller body path cs w = (creates caller body, deletes caller path)
  where
    creates :
        (caller : Option ℕ) (body : FolderBody)
        → (ds : List (ℕ × ℕ)) × Reach
            (state w.db cs)
            (state (handle_create_folder caller body w).1.db ds)
    creates none body = (cs, here)
    creates (some user) too_large = (cs, here)
    creates (some user) malformed = (cs, here)
    creates (some user) (create_folder_request name parent) = elim (Bool-cases (str_eq name "")) [
      | inl empty ↦ rw empty (cs, here)
      | inr named ↦ rw named (create_folder-Reach user parent name cs w)
    ]

    deletes :
        (caller path : Option ℕ)
        → Reach (state w.db cs) (state (handle_delete_folder caller path w).1.db cs)
    deletes none path = here
    deletes (some user) none = here
    deletes (some user) (some folder) = delete_folder-Reach cs user folder w
