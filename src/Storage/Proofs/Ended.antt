-- ===== src/Storage/Proofs/Ended.antt =====
-- Calls that do not run out of fuel: the ways to build an action, and the queries for a chunk.
use distributed_cloud_system.Base.{ℕ, zero, suc, Bool, true, false, arith, if◌then◌else◌}
use distributed_cloud_system.Storage.World.{
  World, Database, Error, file_not_found, access_denied, chunk_in_use, duplicate_name,
  folder_not_found, unresolved_race, db, DbError, no_rows, pg_error, broken, object_missing,
  oversized, integrity, bad_stream, cancelled, out_of_fuel, Outcome, pass, fail, late, cut,
}
use distributed_cloud_system.Storage.Action.{
  Result, ok, err, Action, ◌>>=◌, Statement, query, attempt, effect, attempt_effect, settle,
  begin_tx, run_tx, in_tx, advance, next_outcome,
}
use distributed_cloud_system.Storage.Repository.{translate}
use distributed_cloud_system.Storage.Chunks.{
  on_no_rows, get_or_create, get_or_create_chunk, insert_chunk, select_chunk, insert_link,
  link_file_chunk,
}

-- Not the error of a loop that runs out of fuel.
abbrev pub IsReal : Error → Type 0
IsReal out_of_fuel = ⊥
IsReal _ = Unit

abbrev pub HasEnded : {A : Type 0} → Result A → Type 0
HasEnded (ok _) = Unit
HasEnded (err e) = IsReal e

-- The action does not run out of fuel.
abbrev pub Ends : {A : Type 0} → Action A → Type 0
Ends m = (w : World) → HasEnded (m w).0

module _ {A : Type 0} where
  attempt-Ends :
      (s : Statement A)
      → ((now : ℕ) (d : Database) → HasEnded (s now d).0)
      → (o : Outcome) → Ends (attempt o s)
  attempt-Ends s h pass w = h w.now w.db
  attempt-Ends s h (fail e) w = tt
  attempt-Ends s h (late e) w = tt
  attempt-Ends s h (cut n) w = tt

  pub query-Ends :
      (s : Statement A) → ((now : ℕ) (d : Database) → HasEnded (s now d).0) → Ends (query s)
  unfolding query
  query-Ends s h w = attempt-Ends s h (next_outcome w.plan) (advance w)

  settle-Ends :
      (before : Database) (r : Result A) (w : World) → HasEnded r → HasEnded (settle before r w).0
  settle-Ends before (err e) w h = h
  settle-Ends before (ok a) w h = ground arith

  run_tx-Ends :
      (body : Action A)
      → Ends body
      → (x : Result Unit × World) → HasEnded x.0
      → HasEnded (run_tx body x).0
  run_tx-Ends body h (err e, w) real = real
  run_tx-Ends body h (ok _, w) real = settle-Ends w.db (body w).0 (body w).1 (h w)

begin_tx-Ends : Ends begin_tx
begin_tx-Ends = query-Ends (λ now d. (ok tt, d)) (λ now d. tt)

pub in_tx-Ends : {A : Type 0} (body : Action A) → Ends body → Ends (in_tx body)
unfolding in_tx
in_tx-Ends body h w = run_tx-Ends body h (begin_tx w) (begin_tx-Ends w)

module _ {A : Type 0} {B : Type 0} (m : Action A) (f : A → Action B) where
  pub bind-Ends : Ends m → ((a : A) → Ends (f a)) → Ends (m >>= f)
  bind-Ends hm hf w = go (m w) (hm w)
    where
      go : (x : Result A × World) → HasEnded x.0 → HasEnded (((λ (_ : World). x) >>= f) w).0
      go (ok a, w1) h = hf a w1
      go (err e, w1) h = h

module _ {A : Type 0} (f : DbError → Error) (real : (e : DbError) → IsReal (f e)) where
  pub translate-Ends : (m : Action A) → Ends m → Ends (translate f m)
  translate-Ends m h w = go (m w) (h w)
    where
      go : (x : Result A × World) → HasEnded x.0 → HasEnded (translate f (λ _. x) w).0
      go (ok a, w1) h = tt
      go (err (db e), w1) h = real e
      go (err file_not_found, w1) h = tt
      go (err access_denied, w1) h = tt
      go (err chunk_in_use, w1) h = tt
      go (err duplicate_name, w1) h = tt
      go (err folder_not_found, w1) h = tt
      go (err unresolved_race, w1) h = tt
      go (err object_missing, w1) h = tt
      go (err oversized, w1) h = tt
      go (err integrity, w1) h = tt
      go (err bad_stream, w1) h = tt
      go (err cancelled, w1) h = tt
      go (err out_of_fuel, w1) h = h

pub effect-Ends : (f : World → World) → Ends (effect f)
unfolding effect
effect-Ends f w = go (next_outcome w.plan) (advance w)
  where
    go : (o : Outcome) (w : World) → HasEnded (attempt_effect o f w).0
    go pass w = tt
    go (fail e) w = tt
    go (late e) w = tt
    go (cut n) w = tt

pub if-Ends : {A : Type 0} (b : Bool) (m n : Action A) → Ends m → Ends n → Ends (if b then m else n)
if-Ends true m n hm hn = hm
if-Ends false m n hm hn = hn

module _ (more : Action (ℕ × Bool)) (is_new : Bool) where
  on_no_rows-Ends : Ends more → (m : Action ℕ) → Ends m → Ends (on_no_rows more is_new m)
  on_no_rows-Ends ends m h w = go (m w) (h w)
    where
      go : (x : Result ℕ × World) → HasEnded x.0 → HasEnded (on_no_rows more is_new (λ _. x) w).0
      go (ok a, w1) h = tt
      go (err (db no_rows), w1) h = ends w1
      go (err (db (pg_error c)), w1) h = tt
      go (err (db broken), w1) h = tt
      go (err file_not_found, w1) h = tt
      go (err access_denied, w1) h = tt
      go (err chunk_in_use, w1) h = tt
      go (err duplicate_name, w1) h = tt
      go (err folder_not_found, w1) h = tt
      go (err unresolved_race, w1) h = tt
      go (err object_missing, w1) h = tt
      go (err oversized, w1) h = tt
      go (err integrity, w1) h = tt
      go (err bad_stream, w1) h = tt
      go (err cancelled, w1) h = tt
      go (err out_of_fuel, w1) h = h

module _ (h size : ℕ) where
  insert_chunk-HasEnded : (now : ℕ) (d : Database) → HasEnded (insert_chunk h size now d).0
  unfolding insert_chunk
  insert_chunk-HasEnded now d = ground arith

  select_chunk-HasEnded : (now : ℕ) (d : Database) → HasEnded (select_chunk h now d).0
  unfolding select_chunk
  select_chunk-HasEnded now d = ground arith

  get_or_create-Ends : (attempts : ℕ) → Ends (get_or_create attempts h size)
  unfolding get_or_create
  get_or_create-Ends zero = λ w. tt
  get_or_create-Ends (suc attempts) =
      let again = get_or_create attempts h size in
      on_no_rows-Ends (on_no_rows again false (query (select_chunk h))) true
        (on_no_rows-Ends again false (get_or_create-Ends attempts) (query (select_chunk h))
          (query-Ends (select_chunk h) select_chunk-HasEnded))
        (query (insert_chunk h size)) (query-Ends (insert_chunk h size) insert_chunk-HasEnded)

  pub get_or_create_chunk-Ends : Ends (get_or_create_chunk h size)
  unfolding get_or_create_chunk
  get_or_create_chunk-Ends = get_or_create-Ends 3

insert_link-HasEnded :
    (file chunk index now : ℕ) (d : Database) → HasEnded (insert_link file chunk index now d).0
unfolding insert_link
insert_link-HasEnded file chunk index now d = ground arith

pub link_file_chunk-Ends : (file chunk index : ℕ) → Ends (link_file_chunk file chunk index)
unfolding link_file_chunk
link_file_chunk-Ends file chunk index =
    query-Ends (insert_link file chunk index) (insert_link-HasEnded file chunk index)
