-- ===== src/Storage/Proofs/Statements.antt =====
-- Inversions: what a call that went through has done, and what one that failed has left.
use distributed_cloud_system.Base.{
  ℕ, zero, suc, ◌≡◌, refl, sym, ap, subst, ◌∙◌, ◌⊎◌, inl, inr, none, some, Bool, true, false, arith,
  Option-cases,
}
use distributed_cloud_system.Storage.World.{
  World, Database, ChunkRow, Error, db, broken, no_rows, pg_error, Outcome, pass, fail, late, cut,
}
use distributed_cloud_system.Storage.Action.{
  Result, ok, err, Action, Statement, query, attempt, advance, next_outcome,
}
use distributed_cloud_system.Storage.Chunks.{
  chunk_by_hash, new_chunk, with_chunk, on_no_rows, get_or_create, get_or_create_chunk,
  insert_chunk, select_chunk,
}

module _ {A : Type 0} (s : Statement A) where
  attempt_cases :
      (o : Outcome) (w : World)
      → (attempt o s w ≡ ((s w.now w.db).0, record w { db = (s w.now w.db).1 }))
        ⊎ (((e : Error) × (attempt o s w ≡ (err e, w)))
            ⊎ (attempt o s w ≡ (err (db broken), record w { db = (s w.now w.db).1 })))
  attempt_cases pass w = inl refl
  attempt_cases (fail e) w = inr (inl (db e, refl))
  attempt_cases (late e) w = inr (inr refl)
  attempt_cases (cut n) w = inr (inl (db broken, refl))

  -- How a query ends: its statement has run, nothing was done, or it has run and its answer is lost.
  pub query_cases :
      (w : World)
      → (query s w ≡ ((s w.now w.db).0, record (advance w) { db = (s w.now w.db).1 }))
        ⊎ (((e : Error) × (query s w ≡ (err e, advance w)))
            ⊎ (query s w ≡ (err (db broken), record (advance w) { db = (s w.now w.db).1 })))
  unfolding query
  query_cases w = attempt_cases (next_outcome w.plan) (advance w)

  pub query-ok :
      (w : World) (a : A) (w' : World)
      → query s w ≡ (ok a, w')
      → (d : Database) × (s w.now w.db ≡ (ok a, d)) × (w' ≡ record (advance w) { db = d })
  query-ok w a w' h = elim (query_cases w) [
    | inl e ↦ ((s w.now w.db).1, ground arith, ground arith)
    | inr (inl (x, e)) ↦ ground arith
    | inr (inr e) ↦ ground arith
  ]

-- The world but for the tables and the outcomes to come.
pub record SameRest (w w' : World) : Type 0 where
  pub objects : w'.objects ≡ w.objects
  pub published : w'.published ≡ w.published
  pub now : w'.now ≡ w.now

SameRest-of : {w w' : World} {d : Database} → w' ≡ record (advance w) { db = d } → SameRest w w'
SameRest-of p = record {
  objects = ap (λ x. x.objects) p;
  published = ap (λ x. x.published) p;
  now = ap (λ x. x.now) p;
}

-- What `GetOrCreateChunk` has done where it returns `(id, is_new)`.
pub data Resolved (h size : ℕ) (w : World) (id : ℕ) (is_new : Bool) (w' : World) : Type 0 where
  created :
      chunk_by_hash h w.db ≡ none
      → id ≡ w.db.next_id
      → is_new ≡ true
      → w'.db ≡ with_chunk (new_chunk h size w.now w.db) w.db
      → Resolved h size w id is_new w'
  found :
      (c : ChunkRow)
      → chunk_by_hash h w.db ≡ some c
      → id ≡ c.id
      → is_new ≡ false
      → w'.db ≡ w.db
      → Resolved h size w id is_new w'

-- One query of the loop: it gave the answer, or it failed and the rest of the loop gave it.
module _ (more : Action (ℕ × Bool)) (is_new : Bool) (id : ℕ) (b : Bool) (w' : World) where
  on_no_rows-ok :
      (m : Action ℕ) (w : World)
      → on_no_rows more is_new m w ≡ (ok (id, b), w')
      → ((m w ≡ (ok id, w')) × (b ≡ is_new))
        ⊎ ((w1 : World) × (m w ≡ (err (db no_rows), w1)) × (more w1 ≡ (ok (id, b), w')))
  on_no_rows-ok m w = go (m w) refl
    where
      go :
          (x : Result ℕ × World)
          → m w ≡ x
          → on_no_rows more is_new (λ _. x) w ≡ (ok (id, b), w')
          → ((m w ≡ (ok id, w')) × (b ≡ is_new))
            ⊎ ((w1 : World) × (m w ≡ (err (db no_rows), w1)) × (more w1 ≡ (ok (id, b), w')))
      go (ok i, w1) p h = inl (ground arith, ground arith)
      go (err (db no_rows), w1) p h = inr (w1, p, h)
      go (err (db (pg_error c)), w1) p h = ground arith
      go (err _, w1) p h = ground arith

module _ (h size : ℕ) where
  insert_cases :
      (w : World)
      → ((chunk_by_hash h w.db ≡ none)
          × (query (insert_chunk h size) w ≡ (
            ok w.db.next_id,
            record (advance w) { db = with_chunk (new_chunk h size w.now w.db) w.db },
          )))
        ⊎ (((e : Error) × (query (insert_chunk h size) w ≡ (err e, advance w)))
            ⊎ ((w1 : World) × (query (insert_chunk h size) w ≡ (err (db broken), w1))))
  unfolding insert_chunk
  insert_cases w = elim (query_cases (insert_chunk h size) w) [
    | inr (inl (e, q)) ↦ inr (inl (e, q))
    | inr (inr q) ↦ inr (inr (_, q))
    | inl q ↦ elim (Option-cases (chunk_by_hash h w.db)) [
      | inl absent ↦ inl (absent, q ∙ rw (absent, insert_chunk))
      | inr (c, present) ↦ inr (inl (db no_rows, q ∙ rw (present, insert_chunk)))
    ]
  ]

  select_cases :
      (w : World)
      → ((c : ChunkRow) × (chunk_by_hash h w.db ≡ some c)
          × (query (select_chunk h) w ≡ (ok c.id, advance w)))
        ⊎ (((e : Error) × (query (select_chunk h) w ≡ (err e, advance w)))
            ⊎ ((w1 : World) × (query (select_chunk h) w ≡ (err (db broken), w1))))
  unfolding select_chunk
  select_cases w = elim (query_cases (select_chunk h) w) [
    | inr (inl (e, q)) ↦ inr (inl (e, q))
    | inr (inr q) ↦ inr (inr (_, q))
    | inl q ↦ elim (Option-cases (chunk_by_hash h w.db)) [
      | inl absent ↦ inr (inl (db no_rows, q ∙ rw (absent, select_chunk)))
      | inr (c, present) ↦ inl (c, present, q ∙ rw (present, select_chunk))
    ]
  ]

  -- A resolution after failed queries is one from the start.
  Resolved-advance :
      (w w' : World) (id : ℕ) (b : Bool)
      → SameRest (advance w) w' × Resolved h size (advance w) id b w'
      → SameRest w w' × Resolved h size w id b w'
  Resolved-advance w w' id b (r, created a i n d) =
      (record { objects = r.objects; published = r.published; now = r.now }, created a i n d)
  Resolved-advance w w' id b (r, found c p i n d) =
      (record { objects = r.objects; published = r.published; now = r.now }, found c p i n d)

  Resolved-by_insert :
      (w : World) (id : ℕ) (w' : World)
      → query (insert_chunk h size) w ≡ (ok id, w')
      → SameRest w w' × Resolved h size w id true w'
  Resolved-by_insert w id w' q = elim (insert_cases w) [
    | inr (inl (e, q')) ↦ ground arith
    | inr (inr (w1, q')) ↦ ground arith
    | inl (absent, q') ↦
        let p : ◌≡◌ {A = Result ℕ × World}
            (
              ok w.db.next_id,
              record (advance w) { db = with_chunk (new_chunk h size w.now w.db) w.db },
            )
            (ok id, w') =
          sym q' ∙ q in
        (
          SameRest-of (ap (λ x. x.1) (sym p)),
          created absent (ground arith) refl (ap (λ x. x.1.db) (sym p)),
        )
  ]

  Resolved-by_select :
      (w : World) (id : ℕ) (w' : World)
      → query (select_chunk h) w ≡ (ok id, w')
      → SameRest w w' × Resolved h size w id false w'
  Resolved-by_select w id w' q = elim (select_cases w) [
    | inr (inl (e, q')) ↦ ground arith
    | inr (inr (w1, q')) ↦ ground arith
    | inl (c, present, q') ↦
        let p : ◌≡◌ {A = Result ℕ × World} (ok c.id, advance w) (ok id, w') = sym q' ∙ q in
        (
          SameRest-of (ap (λ x. x.1) (sym p)),
          found c present (ground arith) refl (ap (λ x. x.1.db) (sym p)),
        )
  ]

  failed_insert :
      (w w1 : World) → query (insert_chunk h size) w ≡ (err (db no_rows), w1) → w1 ≡ advance w
  failed_insert w w1 q = elim (insert_cases w) [
    | inl (_, q') ↦ ground arith
    | inr (inl (_, q')) ↦ ground arith
    | inr (inr (_, q')) ↦ ground arith
  ]

  failed_select :
      (w w1 : World) → query (select_chunk h) w ≡ (err (db no_rows), w1) → w1 ≡ advance w
  failed_select w w1 q = elim (select_cases w) [
    | inl (_, _, q') ↦ ground arith
    | inr (inl (_, q')) ↦ ground arith
    | inr (inr (_, q')) ↦ ground arith
  ]

  get_or_create-ok :
      (n : ℕ) (w : World) (id : ℕ) (b : Bool) (w' : World)
      → get_or_create n h size w ≡ (ok (id, b), w')
      → SameRest w w' × Resolved h size w id b w'
  unfolding get_or_create
  get_or_create-ok zero w id b w' e = ground arith
  get_or_create-ok (suc n) w id b w' e =
      elim (on_no_rows-ok (on_no_rows (get_or_create n h size) false (query (select_chunk h))) true
        id b w' (query (insert_chunk h size)) w e) [
          | inl (q, is_new) ↦ rw is_new (Resolved-by_insert w id w' q)
          | inr (w1, q, more) ↦
              elim (on_no_rows-ok (get_or_create n h size) false id b w' (query (select_chunk h)) w1
                more) [
                  | inl (q2, old) ↦ rw old (
                      Resolved-advance w w' id false (
                        subst (λ v. SameRest v w' × Resolved h size v id false w')
                          (failed_insert w w1 q) (Resolved-by_select w1 id w' q2)))
                  | inr (w2, q2, more2) ↦
                      let e2 : w2 ≡ advance (advance w) =
                        failed_select w1 w2 q2 ∙ ap advance (failed_insert w w1 q) in
                      Resolved-advance w w' id b (
                        Resolved-advance (advance w) w' id b (
                          subst (λ v. SameRest v w' × Resolved h size v id b w') e2
                            (get_or_create-ok n w2 id b w' more2)))
                ]
        ]

  pub get_or_create_chunk-ok :
      (w : World) (id : ℕ) (b : Bool) (w' : World)
      → get_or_create_chunk h size w ≡ (ok (id, b), w')
      → SameRest w w' × Resolved h size w id b w'
  unfolding get_or_create_chunk
  get_or_create_chunk-ok w id b w' e = get_or_create-ok 3 w id b w' e
