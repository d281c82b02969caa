-- ===== src/Storage/Handshake/Safe.antt =====
-- What the handshake of uploads and collections guarantees.
use distributed_cloud_system.Base.{
  ℕ, ◌≡◌, ◌≢◌, ◌+◌, refl, Option, none, some, Bool, true, false, arith, suc, ◌||◌, Bool-cases, ◌⊎◌,
  inl, inr,
}
use distributed_cloud_system.Storage.Handshake.{
  Chunk, Insertion, inserted, stored, linked, Collection, locked, removed, dropped, nothing, Move,
  Run, start, then, insert, upload, link_new, commit_new, abort_new, share, link_old, commit_old,
  abort_shared, abort_linked, unlink, look, lock, in_use, remove, drop, commit_drop, abort_locked,
  abort_removed, abort_dropped, fails_late, has_failed_late,
}

-- What the collector's progress says of the row, the references, the holders of FOR SHARE and the object,
-- and of the object only where no collection has failed after deleting it.
abbrev pub ForCollector : Bool → Option Collection → Bool → ℕ → ℕ → ℕ → Bool → Type 0
ForCollector failed none row links sharers linkers object =
    failed ≡ false → row ≡ true → object ≡ true
ForCollector failed (some locked) row links sharers linkers object =
    (row ≡ true) × (sharers ≡ 0) × (linkers ≡ 0) × (failed ≡ false → object ≡ true)
ForCollector failed (some removed) row links sharers linkers object =
    (row ≡ true) × (sharers ≡ 0) × (linkers ≡ 0)
ForCollector failed (some dropped) row links sharers linkers object =
    (row ≡ true) × (sharers ≡ 0) × (linkers ≡ 0) × (links ≡ 0)

abbrev pub ForInserter : Option Insertion → Bool → Bool → Type 0
ForInserter none row object = Unit
ForInserter (some inserted) row object = row ≡ false
ForInserter (some _) row object = (row ≡ false) × (object ≡ true)

-- What holds of a content at any time.
pub record IsGuarded (failed : Bool) (s : Chunk) : Type 0 where
  pub collection : ForCollector failed s.collector s.row s.links s.sharers s.linkers s.object
  pub insertion : ForInserter s.inserter s.row s.object
  pub rowless : s.row ≡ false → (s.links ≡ 0) × (s.sharers ≡ 0) × (s.linkers ≡ 0)

-- Where there is no row there is no collector.
no_collector :
    (failed : Bool) (c : Option Collection) (row : Bool) (links sharers linkers : ℕ) (object : Bool)
    → ForCollector failed c row links sharers linkers object
    → row ≡ false
    → c ≡ none
no_collector f none row links sharers linkers object h r = refl
no_collector f (some locked) row links sharers linkers object h r = absurd (ground (arith, h.0, r))
no_collector f (some removed) row links sharers linkers object h r = absurd (ground (arith, h.0, r))
no_collector f (some dropped) row links sharers linkers object h r = absurd (ground (arith, h.0, r))

-- Where a holder of FOR SHARE is there, the collector is not.
held_off :
    (failed : Bool) (c : Option Collection) (row : Bool) (links sharers linkers : ℕ) (object : Bool)
    → ForCollector failed c row links sharers linkers object
    → sharers + linkers ≢ 0
    → (c ≡ none) × (failed ≡ false → row ≡ true → object ≡ true)
held_off f none row links sharers linkers object h q = (refl, h)
held_off f (some locked) row links sharers linkers object h q = absurd (q (omega (arith, h.1, h.2)))
held_off f (some removed) row links sharers linkers object h q =
    absurd (q (omega (arith, h.1, h.2)))
held_off f (some dropped) row links sharers linkers object h q =
    absurd (q (omega (arith, h.1, h.2)))

-- Fewer references change nothing of this.
fewer_links :
    (failed : Bool) (c : Option Collection) (row : Bool) (links n sharers linkers : ℕ)
    (object : Bool)
    → links ≡ suc n
    → ForCollector failed c row links sharers linkers object
    → ForCollector failed c row n sharers linkers object
fewer_links f none row links n sharers linkers object e h = h
fewer_links f (some locked) row links n sharers linkers object e h = h
fewer_links f (some removed) row links n sharers linkers object e h = h
fewer_links f (some dropped) row links n sharers linkers object e h = absurd (omega (arith, e, h.3))

no_inserter :
    (i : Option Insertion) (row object : Bool) → ForInserter i row object → row ≡ true → i ≡ none
no_inserter none row object h r = refl
no_inserter (some inserted) row object h r = absurd (ground (arith, h, r))
no_inserter (some stored) row object h r = absurd (ground (arith, h.0, r))
no_inserter (some linked) row object h r = absurd (ground (arith, h.0, r))

Move-IsGuarded :
    (failed : Bool) {s t : Chunk} (m : Move s t)
    → IsGuarded failed s
    → IsGuarded (fails_late m || failed) t
Move-IsGuarded f (insert {s} r i) g = record {
  collection = g.collection;
  insertion = r;
  rowless = g.rowless;
}
Move-IsGuarded f (upload {s} i) g =
    let r : s.row ≡ false = rw i at g.insertion in
    let c = no_collector f s.collector s.row s.links s.sharers s.linkers s.object g.collection r in
    record { collection = rw c (λ _ _. refl); insertion = (r, refl); rowless = g.rowless }
Move-IsGuarded f (link_new {s} i) g = record {
  collection = g.collection;
  insertion = rw i at g.insertion;
  rowless = g.rowless;
}
Move-IsGuarded f (commit_new {s} i) g =
    let new : (s.row ≡ false) × (s.object ≡ true) = rw i at g.insertion in
    let c =
      no_collector f s.collector s.row s.links s.sharers s.linkers s.object g.collection new.0 in
    record {
      collection = rw c (λ _ _. new.1);
      insertion = tt;
      rowless = λ r. absurd (ground (arith, r));
    }
Move-IsGuarded f (abort_new {s} i) g = record {
  collection = g.collection;
  insertion = tt;
  rowless = g.rowless;
}
Move-IsGuarded f (share {s} r c) g = record {
  collection = rw c (rw c at g.collection);
  insertion = g.insertion;
  rowless = λ q. absurd (ground (arith, q, r));
}
Move-IsGuarded f (link_old {s} e) g =
    let (c, h) =
      held_off f s.collector s.row s.links s.sharers s.linkers s.object g.collection
        (λ q. absurd (omega (arith, e))) in
    record {
      collection = rw c h;
      insertion = g.insertion;
      rowless = λ r. absurd (omega (arith, e, (g.rowless r).1));
    }
Move-IsGuarded f (commit_old {s} e) g =
    let (c, h) =
      held_off f s.collector s.row s.links s.sharers s.linkers s.object g.collection
        (λ q. absurd (omega (arith, e))) in
    record {
      collection = rw c h;
      insertion = g.insertion;
      rowless = λ r. absurd (omega (arith, e, (g.rowless r).2));
    }
Move-IsGuarded f (abort_shared {s} e) g =
    let (c, h) =
      held_off f s.collector s.row s.links s.sharers s.linkers s.object g.collection
        (λ q. absurd (omega (arith, e))) in
    record {
      collection = rw c h;
      insertion = g.insertion;
      rowless = λ r. absurd (omega (arith, e, (g.rowless r).1));
    }
Move-IsGuarded f (abort_linked {s} e) g =
    let (c, h) =
      held_off f s.collector s.row s.links s.sharers s.linkers s.object g.collection
        (λ q. absurd (omega (arith, e))) in
    record {
      collection = rw c h;
      insertion = g.insertion;
      rowless = λ r. absurd (omega (arith, e, (g.rowless r).2));
    }
Move-IsGuarded f (unlink {s} {n} e) g = record {
  collection =
      fewer_links f s.collector s.row s.links n s.sharers s.linkers s.object e g.collection;
  insertion = g.insertion;
  rowless = λ r. absurd (omega (arith, e, (g.rowless r).0));
}
Move-IsGuarded f (look {s} r e) g = record {
  collection = g.collection;
  insertion = g.insertion;
  rowless = g.rowless;
}
Move-IsGuarded f (lock {s} w r sh li c) g = record {
  collection = (r, sh, li, λ ok. (rw c at g.collection) ok r);
  insertion = g.insertion;
  rowless = g.rowless;
}
Move-IsGuarded f (in_use {s} w) g = record {
  collection = g.collection;
  insertion = g.insertion;
  rowless = g.rowless;
}
Move-IsGuarded f (remove {s} c) g =
    let (r, sh, li, o) = rw c at g.collection in
    record {
      collection = (r, sh, li);
      insertion = rw (no_inserter s.inserter s.row s.object g.insertion r) tt;
      rowless = g.rowless;
    }
Move-IsGuarded f (drop {s} c e) g =
    let (r, sh, li) = rw c at g.collection in
    record { collection = (r, sh, li, e); insertion = g.insertion; rowless = g.rowless }
Move-IsGuarded f (commit_drop {s} c) g =
    let (r, sh, li, l) = rw c at g.collection in
    record {
      collection = λ _ q. absurd (ground (arith, q));
      insertion = rw (no_inserter s.inserter s.row s.object g.insertion r) tt;
      rowless = λ _. (l, sh, li);
    }
Move-IsGuarded f (abort_locked {s} c) g =
    let (r, sh, li, o) = rw c at g.collection in
    record { collection = λ ok _. o ok; insertion = g.insertion; rowless = g.rowless }
Move-IsGuarded f (abort_removed {s} c) g = record {
  collection = λ ok. absurd (ground (arith, ok));
  insertion = g.insertion;
  rowless = g.rowless;
}
Move-IsGuarded f (abort_dropped {s} c) g = record {
  collection = λ ok. absurd (ground (arith, ok));
  insertion = g.insertion;
  rowless = g.rowless;
}

Run-IsGuarded : {s : Chunk} (r : Run nothing s) → IsGuarded (has_failed_late r) s
unfolding has_failed_late
Run-IsGuarded start = record {
  collection = λ _ r. absurd (ground (arith, r));
  insertion = tt;
  rowless = λ _. (refl, refl, refl);
}
Run-IsGuarded (then r m) = Move-IsGuarded (has_failed_late r) m (Run-IsGuarded r)

-- A reference, or an upload that has the row locked, and what the collector has done.
backed :
    (failed : Bool) (c : Option Collection) (row : Bool) (links sharers linkers : ℕ) (object : Bool)
    → ForCollector failed c row links sharers linkers object
    → row ≡ true
    → failed ≡ false
    → links + sharers + linkers ≢ 0
    → (object ≡ true) ⊎ ((c ≡ some removed) × (sharers ≡ 0) × (linkers ≡ 0))
backed f none row links sharers linkers object h r ok q = inl (h ok r)
backed f (some locked) row links sharers linkers object h r ok q = inl (h.3 ok)
backed f (some removed) row links sharers linkers object h r ok q = inr (refl, h.1, h.2)
backed f (some dropped) row links sharers linkers object h r ok q =
    absurd (q (omega (arith, h.1, h.2, h.3)))

-- In every interleaving of uploads of a content, deletions of its files and collections, from when there
-- is nothing, whatever fails: while a reference is committed, or an upload that found the row has it
-- locked, the row is there. The object is there too, but for two cases: a collection has failed after
-- deleting it, or no upload has the row locked and a collection has deleted it and not the row.
pub Run_backed :
    {s : Chunk} (r : Run nothing s)
    → s.links + s.sharers + s.linkers ≢ 0
    → (s.row ≡ true)
      × ((s.object ≡ true)
          ⊎ ((has_failed_late r ≡ true)
              ⊎ ((s.collector ≡ some removed) × (s.sharers ≡ 0) × (s.linkers ≡ 0))))
Run_backed {s} r q =
    let g = Run-IsGuarded r in
    let there = has_row s.row refl g in
    (
      there,
      elim (Bool-cases (has_failed_late r)) [
        | inl failed ↦ inr (inl failed)
        | inr ok ↦
            elim (backed (has_failed_late r) s.collector s.row s.links s.sharers s.linkers s.object
              g.collection there ok q) [ inl object ↦ inl object | inr taken ↦ inr (inr taken) ]
      ],
    )
  where
    has_row : (b : Bool) → s.row ≡ b → IsGuarded (has_failed_late r) s → s.row ≡ true
    has_row true e g = e
    has_row false e g = let (l, sh, li) = g.rowless e in absurd (q (omega (arith, l, sh, li)))

-- From every state in which the row of a content is there, no file refers to it and no transaction
-- holds a lock on it, a run of a collection leads to where there is neither row nor object.
pub Run_collected :
    {s : Chunk}
    → s.row ≡ true
    → s.links ≡ 0
    → s.sharers ≡ 0
    → s.linkers ≡ 0
    → s.collector ≡ none
    → (t : Chunk) × Run s t × (t.row ≡ false) × (t.object ≡ false)
Run_collected {s} row l sh li c = (
  _,
  then
      (then (then (then (then start (look row l)) (lock refl row sh li c)) (remove refl))
        (drop refl l))
      (commit_drop refl),
  refl,
  refl,
)
