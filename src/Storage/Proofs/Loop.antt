-- ===== src/Storage/Proofs/Loop.antt =====
-- The loop of `storeChunks`: it cuts the stream into chunks, stores all of them in order, and never
-- runs out of fuel.
use distributed_cloud_system.Base.{
  ℕ, zero, suc, ◌+◌, ◌≤◌, ◌<◌, ◌≡◌, ◌≢◌, refl, sym, ap, ◌∙◌, ◌⊎◌, some, List, [], ◌∷◌, ◌++◌, Bool,
  true, false, arith, length, map, take, drop, append-nil, append_assoc, length-append, length-take,
  length-drop, take-append-drop, All, ◌==◌, ==_iff, inl, inr,
}
use distributed_cloud_system.Storage.World.{World, Database, Bytes}
use distributed_cloud_system.Storage.Action.{ok, Action, pure}
use distributed_cloud_system.Storage.Chunks.{chunks_of}
use distributed_cloud_system.Storage.Reader.{chunk_size}
use distributed_cloud_system.Storage.Service.{
  hashes, Stream, ReadErr, read_error, read_full, next_round, unless_broken, is_end, is_other,
  store_chunk, store_loop,
}
use distributed_cloud_system.Storage.Proofs.Inversions.{bind-ok}
use distributed_cloud_system.Storage.Proofs.Tables.{Before}
use distributed_cloud_system.Storage.Proofs.Stored.{
  Objects, IsSound, Stored, fresh, shared, store_chunk-Stored,
}
use distributed_cloud_system.Storage.Proofs.Step.{IsCollisionFree, Step, Step-fresh, Step-shared}

chunk_size_pos : 0 < chunk_size
unfolding chunk_size
chunk_size_pos = omega arith

eq-nil : {A : Type 0} (l : List A) → length l ≡ 0 → l ≡ []
eq-nil [] h = refl
eq-nil (x ∷ l) h = ground arith

-- What `io.ReadFull` hands over, and when the stream is known to be at its end.
pub record IsRead (s : Stream) (got : Bytes) (e : ReadErr) (s' : Stream) : Type 0 where
  pub whole : got ++ s'.rest ≡ s.rest
  pub fits : length got ≤ chunk_size
  pub at_end : is_end e ≡ true → s'.rest ≡ []
  pub nothing : got ≡ [] → s'.rest ≡ []
  pub shorter : length s'.rest + length got ≡ length s.rest

module _ (s : Stream) where
  abbrev got : Bytes
  got = take chunk_size s.rest

  abbrev left : Stream
  left = record s { rest = drop chunk_size s.rest }

  reading : (e : ReadErr) → (is_end e ≡ true → length got ≢ chunk_size) → IsRead s got e left
  reading e h =
      let lt = length-take chunk_size s.rest in
      let ld = length-drop chunk_size s.rest in
      record {
        whole = take-append-drop chunk_size s.rest;
        fits = omega arith;
        at_end = λ q. let n = h q in eq-nil (drop chunk_size s.rest) (omega arith);
        nothing = λ q.
            let z : length got ≡ 0 = ap length q in
            eq-nil (drop chunk_size s.rest) (omega (arith, chunk_size_pos));
        shorter = omega arith;
      }

  pub read_full-IsRead : let (g, e, s') = read_full s in IsRead s g e s'
  unfolding read_full
  read_full-IsRead =
      reading (read_error (length got == chunk_size) s.breaks (length got == 0))
        (λ q. ground (arith, ==_iff (length got) chunk_size))

abbrev pub flat : List Bytes → Bytes
flat [] = []
flat (p ∷ ps) = p ++ flat ps

pure-ok : (a : ℕ) (w : World) (t : ℕ) (w' : World) → pure a w ≡ (ok t, w') → (t ≡ a) × (w' ≡ w)
pure-ok a w t w' h = (ground arith, ground arith)

module _ (sha : Bytes → ℕ) where
  abbrev pub InStore : Objects → Bytes → Type 0
  InStore o q = (o (sha q) ≡ some q) × (length q ≤ chunk_size)

  -- The file has grown by the pieces, and the bucket holds each of them.
  pub record Loaded (file : ℕ) (pieces : List Bytes) (o : Objects) (d : Database) (o' : Objects)
      (d' : Database) : Type 0 where
    pub sound : IsSound sha o' d'
    pub kept : (q : Bytes) → o (sha q) ≡ some q → o' (sha q) ≡ some q
    pub stored : All (InStore o') pieces
    pub chunks : hashes (chunks_of file d') ≡ hashes (chunks_of file d) ++ map sha pieces
    pub files : d'.files ≡ d.files

  module _ (free : IsCollisionFree sha) (file : ℕ) where
    pub Step-of :
        (index : ℕ) (p : Bytes) (w w' : World)
        → IsSound sha w.objects w.db
        → length p ≤ chunk_size
        → Before file index w.db.links
        → file < w.db.next_id
        → Stored sha file p index w w'
        → Step sha file index p w.objects w.db w'.objects w'.db
    Step-of index p w w' s fits before known (fresh absent eo ed) =
        rw (eo, ed) (Step-fresh sha free file index p w.objects w.db s fits before known w.now)
    Step-of index p w w' s fits before known (shared c present eo ed) =
        rw (eo, ed) (Step-shared sha free file index p w.objects w.db s fits before known c present)

    nothing-Loaded : (o : Objects) (d : Database) → IsSound sha o d → Loaded file [] o d o d
    nothing-Loaded o d sd = record {
      sound = sd;
      kept = λ q e. e;
      stored = tt;
      chunks = sym (append-nil (hashes (chunks_of file d)));
      files = refl;
    }

    after-Step :
        (index : ℕ) (p : Bytes) (ps : List Bytes) (w w1 w' : World)
        → length p ≤ chunk_size
        → Step sha file index p w.objects w.db w1.objects w1.db
        → Loaded file ps w1.objects w1.db w'.objects w'.db
        → Loaded file (p ∷ ps) w.objects w.db w'.objects w'.db
    after-Step index p ps w w1 w' fits st l = record {
      sound = l.sound;
      kept = λ q e. l.kept q (st.kept q e);
      stored = ((l.kept p st.here, fits), l.stored);
      chunks =
          l.chunks
          ∙ (ap (λ (hs : List ℕ). hs ++ map sha ps) st.chunks
              ∙ append_assoc (hashes (chunks_of file w.db)) (sha p ∷ []) (map sha ps));
      files = l.files ∙ st.files;
    }

    unless_broken-ok :
        (o : Bool) (m : Action ℕ) (w : World) (t : ℕ) (w' : World)
        → unless_broken o m w ≡ (ok t, w')
        → m w ≡ (ok t, w')
    unless_broken-ok true m w t w' q = ground arith
    unless_broken-ok false m w t w' q = q

    next_round-ok :
        (b : Bool) (s : Stream) (total : ℕ) (loop : Bytes → ReadErr → Stream → Action ℕ) (w : World)
        (t : ℕ) (w' : World)
        → next_round b s total loop w ≡ (ok t, w')
        → ((b ≡ true) × (t ≡ total) × (w' ≡ w))
          ⊎ (let (n, ne, s') = read_full s in loop n ne s' w ≡ (ok t, w'))
    next_round-ok true s total loop w t w' q =
        inl (refl, (pure-ok total w t w' q).0, (pure-ok total w t w' q).1)
    next_round-ok false s total loop w t w' q =
        inr (unless_broken-ok (is_other (read_full s).1) _ w t w' q)

    -- From a success of the loop: the pieces, which make up the rest of the stream.
    pub store_loop-ok :
        (fuel : ℕ) (chunk : Bytes) (read_err : ReadErr) (s : Stream) (index total : ℕ) (w : World)
        (t : ℕ) (w' : World)
        → store_loop sha fuel file chunk read_err s index total w ≡ (ok t, w')
        → length chunk ≤ chunk_size
        → (is_end read_err ≡ true → s.rest ≡ [])
        → (chunk ≡ [] → s.rest ≡ [])
        → IsSound sha w.objects w.db
        → Before file index w.db.links
        → file < w.db.next_id
        → (ps : List Bytes) × (flat ps ≡ chunk ++ s.rest)
          × (t ≡ total + length (chunk ++ s.rest))
          × Loaded file ps w.objects w.db w'.objects w'.db
    unfolding store_loop
    store_loop-ok zero chunk e s index total w t w' h f1 f2 f3 sd bf kn = ground arith
    store_loop-ok (suc fuel) [] e s index total w t w' h f1 f2 f3 sd bf kn =
        let (et, ew) = pure-ok total w t w' h in
        ([], sym (f3 refl), rw (f3 refl) (omega arith), rw ew (nothing-Loaded w.objects w.db sd))
    store_loop-ok (suc fuel) (b ∷ bs) e s index total w t w' h f1 f2 f3 sd bf kn =
        let p : Bytes = b ∷ bs in
        let loop : Bytes → ReadErr → Stream → Action ℕ =
          λ n ne s'. store_loop sha fuel file n ne s' (suc index) (total + length p) in
        let (u, w1, st, more) =
          bind-ok (store_chunk sha file (sha p) p index)
            (λ _. next_round (is_end e) s (total + length p) loop) w t w' h in
        let step =
          Step-of index p w w1 sd f1 bf kn (store_chunk-Stored sha file p index w u w1 st) in
        elim (next_round-ok (is_end e) s (total + length p) loop w1 t w' more) [
          | inl (ended, et, ew) ↦ (
            p ∷ [],
            ap (λ (r : Bytes). p ++ r) (sym (f2 ended)),
            et ∙ rw (f2 ended) (omega (arith, length-append p [])),
            after-Step index p [] w w1 w' f1 step
                (rw ew (nothing-Loaded w1.objects w1.db step.sound)),
          )
          | inr next ↦
              let r = read_full-IsRead s in
              let (ps, ef, et, l) =
                store_loop-ok fuel (read_full s).0 (read_full s).1 (read_full s).2 (suc index)
                  (total + length p) w1 t w' next r.fits r.at_end r.nothing step.sound step.before
                  step.known in
              (
                p ∷ ps,
                ap (λ (x : Bytes). p ++ x) (ef ∙ r.whole),
                et ∙ rw r.whole (omega (arith, length-append p s.rest)),
                after-Step index p ps w w1 w' f1 step l,
              )
        ]
