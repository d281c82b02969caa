-- ===== src/Storage/Proofs/Held.antt =====
-- What the collection of chunks leaves of a file.
use distributed_cloud_system.Base.{
  ℕ, ◌≡◌, refl, sym, ap, ◌∙◌, inl, inr, some, List, [], ◌∷◌, false, arith, any, find, keep, All,
  All-keep, All-map, All-both, ◌==◌, ==_iff, Bool-cases,
}
use distributed_cloud_system.Storage.World.{World, Database, ChunkRow, LinkRow}
use distributed_cloud_system.Storage.Action.{Result, ok, err, advance, next_outcome}
use distributed_cloud_system.Storage.Repository.{file_row}
use distributed_cloud_system.Storage.Chunks.{is_chunk, refers_to, of_file}
use distributed_cloud_system.Storage.Collection.{
  collect_chunk, collect_loop, count_result, is_pass, Tally,
}
use distributed_cloud_system.Storage.Proofs.Tables.{All-of_find}
use distributed_cloud_system.Storage.Proofs.Collected.{IsUntouched, collect_chunk-IsUntouched}
use distributed_cloud_system.Storage.Proofs.Spared.{
  OwnsHash, collect_chunk-IsSpared, collect_chunk-Spares,
}

module _ (file : ℕ) (before : World) where
  abbrev pub links_of : Database → List LinkRow
  links_of d = keep (of_file file) d.links

  -- The file's row, its links, the chunks that these find and their objects are those of before; the
  -- candidates of the collection have their hashes for themselves.
  pub record IsHeld (candidates : List ChunkRow) (w : World) : Type 0 where
    pub row : file_row file w.db ≡ file_row file before.db
    pub links : links_of w.db ≡ links_of before.db
    pub chunks :
        All
          (λ (l : LinkRow).
            find (is_chunk l.chunk_id) w.db.chunks ≡ find (is_chunk l.chunk_id) before.db.chunks)
          (links_of before.db)
    pub objects :
        All
          (λ (l : LinkRow).
            (x : ChunkRow)
            → find (is_chunk l.chunk_id) before.db.chunks ≡ some x
            → w.objects x.hash ≡ before.objects x.hash)
          (links_of before.db)
    pub hashes : All (OwnsHash w.db.chunks) candidates

  unused :
      (id : ℕ) (ls : List LinkRow)
      → any (refers_to id) ls ≡ false
      → All (λ (l : LinkRow). (l.chunk_id == id) ≡ false) ls
  unused id [] h = tt
  unused id (l ∷ ls) h = (ground (arith, h), unused id ls (ground (arith, h)))

  found_id : (i : ℕ) (cs : List ChunkRow) (x : ChunkRow) → find (is_chunk i) cs ≡ some x → x.id ≡ i
  found_id i [] x e = ground arith
  found_id i (c ∷ cs) x e = elim (Bool-cases (is_chunk i c)) [
    | inl here ↦ let same : c ≡ x = ground (arith, here) in rw (← same) ((==_iff c.id i).0 here)
    | inr other ↦ found_id i cs x (rw other at e)
  ]

  module _ (c : ChunkRow) (cs : List ChunkRow) (w : World) where
    abbrev w' : World
    w' = (collect_chunk c w).1

    -- The object of a chunk with another id is not the collected one.
    other_object :
        (i : ℕ) (x : ChunkRow)
        → OwnsHash w.db.chunks c
        → (i == c.id) ≡ false
        → find (is_chunk i) w.db.chunks ≡ some x
        → w'.objects x.hash ≡ w.objects x.hash
    other_object i x owns other found = elim (Bool-cases (x.hash == c.hash)) [
      | inr apart ↦ collect_chunk-Spares c w.objects w (λ k e. refl) x.hash apart
      | inl same ↦
          let ids =
            All-of_find (is_chunk i) (λ (y : ChunkRow). y.hash ≡ c.hash → y.id ≡ c.id) w.db.chunks x
              owns found ((==_iff x.hash c.hash).0 same) in
          let here = found_id i w.db.chunks x found in
          absurd (ground (arith, other, here, ids, (==_iff i c.id).1 (sym here ∙ ids)))
    ]

    collect_free : any (refers_to c.id) w.db.links ≡ false → IsHeld (c ∷ cs) w → IsHeld cs w'
    collect_free free h =
        let s =
          collect_chunk-IsSpared c cs w.db w
            (record { files = refl; links = refl; chunks = λ i o. refl; hashes = h.hashes.1 }) in
        let apart : All (λ (l : LinkRow). (l.chunk_id == c.id) ≡ false) (links_of before.db) =
          rw h.links at (All-keep _ (of_file file) w.db.links (unused c.id w.db.links free)) in
        let both = All-both _ _ (links_of before.db) apart h.chunks in
        record {
          row = rw s.files h.row;
          links = ap (keep (of_file file)) s.links ∙ h.links;
          chunks = All-map _ _ (links_of before.db) (λ l x. s.chunks l.chunk_id x.0 ∙ x.1) both;
          objects =
              All-map _ _ (links_of before.db)
                (λ l y x found.
                  other_object l.chunk_id x h.hashes.0 y.0.0 (y.0.1 ∙ found) ∙ y.1 x found)
                (All-both _ _ (links_of before.db) both h.objects);
          hashes = s.hashes;
        }

    -- A chunk that one of the file's links finds is not the collected one.
    collect_chunk-IsHeld : IsHeld (c ∷ cs) w → IsHeld cs w'
    collect_chunk-IsHeld h = elim (Bool-cases (any (refers_to c.id) w.db.links)) [
      | inl used ↦ go (collect_chunk c w) (collect_chunk-IsUntouched c w used)
      | inr free ↦ collect_free free h
    ]
      where
        go : (x : Result Unit × World) → IsUntouched w x → IsHeld cs x.1
        go (ok _, w1) u = absurd u
        go (err e, w1) (same, bucket) = record {
          row = rw same h.row;
          links = rw same h.links;
          chunks = rw same h.chunks;
          objects = rw bucket h.objects;
          hashes = rw same h.hashes.1;
        }

  pub advanced : (cs : List ChunkRow) (w : World) → IsHeld cs w → IsHeld cs (advance w)
  advanced cs w h = record {
    row = h.row;
    links = h.links;
    chunks = h.chunks;
    objects = h.objects;
    hashes = h.hashes;
  }

  pub narrow :
      (cs ds : List ChunkRow) (w : World)
      → All (OwnsHash w.db.chunks) ds
      → IsHeld cs w
      → IsHeld ds w
  narrow cs ds w own h = record {
    row = h.row;
    links = h.links;
    chunks = h.chunks;
    objects = h.objects;
    hashes = own;
  }

  pub collect_loop-IsHeld :
      (cs : List ChunkRow) (t : Tally) (w : World) → IsHeld cs w → IsHeld [] (collect_loop cs t w).1
  unfolding collect_loop
  collect_loop-IsHeld [] t w h = h
  collect_loop-IsHeld (c ∷ cs) t w h = elim (Bool-cases (is_pass (next_outcome w.plan))) [
    | inr over ↦ rw (over, collect_loop) (narrow _ [] (advance w) tt (advanced (c ∷ cs) w h))
    | inl goes_on ↦
        let (r, w1) = collect_chunk c (advance w) in
        rw (goes_on, collect_loop)
          (collect_loop-IsHeld cs (count_result r t) w1
            (collect_chunk-IsHeld c cs (advance w) (advanced (c ∷ cs) w h)))
  ]
