-- ===== src/Storage/Proofs/Step.antt =====
-- What one stored chunk means for its file: the file grows by the chunk, and the bucket has it.
use distributed_cloud_system.Base.{
  ℕ, suc, ◌≤◌, ◌<◌, ◌≡◌, refl, sym, ap, ◌∙◌, some, List, [], ◌∷◌, ◌++◌, arith, if◌then◌else◌, find,
  length, map-append, All-append, All-map, ◌==◌, ==_iff, ==_refl, Bool-cases, inl, inr,
}
use distributed_cloud_system.Storage.World.{Database, ChunkRow, Bytes}
use distributed_cloud_system.Storage.Chunks.{
  has_hash, chunk_by_hash, new_chunk, with_chunk, chunks_of,
}
use distributed_cloud_system.Storage.Reader.{chunk_size}
use distributed_cloud_system.Storage.Service.{hashes}
use distributed_cloud_system.Storage.Proofs.Tables.{
  All-of_find, with_link, with_link-IsConsistent, with_chunk-IsConsistent, found_new, Before,
  Before-with_link, chunks_of-with_link, chunks_of-with_chunk,
}
use distributed_cloud_system.Storage.Proofs.Stored.{Objects, HasObject, IsSound}

module _ (h : ℕ) where
  found_hash : (cs : List ChunkRow) (c : ChunkRow) → find (has_hash h) cs ≡ some c → c.hash ≡ h
  found_hash [] c e = ground arith
  found_hash (x ∷ xs) c e = ground (arith, found_hash xs c)

abbrev pub put : Objects → ℕ → Bytes → Objects
put o h b = λ k. if k == h then some b else o k

module _ (sha : Bytes → ℕ) where
  -- No two contents have one digest.
  abbrev pub IsCollisionFree : Type 0
  IsCollisionFree = (b c : Bytes) → sha b ≡ sha c → b ≡ c

  -- The step of a file by a chunk, on the bucket and the tables.
  pub record Step (file index : ℕ) (p : Bytes) (o : Objects) (d : Database) (o' : Objects)
      (d' : Database) : Type 0 where
    pub sound : IsSound sha o' d'
    pub kept : (q : Bytes) → o (sha q) ≡ some q → o' (sha q) ≡ some q
    pub here : o' (sha p) ≡ some p
    pub chunks : hashes (chunks_of file d') ≡ hashes (chunks_of file d) ++ sha p ∷ []
    pub before : Before file (suc index) d'.links
    pub known : file < d'.next_id
    pub files : d'.files ≡ d.files

  put-HasObject :
      (o : Objects) (p : Bytes) (h : ℕ)
      → length p ≤ chunk_size
      → HasObject sha o h
      → HasObject sha (put o (sha p) p) h
  put-HasObject o p h fits (b, e, s, l) = elim (Bool-cases (h == sha p)) [
    | inl q ↦ (p, rw q refl, sym ((==_iff h (sha p)).0 q), fits)
    | inr q ↦ (b, rw q e, s, l)
  ]

  module _ (free : IsCollisionFree) (file index : ℕ) (p : Bytes) (o : Objects) (d : Database)
      (s : IsSound sha o d) (fits : length p ≤ chunk_size) (before : Before file index d.links)
      (known : file < d.next_id) where
    put_kept : (q : Bytes) → o (sha q) ≡ some q → put o (sha p) p (sha q) ≡ some q
    put_kept q e = elim (Bool-cases (sha q == sha p)) [
      | inl same ↦ rw same (ap some (sym (free q p ((==_iff (sha q) (sha p)).0 same))))
      | inr other ↦ rw other e
    ]

    pub Step-fresh :
        (now : ℕ)
        → let c = new_chunk (sha p) (length p) now d in
          Step file index p o d (put o (sha p) p) (
            with_link
              (record { file_id = file; chunk_id = c.id; chunk_index = index })
              (with_chunk c d))
    Step-fresh now =
        let c = new_chunk (sha p) (length p) now d in
        let d1 = with_chunk c d in
        let consistent = with_chunk-IsConsistent d c refl s.consistent in
        let at_id = found_new d c refl s.consistent.chunk_ids in
        record {
          sound = record {
            consistent = with_link-IsConsistent file index c d1 at_id (omega arith) consistent;
            backed =
                All-append _ d.chunks (c ∷ [])
                  (All-map _ _ d.chunks (λ x. put-HasObject o p x.hash fits) s.backed)
                  ((p, rw (==_refl (sha p)) refl, refl, fits), tt);
          };
          kept = put_kept;
          here = rw (==_refl (sha p)) refl;
          chunks =
              ap hashes (chunks_of-with_link file index c d1 at_id before)
              ∙ (map-append (λ (x : ChunkRow). x.hash) (chunks_of file d1) (c ∷ [])
                  ∙ ap (λ (l : List ChunkRow). hashes l ++ sha p ∷ [])
                      (chunks_of-with_chunk file c d s.consistent));
          before = Before-with_link file index c d1 before;
          known = omega arith;
          files = refl;
        }

    pub Step-shared :
        (c : ChunkRow)
        → chunk_by_hash (sha p) d ≡ some c
        → Step file index p o d o
            (with_link (record { file_id = file; chunk_id = c.id; chunk_index = index }) d)
    Step-shared c present =
        let at_id = All-of_find (has_hash (sha p)) _ d.chunks c s.consistent.by_id present in
        let (b, e, q, l) =
          All-of_find (has_hash (sha p)) (λ x. HasObject sha o x.hash) d.chunks c s.backed
            present in
        let same : c.hash ≡ sha p = found_hash (sha p) d.chunks c present in
        record {
          sound = record {
            consistent = with_link-IsConsistent file index c d at_id known s.consistent;
            backed = s.backed;
          };
          kept = λ q e. e;
          here = ap o (sym same) ∙ (e ∙ ap some (free b p (q ∙ same)));
          chunks =
              ap hashes (chunks_of-with_link file index c d at_id before)
              ∙ (map-append (λ (x : ChunkRow). x.hash) (chunks_of file d) (c ∷ [])
                  ∙ ap (λ (h : ℕ). hashes (chunks_of file d) ++ h ∷ []) same);
          before = Before-with_link file index c d before;
          known = known;
          files = refl;
        }
