-- ===== src/Storage/Proofs/Tables.antt =====
-- The tables: consistent ids and references, and the chunks of a file under each statement.
use distributed_cloud_system.Base.{
  ℕ, suc, ◌≤◌, ◌<◌, ◌≡◌, refl, ◌∙◌, none, some, List, [], ◌∷◌, ◌++◌, Bool, true, arith, find, any,
  keep, leb, ==_refl, All, All-append, All-keep, All-map, Option-cases, Bool-cases, inl, inr,
}
use distributed_cloud_system.Storage.World.{Database, ChunkRow, LinkRow, FileRow}
use distributed_cloud_system.Storage.Chunks.{
  is_chunk, with_chunk, of_file, place, order_by_index, join_chunks, chunks_of,
}

-- Ids are given out once, a chunk is found by its own id, and links refer to what is there.
pub record IsConsistent (d : Database) : Type 0 where
  pub by_id : All (λ (c : ChunkRow). find (is_chunk c.id) d.chunks ≡ some c) d.chunks
  pub chunk_ids : All (λ (c : ChunkRow). c.id < d.next_id) d.chunks
  pub link_chunks : All (λ (l : LinkRow). any (is_chunk l.chunk_id) d.chunks ≡ true) d.links
  pub file_ids : All (λ (f : FileRow). f.id < d.next_id) d.files
  pub link_files : All (λ (l : LinkRow). l.file_id < d.next_id) d.links

module _ {A : Type 0} (p : A → Bool) where
  pub find-append : (xs ys : List A) (x : A) → find p xs ≡ some x → find p (xs ++ ys) ≡ some x
  find-append [] ys x h = cc
  find-append (y ∷ xs) ys x h = ground (arith, find-append xs ys x)

  pub find-append_none : (xs ys : List A) → find p xs ≡ none → find p (xs ++ ys) ≡ find p ys
  find-append_none [] ys h = refl
  find-append_none (y ∷ xs) ys h = ground (arith, find-append_none xs ys)

  pub any-append : (xs ys : List A) → any p xs ≡ true → any p (xs ++ ys) ≡ true
  any-append [] ys h = cc
  any-append (y ∷ xs) ys h = ground (arith, any-append xs ys)

  pub any-of_find : (xs : List A) (x : A) → find p xs ≡ some x → any p xs ≡ true
  any-of_find [] x h = cc
  any-of_find (y ∷ xs) x h = ground (arith, any-of_find xs x)

  pub find-of_any : (xs : List A) → any p xs ≡ true → (x : A) × (find p xs ≡ some x)
  find-of_any [] h = elim (Option-cases {A = A} none) [ inl _ ↦ ground arith | inr (x, e) ↦ (x, e) ]
  find-of_any (y ∷ xs) h = elim (Bool-cases (p y)) [
    | inl e ↦ (y, rw e)
    | inr e ↦ let (x, q) = find-of_any xs (rw e at h) in (x, rw e q)
  ]

  pub keep-append : (xs ys : List A) → keep p (xs ++ ys) ≡ keep p xs ++ keep p ys
  keep-append [] ys = refl
  keep-append (x ∷ xs) ys = ground (arith, keep-append xs ys)

  pub All-of_find : (P : A → Type 0) (xs : List A) (x : A) → All P xs → find p xs ≡ some x → P x
  All-of_find P [] x h e = ground arith
  All-of_find P (y ∷ xs) x h e = elim (Bool-cases (p y)) [
    | inl q ↦ rw (← some_eq (rw q at e)) h.0
    | inr q ↦ All-of_find P xs x h.1 (rw q at e)
  ]
    where
      some_eq : some y ≡ some x → y ≡ x
      some_eq q = cc

-- An id that has not been given out belongs to no chunk.
pub fresh_chunk :
    (cs : List ChunkRow) (n : ℕ) → All (λ c. c.id < n) cs → find (is_chunk n) cs ≡ none
fresh_chunk [] n h = refl
fresh_chunk (c ∷ cs) n h = ground (arith, fresh_chunk cs n h.1)

module _ (d : Database) (c : ChunkRow) (fresh : c.id ≡ d.next_id) where
  pub found_new :
      All (λ (x : ChunkRow). x.id < d.next_id) d.chunks
      → find (is_chunk c.id) (d.chunks ++ c ∷ []) ≡ some c
  found_new h =
      find-append_none (is_chunk c.id) d.chunks (c ∷ [])
        (rw fresh (fresh_chunk d.chunks d.next_id h))
      ∙ ground (arith, ==_refl c.id)

  pub with_chunk-IsConsistent : IsConsistent d → IsConsistent (with_chunk c d)
  with_chunk-IsConsistent h = record {
    by_id =
        All-append _ d.chunks (c ∷ [])
          (All-map _ _ d.chunks (λ x e. find-append (is_chunk x.id) d.chunks (c ∷ []) x e) h.by_id)
          (found_new h.chunk_ids, tt);
    chunk_ids =
        All-append _ d.chunks (c ∷ []) (All-map _ _ d.chunks (λ x e. omega arith) h.chunk_ids)
          (omega arith, tt);
    link_chunks =
        All-map _ _ d.links (λ l e. any-append (is_chunk l.chunk_id) d.chunks (c ∷ []) e)
          h.link_chunks;
    file_ids = All-map _ _ d.files (λ f e. omega arith) h.file_ids;
    link_files = All-map _ _ d.links (λ l e. omega arith) h.link_files;
  }

-- Chunks that links find stay what they find.
join-append :
    (cs ds : List ChunkRow) (ls : List LinkRow)
    → All (λ (l : LinkRow). any (is_chunk l.chunk_id) cs ≡ true) ls
    → join_chunks (cs ++ ds) ls ≡ join_chunks cs ls
unfolding join_chunks
join-append cs ds [] h = refl
join-append cs ds (l ∷ ls) h =
    let (c, e) = find-of_any (is_chunk l.chunk_id) cs h.0 in
    ground (arith, find-append (is_chunk l.chunk_id) cs ds c e, e, join-append cs ds ls h.1)

module _ (P : LinkRow → Type 0) where
  All-place : (l : LinkRow) (ls : List LinkRow) → P l → All P ls → All P (place l ls)
  unfolding place
  All-place l [] h hs = (h, tt)
  All-place l (m ∷ ms) h hs = elim (Bool-cases (leb l.chunk_index m.chunk_index)) [
    | inl e ↦ rw e (h, hs)
    | inr e ↦ rw e (hs.0, All-place l ms h hs.1)
  ]

  pub All-order_by_index : (ls : List LinkRow) → All P ls → All P (order_by_index ls)
  unfolding order_by_index
  All-order_by_index [] h = tt
  All-order_by_index (l ∷ ls) h = All-place l (order_by_index ls) h.0 (All-order_by_index ls h.1)

-- A link behind all others stays behind them.
place-append :
    (l m : LinkRow) (ls : List LinkRow)
    → l.chunk_index ≤ m.chunk_index
    → place l (ls ++ m ∷ []) ≡ place l ls ++ m ∷ []
unfolding place
place-append l m [] h = ground arith
place-append l m (k ∷ ks) h = ground (arith, place-append l m ks h)

order-append :
    (m : LinkRow) (ls : List LinkRow)
    → All (λ (l : LinkRow). l.chunk_index < m.chunk_index) ls
    → order_by_index (ls ++ m ∷ []) ≡ order_by_index ls ++ m ∷ []
unfolding order_by_index place
order-append m [] h = refl
order-append m (l ∷ ls) h =
    rw (order-append m ls h.1) (place-append l m (order_by_index ls) (omega arith))

join-append_link :
    (cs : List ChunkRow) (ls : List LinkRow) (l : LinkRow) (c : ChunkRow)
    → find (is_chunk l.chunk_id) cs ≡ some c
    → join_chunks cs (ls ++ l ∷ []) ≡ join_chunks cs ls ++ c ∷ []
unfolding join_chunks
join-append_link cs [] l c e = ground arith
join-append_link cs (m ∷ ls) l c e = ground (arith, join-append_link cs ls l c e)

-- The links of a file all stand before `index`.
abbrev pub Before : ℕ → ℕ → List LinkRow → Type 0
Before file index ls = All (λ (l : LinkRow). l.chunk_index < index) (keep (of_file file) ls)

-- A new chunk row is in no file yet.
pub chunks_of-with_chunk :
    (file : ℕ) (c : ChunkRow) (d : Database)
    → IsConsistent d
    → chunks_of file (with_chunk c d) ≡ chunks_of file d
unfolding chunks_of
chunks_of-with_chunk file c d h =
    join-append d.chunks (c ∷ []) (order_by_index (keep (of_file file) d.links))
      (All-order_by_index _ _ (All-keep _ (of_file file) d.links h.link_chunks))

abbrev pub with_link : LinkRow → Database → Database
with_link l d = record d { links = d.links ++ l ∷ [] }

module _ (file index : ℕ) (c : ChunkRow) (d : Database) where
  abbrev link_here : LinkRow
  link_here = record { file_id = file; chunk_id = c.id; chunk_index = index }

  -- A link behind the others of its file puts its chunk at the end of the file.
  pub chunks_of-with_link :
      find (is_chunk c.id) d.chunks ≡ some c
      → Before file index d.links
      → chunks_of file (with_link link_here d) ≡ chunks_of file d ++ c ∷ []
  unfolding chunks_of
  chunks_of-with_link found before =
      rw (keep-append (of_file file) d.links (link_here ∷ []), ==_refl file)
        (rw (order-append link_here (keep (of_file file) d.links) before)
          (join-append_link d.chunks _ link_here c found))

  pub Before-with_link :
      Before file index d.links → Before file (suc index) (with_link link_here d).links
  Before-with_link before =
      rw (keep-append (of_file file) d.links (link_here ∷ []), ==_refl file)
        (All-append _ (keep (of_file file) d.links) (link_here ∷ [])
          (All-map _ _ (keep (of_file file) d.links) (λ l e. omega arith) before) (omega arith, tt))

  pub with_link-IsConsistent :
      find (is_chunk c.id) d.chunks ≡ some c
      → file < d.next_id
      → IsConsistent d
      → IsConsistent (with_link link_here d)
  with_link-IsConsistent found known h = record {
    by_id = h.by_id;
    chunk_ids = h.chunk_ids;
    link_chunks =
        All-append _ d.links (link_here ∷ []) h.link_chunks
          (any-of_find (is_chunk c.id) d.chunks c found, tt);
    file_ids = h.file_ids;
    link_files = All-append _ d.links (link_here ∷ []) h.link_files (known, tt);
  }

-- A file that has not been created has no links.
pub no_links :
    (n : ℕ) (ls : List LinkRow) → All (λ (l : LinkRow). l.file_id < n) ls → keep (of_file n) ls ≡ []
no_links n [] h = refl
no_links n (l ∷ ls) h = ground (arith, no_links n ls h.1)

pub no_chunks :
    (n : ℕ) (d : Database) → All (λ (l : LinkRow). l.file_id < n) d.links → chunks_of n d ≡ []
unfolding chunks_of
no_chunks n d h = rw (no_links n d.links h) refl
