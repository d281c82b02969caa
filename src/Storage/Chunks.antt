-- ===== src/Storage/Chunks.antt =====
-- internal/storage/repository.go: the methods on `chunks` and `file_chunks`.
use distributed_cloud_system.Base.{
  ℕ, zero, suc, ◌+◌, Option, none, some, List, [], ◌∷◌, ◌++◌, Bool, true, false, ◌&&◌, not, ltb,
  leb, ◌==◌, if◌then◌else◌, keep, find, any, length, take,
}
use distributed_cloud_system.Storage.World.{
  World, Database, FileRow, ChunkRow, LinkRow, uploading, Error, chunk_in_use, unresolved_race, db,
  no_rows, pg_error, Outcome, pass, fail, late, cut, DbError,
}
use distributed_cloud_system.Storage.Action.{
  ok, err, Action, raise, Statement, query, advance, next_outcome,
}
use distributed_cloud_system.Storage.Repository.{translate, delete_files}

abbrev pub has_hash : ℕ → ChunkRow → Bool
has_hash h c = c.hash == h

abbrev pub is_chunk : ℕ → ChunkRow → Bool
is_chunk id c = c.id == id

abbrev pub chunk_by_hash : ℕ → Database → Option ChunkRow
chunk_by_hash h d = find (has_hash h) d.chunks

abbrev pub new_chunk : ℕ → ℕ → ℕ → Database → ChunkRow
new_chunk h size now d = record { id = d.next_id; hash = h; size = size; created_at = now }

abbrev pub with_chunk : ChunkRow → Database → Database
with_chunk c d = record d { chunks = d.chunks ++ c ∷ []; next_id = suc d.next_id }

-- INSERT … ON CONFLICT (hash) DO NOTHING RETURNING id
unfoldable pub insert_chunk : ℕ → ℕ → Statement ℕ
insert_chunk h size now d = elim (chunk_by_hash h d) [
  | none ↦ (ok d.next_id, with_chunk (new_chunk h size now d) d)
  | some _ ↦ (err (db no_rows), d)
]

-- SELECT id FROM chunks WHERE hash = $1 FOR SHARE
unfoldable pub select_chunk : ℕ → Statement ℕ
select_chunk h now d = elim (chunk_by_hash h d) [
  | none ↦ (err (db no_rows), d)
  | some c ↦ (ok c.id, d)
]

-- What the loop of `GetOrCreateChunk` does with the answer of each query: a row ends it, no row
-- goes on, any other error ends it.
abbrev pub on_no_rows : Action (ℕ × Bool) → Bool → Action ℕ → Action (ℕ × Bool)
on_no_rows more is_new m w =
    let (r, w') = m w in
    elim r [
      | ok id ↦ (ok (id, is_new), w')
      | err e ↦ elim e [
        | db d ↦ elim d [ no_rows ↦ more w' | other ↦ (err (db other), w') ]
        | other ↦ (err other, w')
      ]
    ]

-- The attempts that are left; the source makes three.
unfoldable pub get_or_create : ℕ → ℕ → ℕ → Action (ℕ × Bool)
unfolding insert_chunk select_chunk
get_or_create zero h size = raise unresolved_race
get_or_create (suc attempts) h size =
    let again = get_or_create attempts h size in
    on_no_rows (on_no_rows again false (query (select_chunk h))) true (query (insert_chunk h size))

unfoldable pub get_or_create_chunk : ℕ → ℕ → Action (ℕ × Bool)
unfolding get_or_create
get_or_create_chunk h size = get_or_create 3 h size

abbrev pub refers_to : ℕ → LinkRow → Bool
refers_to chunk l = l.chunk_id == chunk

abbrev pub is_orphan : Database → ChunkRow → Bool
is_orphan d c = not (any (refers_to c.id) d.links)

unfoldable pub lock_orphan : ℕ → Statement Unit
lock_orphan chunk now d =
    (if any (λ c. is_chunk chunk c && is_orphan d c) d.chunks then ok tt else err (db no_rows), d)

abbrev pub in_use : DbError → Error
in_use no_rows = chunk_in_use
in_use other = db other

unfoldable pub lock_orphaned_chunk : ℕ → Action Unit
unfolding lock_orphan
lock_orphaned_chunk chunk = translate in_use (query (lock_orphan chunk))

abbrev pub at_index : ℕ → ℕ → LinkRow → Bool
at_index file index l = l.file_id == file && l.chunk_index == index

-- Both foreign keys (23503) and the primary key (23505) of `file_chunks`.
unfoldable pub insert_link : ℕ → ℕ → ℕ → Statement Unit
insert_link file chunk index now d =
    if not (any (λ f. f.id == file) d.files && any (is_chunk chunk) d.chunks)
    then (err (db (pg_error "23503")), d)
    else if any (at_index file index) d.links
    then (err (db (pg_error "23505")), d)
    else (
      ok tt,
      record d {
        links = d.links ++ record { file_id = file; chunk_id = chunk; chunk_index = index } ∷ [];
      },
    )

unfoldable pub link_file_chunk : ℕ → ℕ → ℕ → Action Unit
unfolding insert_link
link_file_chunk file chunk index = query (insert_link file chunk index)

-- ORDER BY fc.chunk_index ASC
unfoldable pub place : LinkRow → List LinkRow → List LinkRow
place l [] = l ∷ []
place l (m ∷ ms) = if leb l.chunk_index m.chunk_index then l ∷ m ∷ ms else m ∷ place l ms

unfoldable pub order_by_index : List LinkRow → List LinkRow
order_by_index [] = []
order_by_index (l ∷ ls) = place l (order_by_index ls)

-- JOIN on `c.id = fc.chunk_id`
unfoldable pub join_chunks : List ChunkRow → List LinkRow → List ChunkRow
join_chunks cs [] = []
join_chunks cs (l ∷ ls) =
    let rest = join_chunks cs ls in
    elim (find (is_chunk l.chunk_id) cs) [ none ↦ rest | some c ↦ c ∷ rest ]

abbrev pub of_file : ℕ → LinkRow → Bool
of_file file l = l.file_id == file

unfoldable pub chunks_of : ℕ → Database → List ChunkRow
unfolding order_by_index join_chunks place
chunks_of file d = join_chunks d.chunks (order_by_index (keep (of_file file) d.links))

-- A query with many rows. `rows.Next` also stops where the connection breaks, and the loops do not
-- look at `rows.Err` afterwards: what has arrived by then is the answer.
abbrev pub attempt_rows : {A : Type 0} → Outcome → (World → List A) → Action (List A)
attempt_rows pass f w = (ok (f w), w)
attempt_rows (fail e) f w = (err (db e), w)
attempt_rows (late e) f w = (err (db e), w)
attempt_rows (cut n) f w = (ok (take n (f w)), w)

unfoldable pub query_rows : {A : Type 0} → (World → List A) → Action (List A)
query_rows f w = attempt_rows (next_outcome w.plan) f (advance w)

unfoldable pub get_file_chunks : ℕ → Action (List ChunkRow)
get_file_chunks file = query_rows (λ w. chunks_of file w.db)

-- `c.created_at < now - min_age`
abbrev pub is_old_orphan : ℕ → World → ChunkRow → Bool
is_old_orphan min_age w c = is_orphan w.db c && ltb (c.created_at + min_age) w.now

unfoldable pub get_orphaned_chunks : ℕ → Action (List ChunkRow)
get_orphaned_chunks min_age = query_rows (λ w. keep (is_old_orphan min_age w) w.db.chunks)

abbrev pub is_uploading : FileRow → Bool
is_uploading f = elim f.status [ uploading ↦ true | _ ↦ false ]

abbrev pub is_stale : ℕ → ℕ → FileRow → Bool
is_stale min_age now f = is_uploading f && ltb (f.updated_at + min_age) now

unfoldable pub delete_stale : ℕ → Statement ℕ
delete_stale min_age now d =
    (ok (length (keep (is_stale min_age now) d.files)), delete_files (is_stale min_age now) d)

unfoldable pub delete_stale_uploads : ℕ → Action ℕ
unfolding delete_stale
delete_stale_uploads min_age = query (delete_stale min_age)

-- `file_chunks.chunk_id` is ON DELETE RESTRICT.
unfoldable pub delete_chunk_row : ℕ → Statement Unit
delete_chunk_row chunk now d =
    if any (refers_to chunk) d.links
    then (err (db (pg_error "23503")), d)
    else (ok tt, record d { chunks = keep (λ c. not (is_chunk chunk c)) d.chunks })

unfoldable pub delete_chunk_record : ℕ → Action Unit
unfolding delete_chunk_row
delete_chunk_record chunk = query (delete_chunk_row chunk)
