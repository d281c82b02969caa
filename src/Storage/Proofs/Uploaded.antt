-- ===== src/Storage/Proofs/Uploaded.antt =====
-- What a finished upload leaves in the tables and in the bucket.
use distributed_cloud_system.Base.{
  ℕ, ◌≡◌, refl, ap, ◌∙◌, Option, some, List, [], ◌∷◌, ◌++◌, arith, String, length, map, All,
  All-append, All-map,
}
use distributed_cloud_system.Storage.World.{Database, ChunkRow, FileRow, Bytes, Status, ready}
use distributed_cloud_system.Storage.Repository.{file_row, set_ready}
use distributed_cloud_system.Storage.Chunks.{chunks_of}
use distributed_cloud_system.Storage.Service.{hashes}
use distributed_cloud_system.Storage.Proofs.Tables.{no_chunks}
use distributed_cloud_system.Storage.Proofs.Stored.{Objects, IsSound}
use distributed_cloud_system.Storage.Proofs.Loop.{Loaded, InStore, flat}
use distributed_cloud_system.Storage.Proofs.Created.{
  new_file, with_file, find-new, updated, find-set_ready, ids-set_ready, with_files,
}

module _ (sha : Bytes → ℕ) where
  -- The file is ready, belongs to the user, and its chunks are there and make up the bytes.
  pub record Uploaded (user : ℕ) (name : String) (content : Bytes) (file : ℕ) (o : Objects)
      (d : Database) : Type 0 where
    pub sound : IsSound sha o d
    pub row : FileRow
    pub found : file_row file d ≡ some row
    pub owner : row.user_id ≡ user
    pub named : row.name ≡ name
    pub is_ready : row.status ≡ ready
    pub sized : row.size ≡ length content
    pub pieces : List Bytes
    pub whole : flat pieces ≡ content
    pub chunks : hashes (chunks_of file d) ≡ map sha pieces
    pub stored : All (InStore sha o) pieces

  pub new_file-IsSound :
      (o : Objects) (d : Database) (f : FileRow)
      → f.id ≡ d.next_id
      → IsSound sha o d
      → IsSound sha o (with_file f d)
  new_file-IsSound o d f e s = record {
    consistent = record {
      by_id = s.consistent.by_id;
      chunk_ids = All-map _ _ d.chunks (λ c q. omega arith) s.consistent.chunk_ids;
      link_chunks = s.consistent.link_chunks;
      file_ids =
          All-append _ d.files (f ∷ [])
            (All-map _ _ d.files (λ c q. omega arith) s.consistent.file_ids) (omega arith, tt);
      link_files = All-map _ _ d.links (λ c q. omega arith) s.consistent.link_files;
    };
    backed = s.backed;
  }

  set_ready-IsSound :
      (o : Objects) (d : Database) (file size : ℕ) (s : Status) (now : ℕ)
      → IsSound sha o d
      → IsSound sha o (with_files (map (set_ready file size s now) d.files) d)
  set_ready-IsSound o d file size s now h = record {
    consistent = record {
      by_id = h.consistent.by_id;
      chunk_ids = h.consistent.chunk_ids;
      link_chunks = h.consistent.link_chunks;
      file_ids = ids-set_ready file size s now d.next_id d.files h.consistent.file_ids;
      link_files = h.consistent.link_files;
    };
    backed = h.backed;
  }

  -- The three steps after the row was created, put together.
  pub uploaded :
      (user : ℕ) (folder : Option ℕ) (name ct : String) (now total later : ℕ) (content : Bytes)
      (o o' : Objects) (d d' : Database)
      → IsSound sha o d
      → (ps : List Bytes) → flat ps ≡ content
      → total ≡ length content
      → (let f = new_file user folder name ct 0 now d in
          Loaded sha d.next_id ps o (with_file f d) o' d')
      → Uploaded user name content d.next_id o'
          (with_files (map (set_ready d.next_id total ready later) d'.files) d')
  unfolding chunks_of
  uploaded user folder name ct now total later content o o' d d' s ps whole size l =
      let f = new_file user folder name ct 0 now d in
      record {
        sound = set_ready-IsSound o' d' d.next_id total ready later l.sound;
        row = updated d.next_id total ready later f;
        found =
            find-set_ready d.next_id total ready later d'.files f
              (rw l.files (find-new d.files f s.consistent.file_ids));
        owner = refl;
        named = refl;
        is_ready = refl;
        sized = size;
        pieces = ps;
        whole = whole;
        chunks =
            l.chunks
            ∙ ap (λ (cs : List ChunkRow). hashes cs ++ map sha ps)
                (no_chunks d.next_id (with_file f d) s.consistent.link_files);
        stored = l.stored;
      }
