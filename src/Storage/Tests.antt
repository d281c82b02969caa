-- ===== src/Storage/Tests.antt =====
-- Runs of internal/storage on small data, and its theorems at concrete inputs.
use distributed_cloud_system.Base.{
  split, ℕ, ◌≡◌, ◌≢◌, ◌⊎◌, refl, String, none, some, List, [], ◌∷◌, true, false, arith,
}
use distributed_cloud_system.Storage.Samples.{
  encode, encode-IsCollisionFree, tables, empty_world, empty-IsSound,
}
use distributed_cloud_system.Storage.Handler.{form, created, handle_upload, handle_download}
use distributed_cloud_system.Storage.Handler.Unswept.{handle_download-run_garbage_collection}
use distributed_cloud_system.Storage.Collection.{collect_chunk, run_garbage_collection}
use distributed_cloud_system.Storage.Proofs.Fuel.{upload_file-HasEnded}
use distributed_cloud_system.Storage.Proofs.Collected.{
  IsUntouched, collect_chunk-IsUntouched, collect_chunk-stranded,
}
use distributed_cloud_system.Storage.Proofs.Succeeds.{upload_file_succeeds}
use distributed_cloud_system.Storage.Proofs.OnlyOld.{OnlyOld}
use distributed_cloud_system.Storage.Disposition.{
  safe_name, base, last_part, without_control, forward_slashes,
}
use distributed_cloud_system.Storage.Disposition.Safe.{IsBare, safe_name-IsBare}
use distributed_cloud_system.Storage.Handshake.{
  Chunk, nothing, removed, has_failed_late, Run, start, then, insert, upload, link_new, commit_new,
}
use distributed_cloud_system.Storage.Handshake.Safe.{Run_backed}
use distributed_cloud_system.Storage.World.{
  db, World, FileRow, ready, uploading, ChunkRow, Bytes, pass, fail, no_rows, broken, out_of_fuel,
}
use distributed_cloud_system.Storage.Action.{ok, err, query, effect, in_tx}
use distributed_cloud_system.Storage.Repository.{FileInfo, create_file, update_file_size_and_status}
use distributed_cloud_system.Storage.Chunks.{get_or_create_chunk, link_file_chunk}
use distributed_cloud_system.Storage.Reader.{chunk_size, copy_all}
use distributed_cloud_system.Storage.Service.{
  Stream, read_full, upload_chunk, store_chunk, store_loop, store_chunks, upload_file,
  finish_upload, download_file,
}
use distributed_cloud_system.Storage.Proofs.Download.{calm, Verified, copy_all-Verified}
use distributed_cloud_system.Storage.Proofs.Roundtrip.{download-upload}

abbrev detect : Bytes → String
detect _ = "text/plain"

abbrev stream : Stream
stream = record { rest = 5 ∷ 6 ∷ 7 ∷ []; breaks = false }

-- The first attempt of the insertion loses a race, and publishing the event fails.
abbrev bumpy : World
bumpy = record empty_world {
  plan =
      pass
      ∷ pass
      ∷ fail no_rows
      ∷ fail no_rows
      ∷ pass
      ∷ pass
      ∷ pass
      ∷ pass
      ∷ pass
      ∷ fail broken
      ∷ [];
}

uploaded_world : World
unfolding upload_file finish_upload store_chunks store_loop store_chunk read_full chunk_size
    create_file get_or_create_chunk link_file_chunk upload_chunk update_file_size_and_status query
    effect in_tx
uploaded_world = (upload_file encode detect true 7 none "a.txt" stream bumpy).1

upload_runs : (upload_file encode detect true 7 none "a.txt" stream bumpy) ≡ (ok 1, uploaded_world)
unfolding uploaded_world
upload_runs = refl

download-upload_example :
    (hs : List ℕ) × (info : FileInfo) × (download_file 7 1 (calm uploaded_world)
      ≡ (ok (hs, info), calm uploaded_world))
    × (info.name ≡ "a.txt")
    × ((copy_all encode hs (calm uploaded_world)).0
        ≡ record { out = 5 ∷ 6 ∷ 7 ∷ []; ended = ok tt })
download-upload_example =
    download-upload encode detect true 7 none "a.txt" stream bumpy 1 uploaded_world
      encode-IsCollisionFree empty-IsSound upload_runs

copy_all-Verified_example :
    Verified encode
      (encode (5 ∷ []) ∷ 9 ∷ [])
      (copy_all encode (encode (5 ∷ []) ∷ 9 ∷ []) uploaded_world).0
copy_all-Verified_example = copy_all-Verified encode (encode (5 ∷ []) ∷ 9 ∷ []) uploaded_world

-- A chunk of a file, which the collector was told is an orphan.
abbrev shared_chunk : ChunkRow
shared_chunk = record { id = 2; hash = 9; size = 1; created_at = 0 }

abbrev holding : World
holding = record empty_world {
  db = record tables {
    chunks = shared_chunk ∷ [];
    links = record { file_id = 1; chunk_id = 2; chunk_index = 0 } ∷ [];
  };
}

collect_chunk-IsUntouched_example : IsUntouched holding (collect_chunk shared_chunk holding)
collect_chunk-IsUntouched_example = collect_chunk-IsUntouched shared_chunk holding refl

upload_file-HasEnded_example :
    (upload_file encode detect true 7 none "a.txt" stream bumpy).0 ≢ err out_of_fuel
upload_file-HasEnded_example = upload_file-HasEnded encode detect true 7 none "a.txt" stream bumpy

posts :
    handle_upload encode detect true (some 7) (form none "a.txt" stream) bumpy
    ≡ (created 1, uploaded_world)
unfolding handle_upload
posts = rw upload_runs refl

-- A world with an orphan, in which the commit of its collection fails.
abbrev failing_commit : World
failing_commit = record empty_world {
  db = record tables { chunks = shared_chunk ∷ [] };
  objects = λ _. some (1 ∷ []);
  plan = pass ∷ pass ∷ pass ∷ pass ∷ fail broken ∷ [];
}

collect_chunk-stranded_example :
    ((collect_chunk shared_chunk failing_commit).0 ≡ err (db broken))
    × ((collect_chunk shared_chunk failing_commit).1.db ≡ failing_commit.db)
    × ((collect_chunk shared_chunk failing_commit).1.objects 9 ≡ none)
collect_chunk-stranded_example =
    collect_chunk-stranded shared_chunk failing_commit broken [] refl refl refl

-- A content that has been uploaded once, and one that a deleted file has left.
abbrev uploaded_once : Chunk
uploaded_once = record nothing { row = true; links = 1; object = true }

uploads_once : Run nothing uploaded_once
uploads_once =
    then (then (then (then start (insert refl refl)) (upload refl)) (link_new refl))
      (commit_new refl)

Run_backed_example :
    (uploaded_once.row ≡ true)
    × ((uploaded_once.object ≡ true)
        ⊎ ((has_failed_late uploads_once ≡ true)
            ⊎ ((uploaded_once.collector ≡ some removed)
                × (uploaded_once.sharers ≡ 0)
                × (uploaded_once.linkers ≡ 0))))
Run_backed_example = Run_backed uploads_once (λ e. absurd (omega (arith, e)))

upload_file_succeeds_example :
    (w : World) × (upload_file encode detect true 7 none "a.txt" stream (calm bumpy)
      ≡ (ok 1, calm w))
upload_file_succeeds_example =
    upload_file_succeeds encode encode-IsCollisionFree detect true 7 none "a.txt" stream bumpy refl
      empty-IsSound tt refl

safe_name-IsBare_example : IsBare (safe_name "..\\..\\etc/passwd")
safe_name-IsBare_example = safe_name-IsBare "..\\..\\etc/passwd"

takes_last : safe_name "..\\..\\etc/passwd/" ≡ "passwd"
unfolding safe_name base last_part without_control forward_slashes split
takes_last = refl

-- The last update of an upload fails, and so does its clean-up.
abbrev unlucky : World
unlucky = record empty_world {
  plan = pass ∷ pass ∷ pass ∷ pass ∷ pass ∷ pass ∷ fail broken ∷ fail broken ∷ [];
}

failed_world : World
unfolding upload_file finish_upload store_chunks store_loop store_chunk read_full chunk_size
    create_file get_or_create_chunk link_file_chunk upload_chunk update_file_size_and_status query
    effect in_tx
failed_world = (upload_file encode detect true 7 none "a.txt" stream unlucky).1

-- A ready file, a stale one and a left-over chunk, in a collection whose first sweep fails.
abbrev kept_row : FileRow
kept_row = record {
  id = 1;
  user_id = 7;
  folder_id = none;
  name = "a.txt";
  content_type = "text/plain";
  size = 1;
  status = ready;
  created_at = 3;
  updated_at = 3;
}

abbrev sweepable : World
sweepable = record empty_world {
  db = record tables {
    files = kept_row ∷ record kept_row { id = 5; status = uploading } ∷ [];
    chunks = shared_chunk ∷ record { id = 3; hash = 4; size = 2; created_at = 1 } ∷ [];
    links = record { file_id = 1; chunk_id = 2; chunk_index = 0 } ∷ [];
    next_id = 6;
  };
  objects = λ _. some (1 ∷ []);
  plan = fail broken ∷ [];
}

handle_download-run_garbage_collection_example :
    (handle_download encode (some 7) (some 1) (calm (run_garbage_collection 10 sweepable).1)).0
    ≡ (handle_download encode (some 7) (some 1) (calm sweepable)).0
handle_download-run_garbage_collection_example =
    handle_download-run_garbage_collection encode 7 1 10 sweepable kept_row refl refl refl
      ((λ e. refl), ((λ e. ground arith), tt))
      (((λ e. refl), ((λ e. ground arith), tt)), (((λ e. ground arith), ((λ e. refl), tt)), tt))
