-- ===== src/Storage/Handshake/Runs.antt =====
-- A run that loses the object of a file: a lock statement goes by what it saw when it began.
use distributed_cloud_system.Base.{refl, some, true}
use distributed_cloud_system.Storage.Handshake.{
  Chunk, nothing, Run, start, then, Collection, insert, upload, link_new, commit_new, share,
  link_old, commit_old, unlink, look, lock, remove,
}

-- A file of the content has been uploaded and deleted. An upload has the row locked when a collection
-- begins, which waits, and gets the lock when the upload has committed.
abbrev lost : Chunk
lost = record nothing { row = true; links = 1; collector = some Collection.removed }

loses : Run nothing lost
loses =
    then
      (then
        (then
          (then
            (then
              (then
                (then
                  (then (then (then (then start (insert refl refl)) (upload refl)) (link_new refl))
                    (commit_new refl))
                  (unlink refl))
                (share refl refl))
              (look refl refl))
            (link_old refl))
          (commit_old refl))
        (lock refl refl refl refl refl))
      (remove refl)
