-- ===== src/Storage/Proofs/Roundtrip.antt =====
-- What internal/storage promises of a file that was uploaded.
use distributed_cloud_system.Base.{ℕ, ◌≡◌, String, Option, Bool, List}
use distributed_cloud_system.Storage.World.{World, Bytes}
use distributed_cloud_system.Storage.Action.{ok}
use distributed_cloud_system.Storage.Repository.{FileInfo}
use distributed_cloud_system.Storage.Reader.{copy_all}
use distributed_cloud_system.Storage.Service.{Stream, upload_file, download_file}
use distributed_cloud_system.Storage.Proofs.Stored.{IsSound}
use distributed_cloud_system.Storage.Proofs.Step.{IsCollisionFree}
use distributed_cloud_system.Storage.Proofs.Upload.{upload_file-ok}
use distributed_cloud_system.Storage.Proofs.Download.{calm, read_back}

-- Where the digest has no collisions and the store is sound, an upload that returns a file id,
-- whatever failures it met, leaves a file that its owner can download: with no further failures
-- the download succeeds, has the given name, and copying its readers hands out exactly the bytes
-- of the uploaded stream.
pub download-upload :
    (sha : Bytes → ℕ) (detect : Bytes → String) (has_publisher : Bool) (user : ℕ)
    (folder : Option ℕ) (name : String) (s : Stream) (w : World) (id : ℕ) (w' : World)
    → IsCollisionFree sha
    → IsSound sha w.objects w.db
    → upload_file sha detect has_publisher user folder name s w ≡ (ok id, w')
    → (hs : List ℕ) × (info : FileInfo) × (download_file user id (calm w')
        ≡ (ok (hs, info), calm w'))
      × (info.name ≡ name)
      × ((copy_all sha hs (calm w')).0 ≡ record { out = s.rest; ended = ok tt })
download-upload sha detect hp user folder name s w id w' free sound h =
    read_back sha user name s.rest id w'
      (upload_file-ok sha free detect hp user folder name s w id w' sound h)
