-- ===== src/Storage/Handler/Served.antt =====
-- The endpoints together: a file that was uploaded is served again.
use distributed_cloud_system.Base.{
  ℕ, ◌≡◌, refl, ap, String, Option, some, List, [], ◌∷◌, Bool, arith,
}
use distributed_cloud_system.Storage.World.{World, Bytes}
use distributed_cloud_system.Storage.Action.{Result, ok, err}
use distributed_cloud_system.Storage.Reader.{Copied, load, copy_next, copy_all}
use distributed_cloud_system.Storage.Service.{Stream, upload_file}
use distributed_cloud_system.Storage.Handler.{
  form, Response, created, served, uploaded, handle_upload, handle_download, peek_next,
  peek_and_copy, content_type_or_default,
}
use distributed_cloud_system.Storage.Proofs.Stored.{IsSound}
use distributed_cloud_system.Storage.Proofs.Step.{IsCollisionFree}
use distributed_cloud_system.Storage.Proofs.Download.{calm}
use distributed_cloud_system.Storage.Proofs.Roundtrip.{download-upload}

module _ (sha : Bytes → ℕ) where
  peek_next-ok :
      (x : Result Bytes × World) (peek : World → Option Copied × World)
      (copy : World → Copied × World)
      → ((w : World) → (copy w).0.ended ≡ ok tt → (peek w).0 ≡ some (copy w).0)
      → (copy_next sha x copy).0.ended ≡ ok tt
      → (peek_next sha x peek copy).0 ≡ some (copy_next sha x copy).0
  peek_next-ok (err e, w) peek copy h done = ground arith
  peek_next-ok (ok [], w) peek copy h done = h w done
  peek_next-ok (ok (b ∷ bs), w) peek copy h done = refl

  -- The peek changes nothing of a copy that ends well.
  peek_and_copy-ok :
      (hs : List ℕ) (w : World)
      → (copy_all sha hs w).0.ended ≡ ok tt
      → (peek_and_copy sha hs w).0 ≡ some (copy_all sha hs w).0
  unfolding peek_and_copy copy_all
  peek_and_copy-ok [] w done = refl
  peek_and_copy-ok (h ∷ hs) w done =
      peek_next-ok (load sha h w) (λ w1. peek_and_copy sha hs w1) (λ w1. copy_all sha hs w1)
        (λ w1 e. peek_and_copy-ok hs w1 e) done

  uploaded-created : (r : Result ℕ) (id : ℕ) → uploaded r ≡ created id → r ≡ ok id
  uploaded-created r id e = ground arith

  -- Where the digest has no collisions and the store is sound, a file whose upload was answered with
  -- an id, whatever failures the upload met, is served to its owner: with no further failures the
  -- download is answered with a file whose body is the uploaded content, and the body is complete.
  pub handle_download-handle_upload :
      (detect : Bytes → String) (has_publisher : Bool) (user : ℕ) (folder : Option ℕ)
      (name : String) (s : Stream) (w : World) (id : ℕ) (w' : World)
      → IsCollisionFree sha
      → IsSound sha w.objects w.db
      → handle_upload sha detect has_publisher (some user) (form folder name s) w ≡ (created id, w')
      → (content_type : String) × ((handle_download sha (some user) (some id) (calm w')).0
          ≡ served content_type (record { out = s.rest; ended = ok tt }))
  unfolding handle_upload handle_download
  handle_download-handle_upload detect hp user folder name s w id w' free sound h =
      let r =
        uploaded-created (upload_file sha detect hp user folder name s w).0 id
          (ap (λ (x : Response × World). x.0) h) in
      let x = ap (λ (y : Response × World). y.1) h in
      let (hs, info, downloads, _, copies) =
        download-upload sha detect hp user folder name s w id w' free sound (λ i. (r i, x i)) in
      let complete = ap (λ (c : Copied). c.ended) copies in
      (
        content_type_or_default info.content_type,
        rw downloads (rw (peek_and_copy-ok hs (calm w') complete, copies) refl),
      )
