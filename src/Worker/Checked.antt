-- ===== src/Worker/Checked.antt =====
-- internal/worker/processor.go: the buffer holds what was stored, chunk by chunk.
use distributed_cloud_system.Base.{ℕ, ◌≤◌, ◌≡◌, ◌∙◌, ◌⊎◌, inl, inr, List, length, take, ap, subst}
use distributed_cloud_system.Storage.World.{World, Bytes, Error}
use distributed_cloud_system.Storage.Action.{ok, err}
use distributed_cloud_system.Storage.Reader.{Copied, copy_all}
use distributed_cloud_system.Storage.Proofs.Loop.{flat}
use distributed_cloud_system.Storage.Proofs.Download.{Matches, Verified, copy_all-Verified}
use distributed_cloud_system.Worker.Reading.{Begins, read_up_to, read_up_to-Begins}

module _ (sha : Bytes → ℕ) where
  -- The beginning of contents that have the first of the digests; without an error it is full, or there
  -- is a content for each digest.
  abbrev pub IsChecked : ℕ → List ℕ → Copied → Type 0
  IsChecked n hs part =
      (bs : List Bytes) × (part.out ≡ take n (flat bs))
      × Matches sha bs hs
      × (((part.ended ≡ ok tt) × ((n ≤ length (flat bs)) ⊎ (length bs ≡ length hs)))
          ⊎ ((e : Error) × (part.ended ≡ err e)))

  IsChecked-Begins :
      (n : ℕ) (hs : List ℕ) (part whole : Copied)
      → Begins sha n part whole
      → Verified sha hs whole
      → IsChecked n hs part
  IsChecked-Begins n hs part whole (out, ended) (bs, all, digests, rest) = (
    bs,
    out ∙ ap (take n) all,
    digests,
    elim ended [
      | inr (full, done) ↦ inl (done, inl (subst (λ (l : Bytes). n ≤ length l) all full))
      | inl same ↦ elim rest [
        | inl (done, each) ↦ inl (same ∙ done, inr each)
        | inr (e, failed) ↦ inr (e, same ∙ failed)
      ]
    ],
  )

  -- Whatever the bucket holds and whatever fails, the buffer is filled with the beginning of contents that
  -- have the first of the digests asked for. Where the reading ends without an error, the buffer is full
  -- or holds a content for each digest.
  pub read_up_to-IsChecked :
      (n : ℕ) (hs : List ℕ) (w : World) → IsChecked n hs (read_up_to sha n hs w).0
  read_up_to-IsChecked n hs w =
      IsChecked-Begins n hs (read_up_to sha n hs w).0 (copy_all sha hs w).0
        (read_up_to-Begins sha n hs w) (copy_all-Verified sha hs w)
