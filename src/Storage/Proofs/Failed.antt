-- ===== src/Storage/Proofs/Failed.antt =====
-- What an upload that fails leaves of new files.
use distributed_cloud_system.Base.{ℕ, ◌≡◌, ◌⊎◌}
use distributed_cloud_system.Storage.World.{World, ready, db, broken}
use distributed_cloud_system.Storage.Action.{Result, ok, err, Action}
use distributed_cloud_system.Storage.Repository.{update_file, update_file_size_and_status}
use distributed_cloud_system.Storage.Service.{abandon_upload}
use distributed_cloud_system.Storage.Proofs.Keeps.{Keeps}
use distributed_cloud_system.Storage.Proofs.OnlyOld.{OnlyOld}

-- The statement that sets the file ready has taken effect, its answer is lost, and this is what the
-- clean-up after it leaves.
abbrev pub AnswerLost : ℕ → ℕ → World → Type 0
AnswerLost n user w =
    (file : ℕ) × (total : ℕ) × (w1 : World) × (w2 : World) × OnlyOld n w1.db
    × (update_file_size_and_status file total ready w1 ≡ (err (db broken), w2))
    × (w2.db ≡ (update_file file total ready w1.now w1.db).1)
    × (w ≡ (abandon_upload user file w2).1)

module _ (n user : ℕ) where
  -- What is left by a failure.
  abbrev Held : {A : Type 0} → Result A × World → Type 0
  Held (ok a, w) = Unit
  Held (err e, w) = OnlyOld n w.db ⊎ AnswerLost n user w
