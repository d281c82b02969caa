-- ===== src/Worker/Delivered.antt =====
-- What becomes of an upload's message at the worker: its file is processed, or it is dead-lettered.
use distributed_cloud_system.Base.{ℕ, ◌<◌, ◌≡◌, ◌≢◌, String, Bool}
use distributed_cloud_system.Storage.World.{World, Bytes}
use distributed_cloud_system.Events.Broker.{Broker}
use distributed_cloud_system.Events.Delivery.{succeeds}
use distributed_cloud_system.Worker.Processor.{Processed, no_error}
use distributed_cloud_system.Worker.Processed.{Did, IsBeginning}
use distributed_cloud_system.Worker.Run.{Services, process, handled, after}

module _ (S : Services) (w : World) (file : String) where
  -- The n-th call for the file.
  abbrev pub try : ℕ → Processed × World
  try n = process S file (after S n file w)

  abbrev pub BeginsAt : ℕ → Bytes → Type 0
  BeginsAt n =
      IsBeginning S.settings S.post S.json S.utf8 S.media_types S.sha (S.number file)
        (after S n file w)

  -- What the first of three calls, up to the n-th, have done to the tables.
  abbrev pub AllDid : ℕ → Type 0
  AllDid n =
      Did S.settings S.post S.json S.utf8 S.media_types S.sha (S.number file)
        (λ content. (i : ℕ) × (i < 3) × BeginsAt i content) w.db (try n)

  abbrev DidBefore : ℕ → Type 0
  DidBefore n =
      Did S.settings S.post S.json S.utf8 S.media_types S.sha (S.number file)
        (λ content. (i : ℕ) × (i < 3) × BeginsAt i content) w.db (no_error, after S n file w)

  -- A call ended without an error, and this is what it and the calls before it have done.
  abbrev pub Succeeded : Type 0
  Succeeded = (i : ℕ) × (i < 3) × ((try i).0 ≡ no_error) × AllDid i

  -- All three calls ended with an error, and this is what they have done.
  abbrev pub Failed : Type 0
  Failed = (((try 0).0 ≢ no_error) × ((try 1).0 ≢ no_error) × ((try 2).0 ≢ no_error)) × AllDid 2

  abbrev succeeded : ℕ → Bool
  succeeded i = succeeds (handled S (try i).0)
