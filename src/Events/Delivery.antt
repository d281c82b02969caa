-- ===== src/Events/Delivery.antt =====
-- What becomes of a message: acknowledged or left pending, enriched or dead-lettered, never silently
-- dropped while Redis accepts dead letters.
use distributed_cloud_system.Base.{
  ℕ, ◌+◌, ◌≤◌, ◌≡◌, ◌⊎◌, String, none, List, [], ◌∷◌, ◌++◌, Bool, true, false, ◌||◌, arith, str_eq,
  if◌then◌else◌,
}
use distributed_cloud_system.Events.Broker.{
  Message, Broker, Handled, success, failure, Handler, ack, add_dead_letter, next_fails, rest_fails,
}
use distributed_cloud_system.Events.Retry.{
  give_up, dead_letter, trace_of, handle_message_with_retry,
}

abbrev pub IsUpload : Message → Type 0
IsUpload m = (str_eq m.event_type "file_uploaded" ≡ true) × (str_eq m.file_id "" ≡ false)

abbrev pub succeeds : Handled → Bool
succeeds success = true
succeeds (failure _) = false

abbrev pub error_of : Handled → String
error_of success = ""
error_of (failure e) = e

-- One acknowledgement was sent, and it counts where Redis takes it.
abbrev pub AckedOnce : String → Broker → Broker → Type 0
AckedOnce id b b' =
    (b'.acked ≡ (if next_fails b.ack_fails then b.acked else b.acked ++ id ∷ []))
    × (b'.ack_fails ≡ rest_fails b.ack_fails)

module _ (handler : Handler) (context : String) (m : Message) (b : Broker) where
  abbrev call : ℕ → Handled
  call i = handler i (trace_of context m) m.file_id

  -- Any of the three calls succeeds.
  abbrev pub some_try_succeeds : Bool
  some_try_succeeds = succeeds (call 0) || (succeeds (call 1) || succeeds (call 2))

  -- While the context lives and Redis accepts dead letters, exactly one acknowledgement of an upload
  -- event is sent, and counts where Redis takes it. The event is dead-lettered, with the error of the
  -- last try, exactly if all three tries fail.
  pub handle_exactly :
      IsUpload m
      → b.cancelled_after ≡ none
      → b.add_fails ≡ []
      → AckedOnce m.id b (handle_message_with_retry handler context m b)
        × ((handle_message_with_retry handler context m b).dead_letters ≡ (
            if some_try_succeeds
            then b.dead_letters
            else b.dead_letters ++ dead_letter m (trace_of context m) (error_of (call 2)) ∷ []))
  unfolding handle_message_with_retry give_up ack add_dead_letter
  handle_exactly u alive accepted = ((ground arith, ground arith), ground arith)

  -- Whatever happens, one acknowledgement of a message is sent, which counts where Redis takes it, or
  -- the message is neither acknowledged nor written to the dead-letter stream.
  pub acked_or_pending :
      let b' = handle_message_with_retry handler context m b in
      AckedOnce m.id b b'
      ⊎ ((b'.acked ≡ b.acked) × (b'.ack_fails ≡ b.ack_fails) × (b'.dead_letters ≡ b.dead_letters))
  unfolding handle_message_with_retry give_up ack add_dead_letter
  acked_or_pending = ground arith

  -- The waits of one message add up to 1.5 seconds at most.
  pub waited_bound :
      (handle_message_with_retry handler context m b).waited ≤ b.waited + 1_500_000_000
  unfolding handle_message_with_retry give_up ack add_dead_letter
  waited_bound = ground arith

  -- Where the context lives, Redis refuses the write of the dead letter and takes the acknowledgement,
  -- an upload event whose three tries fail is acknowledged all the same, and the dead-letter stream is
  -- what it was.
  pub lost_dead_letter :
      IsUpload m
      → b.cancelled_after ≡ none
      → (fails : List Bool) → b.add_fails ≡ true ∷ fails
      → b.ack_fails ≡ []
      → some_try_succeeds ≡ false
      → ((handle_message_with_retry handler context m b).acked ≡ b.acked ++ m.id ∷ [])
        × ((handle_message_with_retry handler context m b).dead_letters ≡ b.dead_letters)
  unfolding handle_message_with_retry give_up ack add_dead_letter
  lost_dead_letter u alive fails refused taken none_succeeds = (ground arith, ground arith)
