-- ===== src/Events/Tests.antt =====
-- Runs of the consumer on small data, and its theorems at concrete inputs.
use distributed_cloud_system.Base.{zero, suc, ◌≡◌, refl, ◌⊎◌, none, [], ◌∷◌, true}
use distributed_cloud_system.Events.Broker.{Message, Broker, success, failure, Handler, ack}
use distributed_cloud_system.Events.Retry.{dead_letter, handle_message_with_retry}
use distributed_cloud_system.Events.Backoff.{
  consume_backoff, capped_doubling, consume_backoff-eq-capped_doubling,
}
use distributed_cloud_system.Events.Delivery.{
  AckedOnce, handle_exactly, acked_or_pending, lost_dead_letter,
}

abbrev message : Message
message = record { id = "1-0"; event_type = "file_uploaded"; file_id = "f"; trace_id = "" }

abbrev idle : Broker
idle = record {
  acked = [];
  dead_letters = [];
  waited = 0;
  add_fails = [];
  ack_fails = [];
  cancelled_after = none;
}

abbrev refusing : Broker
refusing = record idle { add_fails = true ∷ [] }

abbrev never : Handler
never i trace file = failure "down"

abbrev third_time : Handler
third_time zero trace file = failure "a"
third_time (suc zero) trace file = failure "b"
third_time (suc (suc i)) trace file = success

third_time_acks :
    handle_message_with_retry third_time "t" message idle
    ≡ record idle { acked = "1-0" ∷ []; waited = 1_500_000_000 }
unfolding handle_message_with_retry ack
third_time_acks = refl

handle_exactly_example :
    AckedOnce "1-0" idle (handle_message_with_retry never "t" message idle)
    × ((handle_message_with_retry never "t" message idle).dead_letters
        ≡ dead_letter message "t" "down" ∷ [])
handle_exactly_example = handle_exactly never "t" message idle (refl, refl) refl refl

acked_or_pending_example :
    let b = handle_message_with_retry never "t" message refusing in
    AckedOnce "1-0" refusing b ⊎ ((b.acked ≡ []) × (b.ack_fails ≡ []) × (b.dead_letters ≡ []))
acked_or_pending_example = acked_or_pending never "t" message refusing

lost_dead_letter_example :
    ((handle_message_with_retry never "t" message refusing).acked ≡ "1-0" ∷ [])
    × ((handle_message_with_retry never "t" message refusing).dead_letters ≡ [])
lost_dead_letter_example =
    lost_dead_letter never "t" message refusing (refl, refl) refl [] refl refl refl

consume_backoff-eq-capped_doubling_example : consume_backoff 7 ≡ capped_doubling 6
consume_backoff-eq-capped_doubling_example = consume_backoff-eq-capped_doubling 6
