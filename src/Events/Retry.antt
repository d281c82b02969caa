-- ===== src/Events/Retry.antt =====
-- `handleMessageWithRetry`.
use distributed_cloud_system.Base.{
  ℕ, zero, suc, ◌-◌, ◌*◌, ◌^◌, String, Bool, true, false, not, str_eq, if◌then◌else◌, ltb,
}
use distributed_cloud_system.Events.Broker.{
  Message, DeadLetter, Broker, success, failure, Handler, ack, add_dead_letter, is_over, look, wait,
}

abbrev pub max_retries : ℕ
max_retries = 3

-- The last round does not wait.
abbrev pub is_last : ℕ → Bool
is_last i = not (ltb i (max_retries - 1))

-- `time.Duration(1<<i) * 500 * time.Millisecond`
abbrev pub retry_backoff : ℕ → ℕ
retry_backoff i = 2 ^ i * (500 * 1_000_000)

abbrev pub dead_letter : Message → String → String → DeadLetter
dead_letter m trace error = record {
  original_id = m.id;
  event_type = m.event_type;
  file_id = m.file_id;
  trace_id = trace;
  error = error;
}

-- After the last failure: the dead letter, and the acknowledgement.
unfoldable pub give_up : Message → String → String → Broker → Broker
give_up m trace error b = ack m.id (add_dead_letter (dead_letter m trace error) b)

-- The loop, on the rounds that are left; `i` counts them from 0. The broker that is returned is the
-- one in which the method returns.
unfoldable pub retry_loop : ℕ → ℕ → Handler → Message → String → String → Broker → Broker
retry_loop zero i handler m trace error b = give_up m trace error b
retry_loop (suc left) i handler m trace error b = elim (is_over b) [
  | true ↦ b
  | false ↦ elim (handler i trace m.file_id) [
    | success ↦ ack m.id (look b)
    | failure e ↦ elim (is_last i) [
      | true ↦ retry_loop left (suc i) handler m trace e (look b)
      | false ↦ elim (is_over (look b)) [
        | true ↦ look b
        | false ↦ retry_loop left (suc i) handler m trace e (wait (retry_backoff i) (look b))
      ]
    ]
  ]
]

-- `context` is the trace id that the consumer's own context carries.
abbrev pub trace_of : String → Message → String
trace_of context m = if str_eq m.trace_id "" then context else m.trace_id

unfoldable pub handle_message_with_retry : Handler → String → Message → Broker → Broker
unfolding retry_loop
handle_message_with_retry handler context m b =
    if not (str_eq m.event_type "file_uploaded")
    then ack m.id b
    else if str_eq m.file_id ""
    then ack m.id b
    else retry_loop max_retries 0 handler m (trace_of context m) "" b
