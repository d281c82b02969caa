-- ===== src/Events/Consume.antt =====
-- `Consume` and `claimAndProcessStaleMessages`, over what Redis answers in each round.
use distributed_cloud_system.Base.{
  ℕ, suc, String, List, [], ◌∷◌, Bool, true, false, ◌||◌, if◌then◌else◌, leb,
}
use distributed_cloud_system.Events.Broker.{Message, Broker, Handler, is_over, look, wait}
use distributed_cloud_system.Events.Retry.{handle_message_with_retry}
use distributed_cloud_system.Events.Backoff.{consume_backoff}

abbrev pub max_consume_failures : ℕ
max_consume_failures = 8

-- An answer of `XAutoClaim`: messages and whether the next start is "0-0", or an error.
pub data Page : Type 0 where
  page : List Message → Bool → Page
  claim_error : Page

-- An answer of `XReadGroup`: `redis.Nil`, an ended context, another error, or messages.
pub data Read : Type 0 where
  no_messages : Read
  context_ended : Read
  read_error : Read
  messages : List Message → Read

-- One turn of the loop: the pages of a reclaim, if the ticker has fired, and the read.
pub record Turn : Type 0 where
  pub ticked : Bool
  pub pages : List Page
  pub answer : Read

-- How `Consume` returns; `running` when the turns that are given are over.
pub data Exit : Type 0 where
  clean : Exit
  context_error : Exit
  gave_up : Exit
  running : Exit

abbrev is_empty : List Message → Bool
is_empty [] = true
is_empty (_ ∷ _) = false

module _ (handler : Handler) (context : String) where
  unfoldable pub handle_all : List Message → Broker → Broker
  handle_all [] b = b
  handle_all (m ∷ ms) b = handle_all ms (handle_message_with_retry handler context m b)

  unfoldable pub claim_and_process_stale_messages : List Page → Broker → Broker
  claim_and_process_stale_messages [] b = b
  claim_and_process_stale_messages (p ∷ ps) b = elim (is_over b) [
    | true ↦ b
    | false ↦ elim p [
      | claim_error ↦ look b
      | page ms last ↦
          let b' = handle_all ms (look b) in
          elim (last || is_empty ms) [ true ↦ b' | false ↦ claim_and_process_stale_messages ps b' ]
    ]
  ]

  abbrev pub reclaim : Turn → Broker → Broker
  reclaim t b = if t.ticked then claim_and_process_stale_messages t.pages b else b

  -- The loop; `failures` is `consecutiveFailures`.
  unfoldable pub consume_loop : List Turn → ℕ → Broker → Exit × Broker
  consume_loop [] failures b = (running, b)
  consume_loop (t ∷ ts) failures b = elim (is_over b) [
    | true ↦ (context_error, b)
    | false ↦
        let b1 = reclaim t (look b) in
        elim t.answer [
          | no_messages ↦ consume_loop ts 0 b1
          | context_ended ↦ (clean, b1)
          | messages ms ↦ consume_loop ts 0 (handle_all ms b1)
          | read_error ↦ elim (leb max_consume_failures (suc failures)) [
            | true ↦ (gave_up, b1)
            | false ↦ elim (is_over b1) [
              | true ↦ (clean, b1)
              | false ↦ consume_loop ts (suc failures) (wait (consume_backoff (suc failures)) b1)
            ]
          ]
        ]
  ]

  -- The claim at the start, and the loop.
  unfoldable pub consume : List Page → List Turn → Broker → Exit × Broker
  unfolding consume_loop claim_and_process_stale_messages
  consume pages turns b = consume_loop turns 0 (claim_and_process_stale_messages pages b)
