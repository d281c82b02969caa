-- ===== src/Events/Broker.antt =====
-- The consumer group as `redisBroker` sees it: which messages are acknowledged, the dead-letter
-- stream, and whether the context has ended.
use distributed_cloud_system.Base.{
  ℕ, ◌+◌, ◌-◌, String, Option, none, some, List, [], ◌∷◌, ◌++◌, Bool, false, ◌==◌, if◌then◌else◌,
}

-- The values of a stream message; a field that is absent or no string reads as "".
pub record Message : Type 0 where
  pub id : String
  pub event_type : String
  pub file_id : String
  pub trace_id : String

-- A record of the dead-letter stream.
pub record DeadLetter : Type 0 where
  pub original_id : String
  pub event_type : String
  pub file_id : String
  pub trace_id : String
  pub error : String

pub record Broker : Type 0 where
  pub acked : List String  -- the acknowledgements that Redis has taken
  pub dead_letters : List DeadLetter
  pub waited : ℕ  -- nanoseconds spent in backoff
  pub add_fails : List Bool  -- whether the coming `XAdd`s to the dead-letter stream fail
  pub ack_fails : List Bool  -- whether the coming `XAck`s fail
  pub cancelled_after : Option ℕ  -- how many more looks at the context find it alive, if it ends

-- What a handler returns: nil, or an error with its text.
pub data Handled : Type 0 where
  success : Handled
  failure : String → Handled

-- A handler is called with the trace id of its context and the file id. It may answer each call
-- differently: the number counts its calls for this message.
abbrev pub Handler : Type 0
Handler = ℕ → String → String → Handled

abbrev pub next_fails : List Bool → Bool
next_fails [] = false
next_fails (f ∷ _) = f

abbrev pub rest_fails : List Bool → List Bool
rest_fails [] = []
rest_fails (_ ∷ fs) = fs

-- `XAck`, whose result the source does not look at.
unfoldable pub ack : String → Broker → Broker
ack id b =
    if next_fails b.ack_fails
    then record b { ack_fails = rest_fails b.ack_fails }
    else record b { ack_fails = rest_fails b.ack_fails; acked = b.acked ++ id ∷ [] }

-- `_ = r.client.XAdd(…)`: a failure is ignored.
unfoldable pub add_dead_letter : DeadLetter → Broker → Broker
add_dead_letter d b =
    if next_fails b.add_fails
    then record b { add_fails = rest_fails b.add_fails }
    else record b { add_fails = rest_fails b.add_fails; dead_letters = b.dead_letters ++ d ∷ [] }

abbrev pub countdown : Option ℕ → Option ℕ
countdown none = none
countdown (some n) = some (n - 1)

-- `ctx.Err() != nil`, and the wait that ends early when the context does.
abbrev pub is_over : Broker → Bool
is_over b = elim b.cancelled_after [ none ↦ false | some n ↦ n == 0 ]

abbrev pub look : Broker → Broker
look b = record b { cancelled_after = countdown b.cancelled_after }

abbrev pub wait : ℕ → Broker → Broker
wait d b = record (look b) { waited = b.waited + d }
