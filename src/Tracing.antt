-- ===== src/Tracing.antt =====
-- internal/tracing/tracing.go: the trace id in a context, and how a fresh one is made. A context is the
-- values that the program puts into it: the trace id, and the user id of internal/middleware/auth.go.
pub mod Traced
use Prim.Native.String.{◌++◌ as ◌+++◌}
use distributed_cloud_system.Base.{
  ℕ, zero, suc, ◌/◌, ◌%◌, String, Option, none, some, List, [], ◌∷◌, str_eq, if◌then◌else◌,
}

pub record Context : Type 0 where
  pub trace_id : Option String
  pub user_id : Option String

abbrev pub background : Context
background = record { trace_id = none; user_id = none }

-- `WithTraceID`
abbrev pub with_trace_id : Context → String → Context
with_trace_id ctx trace = record ctx { trace_id = some trace }

abbrev pub value_or_empty : Option String → String
value_or_empty none = ""
value_or_empty (some v) = v

-- `TraceIDFromContext`
abbrev pub trace_id_from_context : Context → String
trace_id_from_context ctx = value_or_empty ctx.trace_id

unfoldable pub nth_digit : ℕ → List String → String
nth_digit n [] = ""
nth_digit zero (d ∷ ds) = d
nth_digit (suc n) (d ∷ ds) = nth_digit n ds

abbrev pub digits : List String
digits =
    "0" ∷ "1" ∷ "2" ∷ "3" ∷ "4" ∷ "5" ∷ "6" ∷ "7" ∷ "8" ∷ "9" ∷ "a" ∷ "b" ∷ "c" ∷ "d" ∷ "e" ∷ "f"
    ∷ []

-- `hex.EncodeToString`
unfoldable pub encode_to_string : List ℕ → String
unfolding nth_digit
encode_to_string [] = ""
encode_to_string (b ∷ bs) =
    nth_digit (b / 16) digits +++ (nth_digit (b % 16) digits +++ encode_to_string bs)

-- What the system gives for a trace id: the eight bytes of `crypto/rand`, or, where it fails, the
-- decimal digits of the time in nanoseconds.
pub data Random : Type 0 where
  bytes : ℕ → ℕ → ℕ → ℕ → ℕ → ℕ → ℕ → ℕ → Random
  unavailable : String → Random

-- `GenerateTraceID`
unfoldable pub generate_trace_id : Random → String
unfolding encode_to_string
generate_trace_id (unavailable nanoseconds) = "trace-" +++ nanoseconds
generate_trace_id (bytes a b c d e f g h) = encode_to_string (a ∷ b ∷ c ∷ d ∷ e ∷ f ∷ g ∷ h ∷ [])

-- The id that `Middleware` settles on, for the value of X-Request-ID.
unfoldable pub request_trace_id : String → Random → String
request_trace_id header random = if str_eq header "" then generate_trace_id random else header
