-- ===== src/Events/Connect.antt =====
-- `NewRedisBroker`, `PublishFileUploaded` and `generateConsumerName`.
use Prim.Native.String.{◌++◌ as ◌+++◌}
use distributed_cloud_system.Base.{
  String, Option, none, some, Bool, true, not, str_eq, if◌then◌else◌,
}
use distributed_cloud_system.Tracing.{Context, trace_id_from_context}
use distributed_cloud_system.Events.Broker.{Message}

-- What the Redis server answers: the error of a ping, that of making a group where it is not that
-- the group is there, and whether the consumer group is there.
pub record RedisServer : Type 0 where
  pub ping_error : Option String
  pub create_error : Option String
  pub has_group : Bool

abbrev pub busy_group : String
busy_group = "BUSYGROUP Consumer Group name already exists"

-- `XGroupCreateMkStream`
abbrev x_group_create : RedisServer → Option String × RedisServer
x_group_create s = elim s.create_error [
  | some error ↦ (some error, s)
  | none ↦ if s.has_group then (some busy_group, s) else (none, record s { has_group = true })
]

abbrev pub is_busy : String → Bool
is_busy error = str_eq error busy_group

abbrev tolerate_busy : Option String × RedisServer → Option String × RedisServer
tolerate_busy (none, s) = (none, s)
tolerate_busy (some error, s) =
    (if not (is_busy error) then some "failed to create consumer group" else none, s)

-- `NewRedisBroker`; the error is `none` where there is a broker.
unfoldable pub new_redis_broker : RedisServer → Option String × RedisServer
new_redis_broker s = elim s.ping_error [
  | some error ↦ (some "failed to connect to redis", s)
  | none ↦ tolerate_busy (x_group_create s)
]

-- `PublishFileUploaded`: the message that is added; Redis gives its id.
abbrev pub publish_file_uploaded : Context → String → String → Message
publish_file_uploaded ctx file id = record {
  id = id;
  event_type = "file_uploaded";
  file_id = file;
  trace_id = trace_id_from_context ctx;
}

-- `generateConsumerName`, from what `os.Hostname` gives, none where it fails, and the decimal digits
-- of the process id.
unfoldable pub generate_consumer_name : Option String → String → String
generate_consumer_name none pid = "worker" +++ ("-pid-" +++ pid)
generate_consumer_name (some hostname) pid =
    (if str_eq hostname "" then "worker" else hostname) +++ ("-pid-" +++ pid)
