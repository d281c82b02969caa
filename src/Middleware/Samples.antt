-- ===== src/Middleware/Samples.antt =====
-- A Redis for the tests, whose keys count and go.
use distributed_cloud_system.Base.{ℕ, suc, refl, Option, none, some}
use distributed_cloud_system.Middleware.Counter.{RedisKey}
use distributed_cloud_system.Middleware.Script.{
  Commands, Entry, Expires, counted, ttl_of, elapse, updated,
}

abbrev Keys : Type 0
Keys = RedisKey → Option Entry

abbrev raised : Option Entry → Entry
raised o = record { count = suc (counted o); left = ttl_of o }

abbrev expire : RedisKey → ℕ → Option Entry → Keys → Keys
expire key ttl none s = s
expire key ttl (some e) s = updated key (record { count = e.count; left = some ttl }) s

abbrev pub keys : Commands
keys = record {
  State = Keys;
  incr = λ s key. (suc (counted (s key)), updated key (raised (s key)) s);
  pexpire = λ s key ttl. expire key ttl (s key) s;
  wait = λ s d k. elapse d (s k);
}

unfoldable pub keys_Expires : Expires keys
keys_Expires = record {
  entry = λ s. s;
  incr-counted = λ s key. refl;
  entry-incr = λ s key k. refl;
  entry-pexpire = λ s key ttl e k there. rw there refl;
  entry-wait = λ s d k. refl;
}
