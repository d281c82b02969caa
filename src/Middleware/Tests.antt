-- ===== src/Middleware/Tests.antt =====
-- Runs of the limiter, and the theorems at them.
use distributed_cloud_system.Base.{
  split, trim_space, trim_left, trim_right, ◌-◌, ◌*◌, ◌≤◌, min, ◌≡◌, refl, String, none, some, List,
  [], ◌∷◌, All, any, true, arith, str_eq, if◌then◌else◌, inl,
}
use distributed_cloud_system.Middleware.Samples.{keys, keys_Expires}
use distributed_cloud_system.Middleware.Script.{Call, run_all, duration, elapse}
use distributed_cloud_system.Middleware.Script.Counting.{scripted, scripted_Counts}
use distributed_cloud_system.Middleware.Script.Gone.{entry-run_all}
use distributed_cloud_system.Middleware.Script.Numbers.{run_all-eq-numbers}
use distributed_cloud_system.Middleware.Counter.{
  Clients, Redis, RedisKey, allow_in_memory, sweep, assign,
}
use distributed_cloud_system.Middleware.Limiter.{RateLimiter, State}
use distributed_cloud_system.Middleware.Bounds
use distributed_cloud_system.Middleware.Bounds.{
  Event, request, tick, InSpan, granted_exactly, granted_bound,
}
use distributed_cloud_system.Middleware.Shared
use distributed_cloud_system.Middleware.Shared.{
  Request, Counts, same_key, same_key_sound, same_key-eq, granted_shared, allow-eq-local,
}
use distributed_cloud_system.Middleware.ClientIp.{
  Net, client_ip, contains, has_slash, new_trusted_proxies,
}
use distributed_cloud_system.Middleware.ClientIp.Forged.{extended, client_ip-extended, ends_walk}

abbrev visits : List Event
visits = request "a" 0 ∷ tick 1 ∷ request "b" 2 ∷ request "a" 3 ∷ request "a" 60 ∷ []

abbrev nobody : Clients
nobody k = none

-- One request of the window that ends at 3 is left for everybody.
abbrev seen : Clients
seen k = some (record { count = 1; reset_time = 3 })

visits-InSpan : All (InSpan 0 60) visits
visits-InSpan = (
  (ground arith, ground arith),
  (
    (ground arith, ground arith),
    (
      (ground arith, ground arith),
      ((ground arith, ground arith), ((ground arith, ground arith), tt)),
    ),
  ),
)

granted_exactly_example :
    Bounds.granted 2 60 "a" visits nobody ≡ min 2 (Bounds.requests_of "a" visits)
granted_exactly_example = granted_exactly 2 60 0 "a" visits nobody (ground arith) refl visits-InSpan

granted_bound_example : Bounds.granted 2 60 "a" visits seen ≤ 2 * 2
granted_bound_example = granted_bound 2 60 0 "a" visits seen (ground arith) visits-InSpan

visits_test : Bounds.granted 2 60 "a" visits nobody ≡ 2
unfolding Bounds.granted Bounds.react allow_in_memory sweep assign
visits_test = refl

abbrev strict : RateLimiter
strict = record { limit = 2; window = 60; shared = some "strict" }

abbrev requests : List Request
requests =
    record { replica = 0; key = "a"; now = 61 }
    ∷ record { replica = 1; key = "a"; now = 70 }
    ∷ record { replica = 1; key = "b"; now = 71 }
    ∷ record { replica = 2; key = "a"; now = 119 }
    ∷ []

granted_shared_example :
    Shared.granted (scripted keys) strict "a" requests (λ k. none) (λ i k. none)
    ≡ min (2 - 0) (Shared.requests_of "a" requests)
unfolding scripted_Counts keys_Expires
granted_shared_example =
    granted_shared (scripted keys) (scripted_Counts keys keys_Expires) strict "strict" "a" 1
      requests (λ k. none) (λ i k. none) refl (refl, (refl, (refl, (refl, tt))))

abbrev unreachable : Redis
unreachable = record { State = Unit; run = λ s key ttl. (none, s) }

abbrev alone : State unreachable
alone = record { redis = tt; local = nobody }

-- Addresses as texts, where a block holds one address.
abbrev texts : Net
texts = record {
  Ip = String;
  Block = String;
  parse = λ s. if str_eq s "" then none else some s;
  print = λ ip. ip;
  is_v4 = λ ip. true;
  parse_cidr = λ s. if str_eq s "bad/32" then none else some s;
  holds = λ block ip. str_eq block ip;
  host = λ s. some s;
}

client_ends : any (ends_walk texts ("proxy" ∷ [])) (split b',' "client, proxy") ≡ true
unfolding split contains trim_space
client_ends = refl

client_ip-extended_example :
    client_ip texts
      (some ("proxy" ∷ []))
      (record { remote_addr = "proxy"; forwarded_for = extended "forged" "client, proxy" })
    ≡ client_ip texts
        (some ("proxy" ∷ []))
        (record { remote_addr = "proxy"; forwarded_for = "client, proxy" })
client_ip-extended_example =
    client_ip-extended texts ("proxy" ∷ []) "proxy" "forged" "client, proxy" client_ends refl

proxies_read :
    new_trusted_proxies texts (" 10.0.0.1" ∷ "  " ∷ "192.168.0.0/16" ∷ [])
    ≡ some ("10.0.0.1/32" ∷ "192.168.0.0/16" ∷ [])
unfolding new_trusted_proxies has_slash trim_space trim_left trim_right
proxies_read = refl

abbrev window_key : String → RedisKey
window_key client = record { name = "general"; key = client; window_index = 7 }

-- Two clients in turn, over 110 of the 120 seconds of the time to live.
abbrev calls : List Call
calls =
    record { key = window_key "a"; pause = 0 }
    ∷ record { key = window_key "b"; pause = 10_000 }
    ∷ record { key = window_key "a"; pause = 100_000 }
    ∷ []

run_all-eq-numbers_example : (run_all keys 120_000 calls (λ k. none)).0 ≡ 1 ∷ 1 ∷ 2 ∷ []
unfolding keys_Expires duration
run_all-eq-numbers_example =
    run_all-eq-numbers keys keys_Expires 120_000 calls (λ k. none) (omega arith) (λ k. refl)

entry-run_all_example :
    elapse 120_000 ((run_all keys 120_000 calls (λ k. none)).1 (window_key "b")) ≡ none
unfolding keys_Expires
entry-run_all_example =
    entry-run_all keys keys_Expires 120_000 calls (λ k. none) (window_key "b") (λ j. inl refl)
