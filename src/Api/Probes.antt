-- ===== src/Api/Probes.antt =====
-- What the readiness probe tells.
use distributed_cloud_system.Base.{
  ◌≡◌, refl, ◌∙◌, String, Option, none, some, [], ◌∷◌, Bool, true, false, ◌&&◌, if◌then◌else◌,
  split,
}
use distributed_cloud_system.Tracing.{with_trace_id, request_trace_id}
use distributed_cloud_system.Api.{Packages, Pings, Request, Report, readiness, Server}
use distributed_cloud_system.Api.Mux.{serve_http}
use distributed_cloud_system.Api.Readiness.{all_ok, run_checks, put, ready}
use distributed_cloud_system.Api.Routes.{Settings, routes, tracing_middleware, api}
use distributed_cloud_system.Api.Paths.{to}

abbrev pub is_up : Option String → Bool
is_up none = true
is_up (some error) = false

abbrev pub all_up : Pings → Bool
all_up p = is_up p.database && (is_up p.redis && is_up p.storage)

abbrev pub word : Bool → String → String
word up down = if up then "OK" else down

-- What a probe should report.
abbrev pub report : Pings → Report
report p =
    ("status", word (all_up p) "DEGRADED")
    ∷ ("database", word (is_up p.database) "UNAVAILABLE")
    ∷ ("redis", word (is_up p.redis) "UNAVAILABLE")
    ∷ ("storage", word (is_up p.storage) "UNAVAILABLE")
    ∷ []

run_checks_lem :
    (d r s : Option String)
    → run_checks (("database", d) ∷ ("redis", r) ∷ ("storage", s) ∷ []) (200, all_ok) ≡ (
      if all_up (record { database = d; redis = r; storage = s }) then 200 else 503,
      report (record { database = d; redis = r; storage = s }),
    )
unfolding run_checks put
run_checks_lem none none none = refl
run_checks_lem none none (some _) = refl
run_checks_lem none (some _) none = refl
run_checks_lem none (some _) (some _) = refl
run_checks_lem (some _) none none = refl
run_checks_lem (some _) none (some _) = refl
run_checks_lem (some _) (some _) none = refl
run_checks_lem (some _) (some _) (some _) = refl

module _ (P : Packages) (c : Settings P) where
  serve-ready :
      (r : Request) (s : Server P)
      → serve_http P (routes P c) "" (to "GET" "/health/ready" r) s
        ≡ ready P "" (to "GET" "/health/ready" r) s
  unfolding serve_http routes split
  serve-ready r s = refl

  ready_lem :
      (id : String) (r : Request) (s : Server P)
      → ready P id r s ≡ (readiness (if all_up r.pings then 200 else 503) (report r.pings), s)
  unfolding ready
  ready_lem id r s = rw (run_checks_lem r.pings.database r.pings.redis r.pings.storage) refl

  -- The probe needs no token and passes no limiter, and changes nothing. It is answered with 200
  -- exactly if the database, Redis and the object store all answer their pings, and with 503
  -- otherwise; its body names exactly the dependencies that do not, and is the same whatever their
  -- errors say.
  pub api-ready :
      (r : Request) (s : Server P)
      → (api P c (to "GET" "/health/ready" r) s).1
        ≡ (readiness (if all_up r.pings then 200 else 503) (report r.pings), s)
  unfolding api tracing_middleware
  api-ready r s =
      let traced = with_trace_id r.context (request_trace_id r.request_id r.random) in
      let q = record r { context = traced } in
      serve-ready q s ∙ ready_lem "" (to "GET" "/health/ready" q) s
