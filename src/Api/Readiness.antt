-- ===== src/Api/Readiness.antt =====
-- The readiness probe of `main`.
use distributed_cloud_system.Base.{
  ℕ, String, Option, none, some, List, [], ◌∷◌, str_eq, if◌then◌else◌,
}
use distributed_cloud_system.Api.{Packages, Pings, Report, readiness, HttpHandler}

-- `status[k] = v`
unfoldable pub put : String → String → Report → Report
put k v [] = (k, v) ∷ []
put k v (e ∷ es) = let rest = put k v es in if str_eq k e.0 then (k, v) ∷ es else e ∷ rest

abbrev checks : Pings → List (String × Option String)
checks p = ("database", p.database) ∷ ("redis", p.redis) ∷ ("storage", p.storage) ∷ []

abbrev pub check : String → Option String → ℕ × Report → ℕ × Report
check name none (code, status) = (code, status)
check name (some error) (code, status) =
    (503, put name "UNAVAILABLE" (put "status" "DEGRADED" status))

-- The loop over the checks.
unfoldable pub run_checks : List (String × Option String) → ℕ × Report → ℕ × Report
run_checks [] x = x
run_checks (c ∷ cs) x = run_checks cs (check c.0 c.1 x)

abbrev pub all_ok : Report
all_ok = ("status", "OK") ∷ ("database", "OK") ∷ ("redis", "OK") ∷ ("storage", "OK") ∷ []

unfoldable pub ready : (P : Packages) → HttpHandler P
unfolding run_checks put
ready P id r s =
    let (code, status) = run_checks (checks r.pings) (200, all_ok) in (readiness code status, s)
