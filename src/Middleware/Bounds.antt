-- ===== src/Middleware/Bounds.antt =====
-- How many requests the limiter lets through: in one window of the local store, and of a shared one.
use distributed_cloud_system.Base.{
  ℕ, suc, ◌+◌, ◌-◌, ◌*◌, ◌≤◌, min, ◌≡◌, ◌∙◌, String, none, some, List, [], ◌∷◌, All, Bool, true,
  false, ◌&&◌, arith, str_eq, str_eq_iff, leb, Option-cases, Bool-cases, ltb→lt, inl, inr,
}
use distributed_cloud_system.Middleware.Counter.{
  Client, Clients, assign, sweep, has_expired, fresh, allow_in_memory,
}
use distributed_cloud_system.Middleware.OneEvent.{
  assign-same, other_request, own_request, no_entry, expired_entry, kept_entry, swept_entry,
  no_entry-swept,
}

-- What happens to the local store: a request of a client, or a tick of the clean-up.
pub data Event : Type 0 where
  request : String → ℕ → Event
  tick : ℕ → Event

abbrev pub time : Event → ℕ
time (request key now) = now
time (tick now) = now

abbrev pub is_request_of : String → Event → Bool
is_request_of k (request key now) = str_eq key k
is_request_of k (tick now) = false

abbrev one_if : Bool → ℕ
one_if true = 1
one_if false = 0

unfoldable pub requests_of : String → List Event → ℕ
requests_of k [] = 0
requests_of k (e ∷ es) = one_if (is_request_of k e) + requests_of k es

module _ (limit window : ℕ) where
  unfoldable pub react : Event → Clients → Bool × Clients
  react (request key now) cs = allow_in_memory key limit window now cs
  react (tick now) cs = (false, sweep now cs)

  -- The requests of `k` that are let through.
  unfoldable pub granted : String → List Event → Clients → ℕ
  granted k [] cs = 0
  granted k (e ∷ es) cs = one_if (is_request_of k e && (react e cs).0) + granted k es (react e cs).1

abbrev pub InSpan : ℕ → ℕ → Event → Type 0
InSpan t₀ window e = (t₀ ≤ time e) × (time e ≤ t₀ + window)

module _ (limit window t₀ : ℕ) (k : String) where
  own_step :
      (es : List Event) (cs : Clients) (c : Client) (now : ℕ)
      → cs k ≡ some c
      → now ≤ c.reset_time
      → t₀ + window ≤ c.reset_time
      → ((cs' : Clients) (c' : Client)
          → cs' k ≡ some c'
          → t₀ + window ≤ c'.reset_time
          → granted limit window k es cs' ≡ min (limit - c'.count) (requests_of k es))
      → one_if (allow_in_memory k limit window now cs).0
          + granted limit window k es (allow_in_memory k limit window now cs).1
        ≡ min (limit - c.count) (1 + requests_of k es)
  own_step es cs c now h early late rest =
      rw (own_request limit window k cs c now h early) (elim (Bool-cases (leb limit c.count)) [
        | inl full ↦ rw full (let r = rest cs c h late in ground (arith, r))
        | inr free ↦
            let more : Client = record { count = suc c.count; reset_time = c.reset_time } in
            let r = rest (assign k more cs) more (assign-same limit window k cs more) late in
            rw free (ground (arith, r))
      ])

  -- An entry that outlives the span lets `limit - count` more through.
  open_window :
      (es : List Event) (cs : Clients) (c : Client)
      → cs k ≡ some c
      → t₀ + window ≤ c.reset_time
      → All (InSpan t₀ window) es
      → granted limit window k es cs ≡ min (limit - c.count) (requests_of k es)
  unfolding granted requests_of react
  open_window [] cs c h late span = omega arith
  open_window (request key now ∷ es) cs c h late span = elim (Bool-cases (str_eq key k)) [
    | inl own ↦
        let same : key ≡ k = (str_eq_iff key k).0 own in
        rw own (
          rw same (
            own_step es cs c now h (omega (arith, span.0.1, late)) late
              (λ cs' c' h' late'. open_window es cs' c' h' late' span.1)))
    | inr other ↦
        let rest =
          open_window es (allow_in_memory key limit window now cs).1 c
            (other_request limit window k cs key now other ∙ h) late span.1 in
        rw other (omega (arith, rest))
  ]
  open_window (tick now ∷ es) cs c h late span =
      let rest =
        open_window es (sweep now cs) c
          (kept_entry limit window k cs c now h (omega (arith, span.0.1, late))) late span.1 in
      omega (arith, rest)

  -- A request without a live entry opens a window that outlives the span.
  fresh_step :
      (es : List Event) (cs : Clients) (now : ℕ)
      → 1 ≤ limit
      → t₀ ≤ now
      → All (InSpan t₀ window) es
      → 1 + granted limit window k es (assign k (fresh now window) cs)
        ≡ min limit (1 + requests_of k es)
  fresh_step es cs now some_allowed begun span =
      let r =
        open_window es (assign k (fresh now window) cs) (fresh now window)
          (assign-same limit window k cs (fresh now window)) (omega (arith, begun)) span in
      omega (arith, r)

  -- Where the limit is at least 1 and a client has no entry, the local store lets through as many
  -- of the client's requests within a span of one window as there are, up to the limit: exactly so
  -- many, whatever other clients do and whenever the clean-up runs.
  pub granted_exactly :
      (es : List Event) (cs : Clients)
      → 1 ≤ limit
      → cs k ≡ none
      → All (InSpan t₀ window) es
      → granted limit window k es cs ≡ min limit (requests_of k es)
  unfolding granted requests_of react
  granted_exactly [] cs some_allowed h span = omega arith
  granted_exactly (request key now ∷ es) cs some_allowed h span = elim (Bool-cases (str_eq key k)) [
    | inl own ↦
        let same : key ≡ k = (str_eq_iff key k).0 own in
        rw own (
          rw same (
            rw (no_entry limit window k cs now h)
              (fresh_step es cs now some_allowed span.0.0 span.1)))
    | inr other ↦
        let rest =
          granted_exactly es (allow_in_memory key limit window now cs).1 some_allowed
            (other_request limit window k cs key now other ∙ h) span.1 in
        rw other (omega (arith, rest))
  ]
  granted_exactly (tick now ∷ es) cs some_allowed h span =
      let rest =
        granted_exactly es (sweep now cs) some_allowed (no_entry-swept limit window k cs now h)
          span.1 in
      omega (arith, rest)

  -- An entry that may expire within the span: what it has left, and one window more.
  granted_bound_entry :
      (es : List Event) (cs : Clients) (c : Client)
      → 1 ≤ limit
      → cs k ≡ some c
      → All (InSpan t₀ window) es
      → granted limit window k es cs ≤ (limit - c.count) + limit
  unfolding granted requests_of react
  granted_bound_entry [] cs c some_allowed h span = omega arith
  granted_bound_entry (request key now ∷ es) cs c some_allowed h span =
      elim (Bool-cases (str_eq key k)) [
        | inl own ↦
            let same : key ≡ k = (str_eq_iff key k).0 own in
            rw own (
              rw same (elim (Bool-cases (has_expired now c)) [
                | inl late ↦
                    let r = fresh_step es cs now some_allowed span.0.0 span.1 in
                    rw (expired_entry limit window k cs c now h (ltb→lt c.reset_time now late))
                      (omega (arith, r))
                | inr early ↦
                    rw (own_request limit window k cs c now h (ground arith))
                      (elim (Bool-cases (leb limit c.count)) [
                        | inl full ↦ rw full (
                            let r = granted_bound_entry es cs c some_allowed h span.1 in
                            omega (arith, r))
                        | inr free ↦
                            let more : Client = record {
                              count = suc c.count;
                              reset_time = c.reset_time;
                            } in
                            let r =
                              granted_bound_entry es (assign k more cs) more some_allowed
                                (assign-same limit window k cs more) span.1 in
                            rw free (ground (arith, r))
                      ])
              ]))
        | inr other ↦
            let rest =
              granted_bound_entry es (allow_in_memory key limit window now cs).1 c some_allowed
                (other_request limit window k cs key now other ∙ h) span.1 in
            rw other (omega (arith, rest))
      ]
  granted_bound_entry (tick now ∷ es) cs c some_allowed h span =
      elim (Bool-cases (has_expired now c)) [
        | inl late ↦
            let r =
              granted_exactly es (sweep now cs) some_allowed
                (swept_entry limit window k cs c now h (ltb→lt c.reset_time now late)) span.1 in
            omega (arith, r)
        | inr early ↦
            let r =
              granted_bound_entry es (sweep now cs) c some_allowed
                (kept_entry limit window k cs c now h (ground arith)) span.1 in
            omega (arith, r)
      ]

  -- Where the limit is at least 1, a client gets at most twice the limit within any span as long
  -- as a window, wherever it begins and whatever the store holds then: a span can touch two
  -- windows.
  pub granted_bound :
      (es : List Event) (cs : Clients)
      → 1 ≤ limit
      → All (InSpan t₀ window) es
      → granted limit window k es cs ≤ 2 * limit
  granted_bound es cs some_allowed span = elim (Option-cases (cs k)) [
    | inl e ↦ let r = granted_exactly es cs some_allowed e span in omega (arith, r)
    | inr (c, e) ↦ let r = granted_bound_entry es cs c some_allowed e span in omega (arith, r)
  ]
