-- ===== src/Middleware/OneEvent.antt =====
-- internal/middleware/ratelimit_store.go: what a request or a clean-up does to one entry of the local
-- store.
use text.Mathlib.TextPositions.{eq_refl}
use distributed_cloud_system.Base.{
  ℕ, suc, ◌≤◌, ◌<◌, ◌≡◌, refl, String, none, some, true, false, arith, str_eq, if◌then◌else◌, leb,
  Option-cases, inl, inr,
}
use distributed_cloud_system.Middleware.Counter.{
  Client, Clients, assign, sweep, fresh, allow_in_memory,
}

-- What one event does to the entry of `k`.
module _ (limit window : ℕ) (k : String) (cs : Clients) where
  pub assign-same : (c : Client) → assign k c cs k ≡ some c
  unfolding assign
  assign-same c = rw (eq_refl k) refl

  assign-other : (key : String) (c : Client) → str_eq key k ≡ false → assign key c cs k ≡ cs k
  unfolding assign
  assign-other key c h = rw h refl

  pub other_request :
      (key : String) (now : ℕ)
      → str_eq key k ≡ false
      → (allow_in_memory key limit window now cs).1 k ≡ cs k
  unfolding allow_in_memory
  other_request key now h = elim (Option-cases (cs key)) [
    | inl e ↦ rw e (assign-other key (fresh now window) h)
    | inr (c, e) ↦ rw e (
        ground (
          arith,
          assign-other key (fresh now window) h,
          assign-other key (record { count = suc c.count; reset_time = c.reset_time }) h,
        ))
  ]

  pub own_request :
      (c : Client) (now : ℕ)
      → cs k ≡ some c
      → now ≤ c.reset_time
      → allow_in_memory k limit window now cs ≡ (
          if leb limit c.count
          then (false, cs)
          else (true, assign k (record { count = suc c.count; reset_time = c.reset_time }) cs))
  unfolding allow_in_memory
  own_request c now h early = ground arith

  pub no_entry :
      (now : ℕ)
      → cs k ≡ none
      → allow_in_memory k limit window now cs ≡ (true, assign k (fresh now window) cs)
  unfolding allow_in_memory
  no_entry now h = rw h refl

  pub expired_entry :
      (c : Client) (now : ℕ)
      → cs k ≡ some c
      → c.reset_time < now
      → allow_in_memory k limit window now cs ≡ (true, assign k (fresh now window) cs)
  unfolding allow_in_memory
  expired_entry c now h late = ground arith

  pub kept_entry :
      (c : Client) (now : ℕ) → cs k ≡ some c → now ≤ c.reset_time → sweep now cs k ≡ some c
  unfolding sweep
  kept_entry c now h early = ground arith

  pub swept_entry :
      (c : Client) (now : ℕ) → cs k ≡ some c → c.reset_time < now → sweep now cs k ≡ none
  unfolding sweep
  swept_entry c now h late = ground arith

  pub no_entry-swept : (now : ℕ) → cs k ≡ none → sweep now cs k ≡ none
  unfolding sweep
  no_entry-swept now h = rw h refl
