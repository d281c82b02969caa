-- ===== src/Middleware/Script/Gone.antt =====
-- internal/middleware/ratelimit_store.go: the times to live that `redisCounterScript` gives.
use distributed_cloud_system.Base.{
  ℕ, suc, ◌-◌, ◌≤◌, ◌≡◌, refl, ◌∙◌, ◌⊎◌, inl, inr, true, false, Option, none, some, List, [], ◌∷◌,
  leb, Bool-cases, arith,
}
use distributed_cloud_system.Middleware.Counter.{RedisKey}
use distributed_cloud_system.Middleware.Shared.{same_key, same_key-eq}
use distributed_cloud_system.Middleware.Script.{
  Commands, Entry, Expires, Call, elapse, updated, redis_counter_script, run_all,
}
use distributed_cloud_system.Middleware.Script.Numbers.{later_count}

-- Nothing, or a count that is not 0 and goes after at most `ttl`.
abbrev pub Goes : ℕ → Option Entry → Type 0
Goes ttl o =
    (o ≡ none)
    ⊎ ((m : ℕ) × (t : ℕ) × (o ≡ some (record { count = suc m; left = some t })) × (t ≤ ttl))

elapse-Goes : (d ttl : ℕ) (o : Option Entry) → Goes ttl o → Goes ttl (elapse d o)
elapse-Goes d ttl o (inl e) = inl (rw e refl)
elapse-Goes d ttl o (inr (m, t, e, within)) = elim (Bool-cases (leb t d)) [
  | inl gone ↦ inl (rw (e, gone) refl)
  | inr there ↦ inr (m, t - d, rw (e, there) refl, omega arith)
]

-- After the whole time to live, nothing is left.
elapse-gone : (ttl : ℕ) (o : Option Entry) → Goes ttl o → elapse ttl o ≡ none
elapse-gone ttl o (inl e) = rw e refl
elapse-gone ttl o (inr (m, t, e, within)) =
    let gone : leb t ttl ≡ true = ground arith in rw (e, gone) refl

updated-Goes :
    (ttl : ℕ) (key : RedisKey) (e : Entry) (entries : RedisKey → Option Entry) (k : RedisKey)
    → Goes ttl (some e)
    → (same_key key k ≡ false → Goes ttl (entries k))
    → Goes ttl (updated key e entries k)
updated-Goes ttl key e entries k there other = elim (Bool-cases (same_key key k)) [
  | inl same ↦ rw same there
  | inr different ↦ rw different (other different)
]

module _ (R : Commands) (E : Expires R) where
  AllGo : ℕ → R.State → Type 0
  AllGo ttl s = (k : RedisKey) → Goes ttl (E.entry s k)

  script-AllGo :
      (s : R.State) (key : RedisKey) (ttl : ℕ)
      → AllGo ttl s
      → AllGo ttl (redis_counter_script R s key ttl).1
  unfolding AllGo redis_counter_script
  script-AllGo s key ttl h k = elim (h key) [
    | inl e ↦
        let count : (R.incr s key).0 ≡ 1 = rw e at (E.incr-counted s key) in
        let there = rw (e, same_key-eq key key refl) at (E.entry-incr s key key) in
        rw (count, E.entry-pexpire (R.incr s key).1 key ttl _ k there)
          (updated-Goes ttl key (record { count = 1; left = some ttl }) (E.entry (R.incr s key).1) k
            (inr (0, ttl, refl, omega arith)) (λ other. rw (E.entry-incr s key k, other) (h k)))
    | inr (m, t, e, within) ↦
        let count : (R.incr s key).0 ≡ suc (suc m) = rw e at (E.incr-counted s key) in
        rw (count, later_count m, E.entry-incr s key k, e)
          (updated-Goes ttl key (record { count = suc (suc m); left = some t }) (E.entry s) k
            (inr (suc m, t, refl, within)) (λ other. h k))
  ]

  wait-AllGo : (s : R.State) (d ttl : ℕ) → AllGo ttl s → AllGo ttl (R.wait s d)
  unfolding AllGo
  wait-AllGo s d ttl h k = rw (E.entry-wait s d k) (elapse-Goes d ttl (E.entry s k) (h k))

  run_all-AllGo :
      (ttl : ℕ) (xs : List Call) (s : R.State) → AllGo ttl s → AllGo ttl (run_all R ttl xs s).1
  unfolding run_all
  run_all-AllGo ttl [] s h = h
  run_all-AllGo ttl (x ∷ xs) s h =
      run_all-AllGo ttl xs (redis_counter_script R (R.wait s x.pause) x.key ttl).1
        (script-AllGo (R.wait s x.pause) x.key ttl (wait-AllGo s x.pause ttl h))

  -- Where each key that is there goes after at most the time to live, as where there are none, no call
  -- leaves a key for good: once the time to live has passed after the last of any calls of the script,
  -- no key is there.
  pub entry-run_all :
      (ttl : ℕ) (xs : List Call) (s : R.State) (k : RedisKey)
      → ((j : RedisKey) → Goes ttl (E.entry s j))
      → E.entry (R.wait (run_all R ttl xs s).1 ttl) k ≡ none
  unfolding AllGo
  entry-run_all ttl xs s k h =
      E.entry-wait (run_all R ttl xs s).1 ttl k
      ∙ elapse-gone ttl (E.entry (run_all R ttl xs s).1 k) (run_all-AllGo ttl xs s h k)
