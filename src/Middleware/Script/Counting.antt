-- ===== src/Middleware/Script/Counting.antt =====
-- internal/middleware/ratelimit_store.go: `redisCounterScript` as what the shared store needs of Redis.
use distributed_cloud_system.Base.{ℕ, ◌≡◌, refl, ap, ◌∙◌, inl, inr, some, Bool-cases, subst, ◌==◌}
use distributed_cloud_system.Middleware.Counter.{Redis, RedisKey}
use distributed_cloud_system.Middleware.Shared.{Counts, same_key, same_key_sound, same_key-eq}
use distributed_cloud_system.Middleware.Script.{
  Commands, Entry, Expires, counted, redis_counter_script,
}

-- The runs of the script between which no time passes on Redis' clock.
abbrev pub scripted : Commands → Redis
scripted R = record {
  State = R.State;
  run = λ s key ttl. let (count, s') = redis_counter_script R s key ttl in (some count, s');
}

module _ (R : Commands) (E : Expires R) where
  pexpire-counted :
      (s : R.State) (key : RedisKey) (ttl : ℕ) (e : Entry) (k : RedisKey)
      → E.entry s key ≡ some e
      → counted (E.entry (R.pexpire s key ttl) k) ≡ counted (E.entry s k)
  pexpire-counted s key ttl e k there = elim (Bool-cases (same_key key k)) [
    | inl same ↦
        rw (E.entry-pexpire s key ttl e k there, same)
          (subst (λ (j : RedisKey). e.count ≡ counted (E.entry s j)) (same_key_sound key k same)
            (rw there refl))
    | inr different ↦ rw (E.entry-pexpire s key ttl e k there, different) refl
  ]

  pub script-counted :
      (s : R.State) (key : RedisKey) (ttl : ℕ) (k : RedisKey)
      → counted (E.entry (redis_counter_script R s key ttl).1 k)
        ≡ counted (E.entry (R.incr s key).1 k)
  unfolding redis_counter_script
  script-counted s key ttl k = elim (Bool-cases ((R.incr s key).0 == 1)) [
    | inl first ↦
        let there = rw (same_key-eq key key refl) at (E.entry-incr s key key) in
        rw first (pexpire-counted (R.incr s key).1 key ttl _ k there)
    | inr later ↦ rw later refl
  ]

  -- The script is a counter as the theorems on the shared store ask for it.
  unfoldable pub scripted_Counts : Counts (scripted R)
  unfolding redis_counter_script
  scripted_Counts = record {
    count_of = λ s key. counted (E.entry s key);
    answers = λ s key ttl. ap some (E.incr-counted s key);
    adds = λ s key ttl.
        script-counted s key ttl key ∙ rw (E.entry-incr s key key, same_key-eq key key refl) refl;
    leaves = λ s key other ttl different. elim (Bool-cases (same_key key other)) [
      | inl equal ↦ absurd (different (same_key_sound key other equal))
      | inr unequal ↦ script-counted s key ttl other ∙ rw (E.entry-incr s key other, unequal) refl
    ];
  }
