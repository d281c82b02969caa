-- ===== src/Middleware/Shared.antt =====
-- How many requests all replicas together let through, and what a limiter does without Redis.
use distributed_cloud_system.Base.{
  ℕ, suc, ◌+◌, ◌-◌, ◌*◌, ◌/◌, min, ◌≡◌, ◌≢◌, refl, ap, subst, String, Option, none, some, List, [],
  ◌∷◌, All, Bool, true, false, ◌&&◌, arith, str_eq, str_eq_iff, if◌then◌else◌, leb, ◌==◌, ==_iff,
  Bool-cases, inl, inr,
}
use distributed_cloud_system.Middleware.Counter.{
  Clients, Redis, RedisKey, redis_key, allow_in_redis, allow_in_memory,
}
use distributed_cloud_system.Middleware.Limiter.{
  RateLimiter, State, allow, allow_shared, allow_locally,
}

-- Whether two counters are the same.
abbrev pub same_key : RedisKey → RedisKey → Bool
same_key a b = str_eq a.name b.name && (str_eq a.key b.key && (a.window_index == b.window_index))

pub same_key_sound : (a b : RedisKey) → same_key a b ≡ true → a ≡ b
same_key_sound a b h =
    let names = (str_eq_iff a.name b.name).0 (ground arith) in
    let keys = (str_eq_iff a.key b.key).0 (ground arith) in
    let indices = (==_iff a.window_index b.window_index).0 (ground arith) in
    λ i. record { name = names i; key = keys i; window_index = indices i }

pub same_key-eq : (a b : RedisKey) → a ≡ b → same_key a b ≡ true
same_key-eq a b e =
    let names = (str_eq_iff a.name b.name).1 (ap (λ (k : RedisKey). k.name) e) in
    let keys = (str_eq_iff a.key b.key).1 (ap (λ (k : RedisKey). k.key) e) in
    let indices =
      (==_iff a.window_index b.window_index).1 (ap (λ (k : RedisKey). k.window_index) e) in
    rw (names, keys, indices) refl

-- A request that a replica gets.
pub record Request : Type 0 where
  pub replica : ℕ
  pub key : String
  pub now : ℕ

-- The clients that each replica has counted by itself.
abbrev pub Replicas : Type 0
Replicas = ℕ → Clients

abbrev one_if : Bool → ℕ
one_if true = 1
one_if false = 0

unfoldable pub requests_of : String → List Request → ℕ
requests_of k [] = 0
requests_of k (q ∷ qs) = one_if (str_eq q.key k) + requests_of k qs

module _ (R : Redis) (rl : RateLimiter) where
  -- One replica's turn, on the Redis that all share and on its own clients.
  unfoldable pub answer : Request → R.State → Replicas → Bool × State R
  answer q r locals = allow R rl q.key q.now (record { redis = r; local = locals q.replica })

  abbrev pub store_back : Request → Clients → Replicas → Replicas
  store_back q cs locals i = if i == q.replica then cs else locals i

  -- The requests of `k` that the replicas let through.
  unfoldable pub granted : String → List Request → R.State → Replicas → ℕ
  granted k [] r locals = 0
  granted k (q ∷ qs) r locals =
      let (allowed, s) = answer q r locals in
      one_if (str_eq q.key k && allowed) + granted k qs s.redis (store_back q s.local locals)

-- Redis while it is reachable and no counter expires: the script adds 1 to its own key and answers
-- the sum.
pub record Counts (R : Redis) : Type 0 where
  pub count_of : R.State → RedisKey → ℕ
  pub answers :
      (s : R.State) (key : RedisKey) (ttl : ℕ) → (R.run s key ttl).0 ≡ some (suc (count_of s key))
  pub adds :
      (s : R.State) (key : RedisKey) (ttl : ℕ)
      → count_of (R.run s key ttl).1 key ≡ suc (count_of s key)
  pub leaves :
      (s : R.State) (key other : RedisKey) (ttl : ℕ)
      → key ≢ other
      → count_of (R.run s key ttl).1 other ≡ count_of s other

abbrev pub InWindow : ℕ → ℕ → Request → Type 0
InWindow window w q = q.now / window ≡ w

module _ (R : Redis) (C : Counts R) (rl : RateLimiter) (name k : String) (w : ℕ) where
  abbrev counter : RedisKey
  counter = record { name = name; key = k; window_index = w }

  abbrev counter_of : Request → RedisKey
  counter_of q = redis_key name q.key rl.window q.now

  answer_lem :
      (q : Request) (r : R.State) (locals : Replicas)
      → rl.shared ≡ some name
      → answer R rl q r locals ≡ (
        leb (suc (C.count_of r (counter_of q))) rl.limit,
        record {
          redis = (R.run r (counter_of q) (rl.window * 2 / 1_000_000)).1;
          local = locals q.replica;
        },
      )
  unfolding answer allow allow_in_redis
  answer_lem q r locals shared =
      rw (shared, C.answers r (counter_of q) (rl.window * 2 / 1_000_000)) refl

  nothing : (r : R.State) (locals : Replicas) → granted R rl k [] r locals ≡ 0
  unfolding granted
  nothing r locals = refl

  -- The state after a request that Redis has counted.
  abbrev next : Request → R.State → R.State
  next q r = (R.run r (counter_of q) (rl.window * 2 / 1_000_000)).1

  abbrev after : Request → Replicas → Replicas
  after q locals = store_back R rl q (locals q.replica) locals

  granted-cons :
      (q : Request) (qs : List Request) (r : R.State) (locals : Replicas)
      → rl.shared ≡ some name
      → granted R rl k (q ∷ qs) r locals
        ≡ one_if (str_eq q.key k && leb (suc (C.count_of r (counter_of q))) rl.limit)
          + granted R rl k qs (next q r) (after q locals)
  unfolding granted
  granted-cons q qs r locals shared =
      ap
        (λ (a : Bool × State R).
          one_if (str_eq q.key k && a.0)
          + granted R rl k qs a.1.redis (store_back R rl q a.1.local locals))
        (answer_lem q r locals shared)

  counter_of_lem :
      (q : Request) → q.now / rl.window ≡ w → str_eq q.key k ≡ true → counter_of q ≡ counter
  counter_of_lem q e own = rw (e, (str_eq_iff q.key k).0 own) refl

  own_count :
      (q : Request) (r : R.State)
      → counter_of q ≡ counter
      → C.count_of (next q r) counter ≡ suc (C.count_of r counter)
  own_count q r e =
      subst (λ (x : RedisKey). C.count_of (next q r) x ≡ suc (C.count_of r x)) e
        (C.adds r (counter_of q) (rl.window * 2 / 1_000_000))

  other_count :
      (q : Request) (r : R.State)
      → str_eq q.key k ≡ false
      → C.count_of (next q r) counter ≡ C.count_of r counter
  other_count q r other =
      C.leaves r (counter_of q) counter (rl.window * 2 / 1_000_000)
        (λ e. ground (arith, other, (str_eq_iff q.key k).1 (ap (λ (x : RedisKey). x.key) e)))

  -- While Redis answers and counts, all replicas together let through as many of a client's
  -- requests in a window as there are, up to what the limit has left: exactly so many, whichever
  -- replica each goes to, whatever the replicas have counted by themselves and whatever other
  -- clients do.
  pub granted_shared :
      (qs : List Request) (r : R.State) (locals : Replicas)
      → rl.shared ≡ some name
      → All (InWindow rl.window w) qs
      → granted R rl k qs r locals ≡ min (rl.limit - C.count_of r counter) (requests_of k qs)
  unfolding requests_of
  granted_shared [] r locals shared span =
      let e : granted R rl k [] r locals ≡ 0 = nothing r locals in omega (arith, e)
  granted_shared (q ∷ qs) r locals shared span =
      let rest = granted_shared qs (next q r) (after q locals) shared span.1 in
      rw (granted-cons q qs r locals shared) (elim (Bool-cases (str_eq q.key k)) [
        | inl own ↦
            let same = counter_of_lem q span.0 own in
            let count = own_count q r same in
            let here : C.count_of r (counter_of q) ≡ C.count_of r counter =
              ap (λ (x : RedisKey). C.count_of r x) same in
            rw own (ground (arith, rest, count, here))
        | inr other ↦ let count = other_count q r other in rw other (omega (arith, rest, count))
      ])

module _ (R : Redis) (rl : RateLimiter) (key : String) (now : ℕ) (s : State R) where
  -- The answer and the clients are the local store's.
  abbrev AsLocal : Bool × State R → Type 0
  AsLocal (allowed, s') =
      (allowed ≡ (allow_in_memory key rl.limit rl.window now s.local).0)
      × (s'.local ≡ (allow_in_memory key rl.limit rl.window now s.local).1)

  allow_shared_lem :
      (shared : Option String)
      → ((r : R.State) (k : RedisKey) (ttl : ℕ) → (R.run r k ttl).0 ≡ none)
      → AsLocal (allow_shared R shared rl key now s)
  unfolding allow_in_redis allow_locally
  allow_shared_lem none down = (refl, refl)
  allow_shared_lem (some name) down =
      rw (down s.redis (redis_key name key rl.window now) (rl.window * 2 / 1_000_000)) (refl, refl)

  -- While every run of the script on Redis fails, a limiter still limits: its answer and its
  -- clients are the ones that `allow_in_memory` gives for its limit and its window.
  pub allow-eq-local :
      ((r : R.State) (k : RedisKey) (ttl : ℕ) → (R.run r k ttl).0 ≡ none)
      → ((allow R rl key now s).0 ≡ (allow_in_memory key rl.limit rl.window now s.local).0)
        × ((allow R rl key now s).1.local ≡ (allow_in_memory key rl.limit rl.window now s.local).1)
  unfolding allow
  allow-eq-local down = allow_shared_lem rl.shared down
