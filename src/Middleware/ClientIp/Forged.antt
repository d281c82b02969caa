-- ===== src/Middleware/ClientIp/Forged.antt =====
-- What a client writes into `X-Forwarded-For` does not change the address that it is counted by.
use Prim.Native.Char.{Char, char}
use Prim.Native.String.{[], ◌∷◌, ◌++◌ as ◌+++◌}
use text.Mathlib.TextLemmas.{nil-append, cons-append, append-eq-nil_iff}
use distributed_cloud_system.Base.{
  split, split-append, trim_space, ◌≡◌, refl, sym, ap, ◌∙◌, String, Option, none, some, List, [],
  ◌∷◌, ◌++◌, any, Bool, true, false, ◌||◌, not, arith, str_eq, str_eq_iff, Bool-cases, inl, inr,
  append-nil, append_assoc,
}
use distributed_cloud_system.Middleware.ClientIp.{
  Net, reverse, contains, step, walk, peer_ip, client_ip,
}

abbrev comma : Char
comma = char b',' tt

-- The header after a proxy has appended to what it was given.
abbrev pub extended : String → String → String
extended given appended = given +++ ("," +++ appended)

split-extended :
    (given appended : String)
    → split b',' (extended given appended) ≡ split b',' given ++ split b',' appended
split-extended given appended =
    ap (λ (t : String). split b',' (given +++ t))
      (cons-append comma "" appended ∙ ap (λ (t : String). comma ∷ t) (nil-append appended))
    ∙ split-append comma given appended

reverse-append : (xs ys : List String) → reverse (xs ++ ys) ≡ reverse ys ++ reverse xs
reverse-append [] ys = sym (append-nil (reverse ys))
reverse-append (x ∷ xs) ys =
    ap (λ l. l ++ x ∷ []) (reverse-append xs ys) ∙ append_assoc (reverse ys) (reverse xs) (x ∷ [])

any-append : (p : String → Bool) (xs ys : List String) → any p (xs ++ ys) ≡ (any p xs || any p ys)
any-append p [] ys = refl
any-append p (x ∷ xs) ys = let e = any-append p xs ys in ground (arith, e)

any-reverse : (p : String → Bool) (xs : List String) → any p (reverse xs) ≡ any p xs
any-reverse p [] = refl
any-reverse p (x ∷ xs) =
    let e = any-reverse p xs in let f = any-append p (reverse xs) (x ∷ []) in ground (arith, e, f)

module _ (N : Net) (nets : List N.Block) where
  -- An entry at which the loop ends: it is malformed, or not a trusted proxy.
  abbrev pub ends_walk : String → Bool
  ends_walk part = not (contains N nets (N.parse (trim_space part)))

  stop_or_go :
      {l r : String} (peer : String) (ip : Option N.Ip) (later : Bool)
      → not (contains N nets ip) || later ≡ true
      → (later ≡ true → l ≡ r)
      → step N nets peer ip l ≡ step N nets peer ip r
  stop_or_go peer none later h same = refl
  stop_or_go peer (some ip) later h same = ground arith

  walk_prefix :
      (peer : String) (parts more : List String)
      → any ends_walk parts ≡ true
      → walk N nets peer (parts ++ more) ≡ walk N nets peer parts
  unfolding walk
  walk_prefix peer [] more h = ground arith
  walk_prefix peer (part ∷ parts) more h =
      stop_or_go peer (N.parse (trim_space part)) (any ends_walk parts) h
        (walk_prefix peer parts more)

  walk_forged :
      (peer given appended : String)
      → any ends_walk (split b',' appended) ≡ true
      → walk N nets peer (reverse (split b',' (extended given appended)))
        ≡ walk N nets peer (reverse (split b',' appended))
  walk_forged peer given appended h =
      rw (split-extended given appended, reverse-append (split b',' given) (split b',' appended))
        (walk_prefix peer (reverse (split b',' appended)) (reverse (split b',' given))
          (any-reverse ends_walk (split b',' appended) ∙ h))

  extended-nonempty : (given appended : String) → str_eq (extended given appended) "" ≡ false
  extended-nonempty given appended = elim (Bool-cases (str_eq (extended given appended) "")) [
    | inr full ↦ full
    | inl empty ↦
        let tail = (append-eq-nil_iff.0 ((str_eq_iff (extended given appended) "").0 empty)).1 in
        let comma = (str_eq_iff "," "").1 (append-eq-nil_iff.0 tail).0 in ground (arith, comma)
  ]

  -- A client that reaches the service through trusted proxies cannot choose the address that it is
  -- counted by: whatever it writes into the header before the proxies append to it, the answer is
  -- the one for what they append, where that is not empty and has an entry that is malformed or
  -- not a trusted proxy's.
  pub client_ip-extended :
      (remote given appended : String)
      → any ends_walk (split b',' appended) ≡ true
      → str_eq appended "" ≡ false
      → client_ip N
          (some nets)
          (record { remote_addr = remote; forwarded_for = extended given appended })
        ≡ client_ip N (some nets) (record { remote_addr = remote; forwarded_for = appended })
  unfolding client_ip
  client_ip-extended remote given appended h nonempty =
      rw
        (
          extended-nonempty given appended,
          nonempty,
          walk_forged (peer_ip N remote) given appended h,
        )
        refl
