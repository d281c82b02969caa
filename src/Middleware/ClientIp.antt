-- ===== src/Middleware/ClientIp.antt =====
-- internal/middleware/clientip.go: the address that the limiter counts by. Addresses and blocks of
-- addresses are those of Go's `net` package, which is not modelled.
pub mod Forged
use Prim.Native.Char.{Char, code}
use Prim.Native.String.{[], ◌∷◌, ◌++◌ as ◌+++◌}
use distributed_cloud_system.Base.{
  split, trim_space, ℕ, String, Option, none, some, List, [], ◌∷◌, ◌++◌, map, any, Bool, true,
  false, ◌||◌, ◌&&◌, not, str_eq, if◌then◌else◌, ltb, leb, ◌==◌,
}

-- What the source uses of `net`: `net.ParseIP`, `net.IP.String`, whether `net.IP.To4` is not nil,
-- `net.ParseCIDR`, `net.IPNet.Contains`, and the host that `net.SplitHostPort` finds.
pub record Net : Type 1 where
  pub Ip : Type 0
  pub Block : Type 0
  pub parse : String → Option Ip
  pub print : Ip → String
  pub is_v4 : Ip → Bool
  pub parse_cidr : String → Option Block
  pub holds : Block → Ip → Bool
  pub host : String → Option String

pub record HttpRequest : Type 0 where
  pub remote_addr : String
  pub forwarded_for : String

abbrev pub reverse {ℓ} : {A : Type ℓ} → List A → List A
reverse [] = []
reverse (x ∷ xs) = reverse xs ++ x ∷ []

-- `strings.Contains(s, "/")`
unfoldable pub has_slash : String → Bool
has_slash [] = false
has_slash (c ∷ s) = code c == b'/' || has_slash s

module _ (N : Net) where
  -- A bare address as a block of one host.
  abbrev pub with_bits : String → Option N.Ip → String
  with_bits cidr none = cidr
  with_bits cidr (some ip) = cidr +++ (if N.is_v4 ip then "/32" else "/128")

  abbrev pub as_cidr : String → String
  as_cidr cidr = if has_slash cidr then cidr else with_bits cidr (N.parse cidr)

  abbrev pub and_block : Option N.Block → Option (List N.Block) → Option (List N.Block)
  and_block none rest = none
  and_block (some network) none = none
  and_block (some network) (some nets) = some (network ∷ nets)

  -- `NewTrustedProxies`, whose error is `none`.
  unfoldable pub new_trusted_proxies : List String → Option (List N.Block)
  unfolding has_slash
  new_trusted_proxies [] = some []
  new_trusted_proxies (c ∷ cidrs) =
      let rest = new_trusted_proxies cidrs in
      let cidr = trim_space c in
      if str_eq cidr "" then rest else and_block (N.parse_cidr (as_cidr cidr)) rest

  -- `TrustedProxies.contains`; `none` stands for a nil address.
  unfoldable pub contains : List N.Block → Option N.Ip → Bool
  contains nets none = false
  contains nets (some ip) = any (λ n. N.holds n ip) nets

  abbrev host_or : Option String → String → String
  host_or none remote_addr = remote_addr
  host_or (some host) remote_addr = host

  -- `peerIP`
  abbrev pub peer_ip : String → String
  peer_ip remote_addr = host_or (N.host remote_addr) remote_addr

  -- What the loop does at an entry, where `left` is its answer for the entries further left.
  abbrev pub step : List N.Block → String → Option N.Ip → String → String
  step nets peer none left = peer
  step nets peer (some ip) left = if not (contains nets (some ip)) then N.print ip else left

  -- The loop of `ClientIP`, on the entries from right to left.
  unfoldable pub walk : List N.Block → String → List String → String
  walk nets peer [] = peer
  walk nets peer (part ∷ parts) =
      let left = walk nets peer parts in step nets peer (N.parse (trim_space part)) left

  abbrev is_empty : List N.Block → Bool
  is_empty [] = true
  is_empty (n ∷ ns) = false

  -- `TrustedProxies.ClientIP`; `none` is the nil `*TrustedProxies`.
  unfoldable pub client_ip : Option (List N.Block) → HttpRequest → String
  unfolding walk
  client_ip none r = peer_ip r.remote_addr
  client_ip (some nets) r =
      let peer = peer_ip r.remote_addr in
      if is_empty nets || not (contains nets (N.parse peer))
      then peer
      else if str_eq r.forwarded_for ""
      then peer
      else walk nets peer (reverse (split b',' r.forwarded_for))
