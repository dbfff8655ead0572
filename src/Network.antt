-- ===== src/Network.antt =====
-- The choice of the address that this device advertises
-- (`selectPreferredInterface` of backend/internal/discovery/network.go). The tests of an address that
-- Go's `net` makes, and lower case, are `Addresses`; an IPv4 address is its four bytes.
pub mod Preferred
mod Tests
use Prim.Native.String
use Prim.Native.String.{String, compare}
use Prim.Native.Nat.{Ordering}
use sync_space.Base.{
  contains, has_prefix, ℕ, ◌+◌, Bool, true, false, not, ◌&&◌, ◌||◌, Option, none, some, List, [],
  ◌∷◌, if◌then◌else◌, ltb, leb, ◌==◌, string_eq, nat_eq, trim_space, ◌<>◌,
}

-- What the methods of `net.IP` say of an address; `missing` is a nil one.
pub record IpKind : Type 0 where
  pub missing : Bool
  pub unspecified : Bool
  pub loopback : Bool
  pub multicast : Bool
  pub link_local_unicast : Bool

abbrev pub usable_local_ip : IpKind → Bool
usable_local_ip k =
    not k.missing
    && not k.unspecified
    && not k.loopback
    && not k.multicast
    && not k.link_local_unicast

-- An address of an interface, with what `net.IP` says of it.
pub record InterfaceAddress : Type 0 where
  pub index : ℕ
  pub name : String
  pub description : String
  pub up : Bool
  pub loopback : Bool
  pub multicast : Bool
  pub ip : String
  pub ipv4 : Option (ℕ × ℕ × ℕ × ℕ)
  pub kind : IpKind

abbrev contains_any : List String → String → Bool
contains_any [] text = false
contains_any (m ∷ ms) text = contains m text || contains_any ms text

abbrev begins_with_any : List String → String → Bool
begins_with_any [] text = false
begins_with_any (m ∷ ms) text = has_prefix m text || begins_with_any ms text

abbrev interface_identity : InterfaceAddress → String
interface_identity a = trim_space (a.name <> (" " <> a.description))

-- The bonus of `privateIPv4Range`, and of an address in none of the ranges.
abbrev range_score : Option (ℕ × ℕ × ℕ × ℕ) → ℕ
range_score none = 20
range_score (some (a, b, c, d)) =
    if a == 192 && b == 168
    then 300
    else if a == 10
    then 250
    else if a == 172 && leb 16 b && leb b 31
    then 200
    else 100

module _ (to_lower : String → String) where
  unfoldable pub is_physical_lan_interface : String → Bool
  unfolding contains has_prefix
  is_physical_lan_interface name =
      let normalized = to_lower (trim_space name) in
      contains_any
        ("wi-fi" ∷ "wifi" ∷ "wireless" ∷ "wlan" ∷ "ethernet" ∷ "local area connection" ∷ [])
        normalized
      || begins_with_any ("eth" ∷ "en" ∷ "wl" ∷ []) normalized

  unfoldable pub is_obvious_virtual_interface : String → Bool
  unfolding contains has_prefix
  is_obvious_virtual_interface name =
      let normalized = to_lower (trim_space name) in
      contains_any
        ("wsl" ∷ "hyper-v" ∷ "vethernet" ∷ "veth" ∷ "docker" ∷ "container" ∷ "vmware" ∷ "virtualbox"
          ∷ "vbox" ∷ "tailscale" ∷ "loopback" ∷ "bluetooth" ∷ "teredo" ∷ "wireguard" ∷ "openvpn"
          ∷ "tap-windows" ∷ "utun" ∷ "virbr" ∷ "vpn" ∷ [])
        normalized
      || begins_with_any ("wg" ∷ "tun" ∷ "tap" ∷ "br-" ∷ []) normalized

  abbrev pub is_eligible : InterfaceAddress → Bool
  is_eligible a =
      a.up
      && not a.loopback
      && not (is_obvious_virtual_interface (interface_identity a))
      && usable_local_ip a.kind

  unfoldable pub score_interface : InterfaceAddress → ℕ
  unfolding is_physical_lan_interface
  score_interface a =
      (if is_physical_lan_interface (interface_identity a) then 1000 else 0)
      + (range_score a.ipv4 + (if a.multicast then 5 else 0))

  -- The loop over the candidates.
  unfoldable pub eligible_of : List InterfaceAddress → List InterfaceAddress
  unfolding is_obvious_virtual_interface
  eligible_of [] = []
  eligible_of (a ∷ rest) = let more = eligible_of rest in if is_eligible a then a ∷ more else more

  abbrev text_before : String → String → Bool
  text_before s t = elim (compare s t) [ Ordering.lt ↦ true | _ ↦ false ]

  -- Whether the sort puts the first before the second.
  abbrev pub is_preferred : InterfaceAddress → InterfaceAddress → Bool
  is_preferred a b =
      if not (score_interface a == score_interface b)
      then ltb (score_interface b) (score_interface a)
      else if not (to_lower a.name == to_lower b.name)
      then text_before (to_lower a.name) (to_lower b.name)
      else text_before a.ip b.ip

  -- The head of the sorted list: an entry that none is preferred to.
  unfoldable pub first_of : InterfaceAddress → List InterfaceAddress → InterfaceAddress
  unfolding score_interface
  first_of a [] = a
  first_of a (b ∷ rest) = first_of (if is_preferred b a then b else a) rest

  unfoldable pub select_preferred_interface : List InterfaceAddress → Option InterfaceAddress
  unfolding eligible_of first_of
  select_preferred_interface candidates = elim (eligible_of candidates) [
    | [] ↦ none
    | a ∷ rest ↦ some (first_of a rest)
  ]
