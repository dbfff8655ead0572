-- ===== src/Api/Closed.antt =====
-- What stays closed until the privacy policy is accepted (backend/internal/api/router.go).
use Prim.Native.String.{String}
use mathlib.Core.Path.{subst}
use sync_space.Base.{
  has_prefix, Bool-cases, true, false, some, ◌≡◌, refl, arith, ◌==◌, string_eq, str_eq_iff, nat_eq,
  inl, inr, ◌⊎◌, sym,
}
use sync_space.Settings.{Store, privacy_accepted}
use sync_space.Api.{trim_prefix, privacy_gate, is_api_request, is_allowed}

-- The prefixes of the routes that a peer calls, and of those that pair and transfer.
pub data PeerPrefix : Type 0 where
  protocol pairing transfers : PeerPrefix

abbrev pub text : PeerPrefix → String
text protocol = "/v1/"
text pairing = "/pairing/"
text transfers = "/transfers/"

is_closed :
    (whole path : String) (p : PeerPrefix)
    → has_prefix (text p) path ≡ true
    → is_api_request whole path ≡ true
unfolding is_api_request
is_closed whole path protocol h = ground (arith, h)
is_closed whole path pairing h = ground (arith, h)
is_closed whole path transfers h = ground (arith, h)

differs :
    (p : PeerPrefix) (path other : String)
    → has_prefix (text p) path ≡ true
    → has_prefix (text p) other ≡ false
    → (path == other) ≡ false
differs p path other h e = elim (Bool-cases (path == other)) [
  | inr apart ↦ apart
  | inl same ↦
      let moved = subst (λ s. has_prefix (text p) s ≡ true) ((str_eq_iff path other).0 same) h in
      ground (arith, moved, e)
]

-- A path under a prefix is none of the paths that are left open.
not_allowed :
    (method path : String) (p : PeerPrefix)
    → has_prefix (text p) path ≡ true
    → is_allowed method path ≡ false
unfolding has_prefix
not_allowed method path protocol h = ground (
  arith,
  differs protocol path "/privacy-policy" h refl,
  differs protocol path "/settings" h refl,
  differs protocol path "/device/self" h refl,
  differs protocol path "/health" h refl,
  differs protocol path "/privacy-policy/accept" h refl,
)
not_allowed method path pairing h = ground (
  arith,
  differs pairing path "/privacy-policy" h refl,
  differs pairing path "/settings" h refl,
  differs pairing path "/device/self" h refl,
  differs pairing path "/health" h refl,
  differs pairing path "/privacy-policy/accept" h refl,
)
not_allowed method path transfers h = ground (
  arith,
  differs transfers path "/privacy-policy" h refl,
  differs transfers path "/settings" h refl,
  differs transfers path "/device/self" h refl,
  differs transfers path "/health" h refl,
  differs transfers path "/privacy-policy/accept" h refl,
)

-- The paths that a peer calls, and those that pair and transfer; the queue itself has no more slash.
abbrev pub IsPeerPath : String → Type 0
IsPeerPath path = (path ≡ "/transfers") ⊎ ((p : PeerPrefix) × (has_prefix (text p) path ≡ true))

queue_api : (whole path : String) → path ≡ "/transfers" → is_api_request whole path ≡ true
unfolding is_api_request
queue_api whole path e =
    let same : (path == "/transfers") ≡ true = (str_eq_iff path "/transfers").1 e in
    ground (arith, same)

-- Two texts of which one is the queue's path and the other is open differ.
queue_differs :
    (path other : String)
    → path ≡ "/transfers"
    → ("/transfers" == other) ≡ false
    → (path == other) ≡ false
queue_differs path other e apart = subst (λ s. (s == other) ≡ false) (sym e) apart

queue_not_allowed : (method path : String) → path ≡ "/transfers" → is_allowed method path ≡ false
queue_not_allowed method path e = ground (
  arith,
  queue_differs path "/privacy-policy" e refl,
  queue_differs path "/settings" e refl,
  queue_differs path "/device/self" e refl,
  queue_differs path "/health" e refl,
  queue_differs path "/privacy-policy/accept" e refl,
)

-- While the policy is not accepted, no request to the protocol of peers, to pairing or to transfers goes
-- on, whatever its method: none whose path, without the prefix of the local API, is "/transfers" or
-- begins with "/v1/", "/pairing/" or "/transfers/".
pub privacy_gate-closed :
    (store : Store) (method whole : String)
    → privacy_accepted store ≡ false
    → IsPeerPath (trim_prefix "/api/v1" whole)
    → privacy_gate (some store) method whole ≡ false
unfolding privacy_gate
privacy_gate-closed store method whole h (inl queue) =
    let path = trim_prefix "/api/v1" whole in
    ground (arith, h, queue_not_allowed method path queue, queue_api whole path queue)
privacy_gate-closed store method whole h (inr (p, under)) =
    let path = trim_prefix "/api/v1" whole in
    ground (arith, h, not_allowed method path p under, is_closed whole path p under)
