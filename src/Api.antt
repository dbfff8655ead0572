-- ===== src/Api.antt =====
-- Who may call which route: the privacy gate and the local guard of backend/internal/api (router.go,
-- pairing.go). `trim_brackets` is `strings.Trim(_, "[]")`; what else the guard uses of Go's `net` and
-- `net/url` is `NetworkNames`.
pub mod Closed
mod Tests
use Prim.Native.String
use Prim.Native.String.{String}
use sync_space.Base.{
  has_prefix, Bool, true, false, not, ◌&&◌, ◌||◌, Option, none, some, List, [], ◌∷◌, if◌then◌else◌,
  ◌==◌, string_eq,
}
use sync_space.Settings.{Store, privacy_accepted}

-- A text without as many characters as another has.
unfoldable pub drop_chars : String → String → String
drop_chars String.[] s = s
drop_chars (String.◌∷◌ c p) String.[] = String.[]
drop_chars (String.◌∷◌ c p) (String.◌∷◌ d s) = drop_chars p s

-- `strings.TrimPrefix`
unfoldable pub trim_prefix : String → String → String
unfolding drop_chars has_prefix
trim_prefix p s = if has_prefix p s then drop_chars p s else s

abbrev pub is_desktop_origin : String → Bool
is_desktop_origin origin = origin == "wails://wails" || origin == "http://wails.localhost"

abbrev begins_with : List String → String → Bool
begins_with [] path = false
begins_with (p ∷ ps) path = has_prefix p path || begins_with ps path

-- The paths that the gate closes.
unfoldable pub is_api_request : String → String → Bool
unfolding has_prefix
is_api_request whole path =
    has_prefix "/api/v1/" whole
    || begins_with
        ("/v1/" ∷ "/discovery/" ∷ "/pairing/" ∷ "/transfers/" ∷ "/ws/" ∷ "/settings/"
          ∷ "/privacy-policy/" ∷ "/diagnostics" ∷ "/dev/" ∷ [])
        path
    || path == "/devices"
    || path == "/transfers"
    || path == "/settings"
    || path == "/privacy-policy"

abbrev pub is_allowed : String → String → Bool
is_allowed method path =
    method == "GET"
      && (path == "/privacy-policy"
          || path == "/settings"
          || path == "/device/self"
          || path == "/health")
    || method == "POST" && path == "/privacy-policy/accept"

-- `privacyGate`: whether the request goes on. Without a store the gate is open.
unfoldable pub privacy_gate : Option Store → String → String → Bool
unfolding is_api_request trim_prefix
privacy_gate none method whole = true
privacy_gate (some store) method whole =
    let path = trim_prefix "/api/v1" whole in
    privacy_accepted store || not (is_api_request whole path) || is_allowed method path

pub record NetworkNames : Type 0 where
  pub split_host_port : String → Option String
  pub trim_brackets : String → String
  pub is_loopback_ip : String → Bool
  pub parse_url : String → Option (String × String)
  pub equal_fold : String → String → Bool

abbrev host_of : String → Option String → String
host_of address none = address
host_of address (some host) = host

-- One request, as far as the guard looks at it.
pub record Request : Type 0 where
  pub method : String
  pub remote_addr : String
  pub host : String
  pub origin : String
  pub fetch_site : String

module _ (n : NetworkNames) where
  unfoldable pub is_loopback_request : String → Bool
  is_loopback_request address =
      n.is_loopback_ip (n.trim_brackets (host_of address (n.split_host_port address)))

  unfoldable pub same_local_origin : String → String → Bool
  same_local_origin origin request_host =
      if is_desktop_origin origin then true else elim (n.parse_url origin) [
        | none ↦ false
        | some (scheme, host) ↦
            (scheme == "http" || scheme == "https") && n.equal_fold host request_host
      ]

  -- `localOnly`: whether the request goes on.
  unfoldable pub local_only : Request → Bool
  unfolding is_loopback_request same_local_origin
  local_only r =
      if not (is_loopback_request r.remote_addr)
      then false
      else if not (r.origin == "") && not (same_local_origin r.origin r.host)
      then false
      else not (
          r.fetch_site == "cross-site"
          && not (is_desktop_origin r.origin)
          && not (r.method == "GET")
          && not (r.method == "HEAD"))
