-- ===== src/Pairing/Service/Receive.antt =====
-- `ReceiveBegin` of backend/internal/pairing/service.go: the end that answers the signed exchange.
use sync_space.Base.{
  ℕ, String, Bool, true, false, not, ◌||◌, Option, none, some, ◌-◌, ltb, leb, length, if◌then◌else◌,
  ◌==◌, nat_eq, string_eq,
}
use sync_space.Base.Dict
use sync_space.Base.Int.{pos, int_eq}
use sync_space.Models.{Device, Identity}
use sync_space.Pairing.Models.{
  Bytes, TrustedDevice, incoming, BeginRequest, BeginResponse, pairing_requested, Outcome, ok, err,
  nil_dereference, peer_not_discovered, already_trusted, protocol, identity_changed,
  pairing_rate_limit, key_exchange,
}
use sync_space.Pairing.Crypto.{
  Primitives, identity_fingerprint, short_fingerprint, valid_protocol_timestamp, sign_response,
  verify_request, new_ephemeral, derive_pairing,
}
use sync_space.Pairing.Store
use sync_space.Pairing.Sessions.{
  Session, Service, Env, publish, protocol_max_skew, pairing_cooldown, max_pending,
  find_online_peer, prune,
}
use sync_space.Pairing.Service.Exchange.{
  Check, done, proceed, Draw, is_not_found, unix, new_session, open_session, opened,
}

-- `ReceiveBegin` under its first lock, from the answer of `store.Get` on.
unfoldable pub begin_locked :
    Primitives
    → Env
    → Service
    → BeginRequest
    → String
    → Device × Bytes
    → Outcome TrustedDevice
    → Check BeginResponse (Device × Bytes) × Service
begin_locked p env s begin host peer nil_dereference = (done nil_dereference, s)
begin_locked p env s begin host peer (ok device) =
    if not (device.public_key == begin.public_key)
    then (
      done (err identity_changed),
      elim (Store.upsert (env.upsert_fails begin.device_id) s.store
          (record device { identity_key_changed = true })) [
            | none ↦ s
            | some store ↦ record s { store = store }
          ],
    )
    else (done (err already_trusted), s)
begin_locked p env s begin host peer (err e) = if not (is_not_found e) then (done (err e), s) else (
  proceed peer,
  record s {
    recent_begins = Dict.insert begin.request_id env.now s.recent_begins;
    last_begin_by_host = Dict.insert host env.now s.last_begin_by_host;
  },
)

-- A begin request was seen within the lifetime; a host's last one is within the cooldown.
abbrev pub within : ℕ → ℕ → Option ℕ → Bool
within now limit none = false
within now limit (some seen) = ltb (now - seen) limit

abbrev pub cached_response : Option Session → Option BeginResponse
cached_response none = none
cached_response (some session) =
    if session.response.request_id == "" then none else some session.response

-- The section after the checks that need no lock; a host's time is never Go's zero time.
unfoldable pub begin_pruned :
    Primitives
    → Env
    → Service
    → BeginRequest
    → String
    → Device × Bytes
    → Check BeginResponse (Device × Bytes) × Service
unfolding begin_locked
begin_pruned p env s begin host peer =
    elim (cached_response (Dict.lookup begin.request_id s.sessions)) [
      | some response ↦ (done (ok response), s)
      | none ↦
          if within env.now s.request_ttl (Dict.lookup begin.request_id s.recent_begins)
          then (done (err protocol), s)
          else if within env.now pairing_cooldown (Dict.lookup host s.last_begin_by_host)
              || leb max_pending (length s.sessions)
          then (done (err pairing_rate_limit), s)
          else begin_locked p env s begin host peer
              (Store.get env.get_fails s.store begin.device_id)
    ]

unfoldable pub receive_begin_check :
    Primitives
    → Env
    → Service
    → BeginRequest
    → String
    → Check BeginResponse (Device × Bytes) × Service
unfolding begin_pruned
receive_begin_check p env s begin host =
    if not (begin.protocol_version == pos 1)
      || not (p.is_uuid begin.request_id)
      || not (p.is_uuid begin.device_id)
      || not (valid_protocol_timestamp p begin.timestamp (unix env.now) (unix protocol_max_skew))
    then (done (err protocol), s)
    else elim (find_online_peer env.peers begin.device_id) [
      | none ↦ (done (err peer_not_discovered), s)
      | some peer ↦
          if peer.identity_hint == ""
          then (done (err peer_not_discovered), s)
          else elim (verify_request p begin) [
            | none ↦ (done (err protocol), s)
            | some key ↦
                if not (short_fingerprint (identity_fingerprint p key) == peer.identity_hint)
                then (done (err protocol), s)
                else begin_pruned p env (prune env.now s) begin host (peer, key)
          ]
    ]

abbrev pub begin_response : Primitives → Identity → ℕ → BeginRequest → Draw → Bytes → BeginResponse
begin_response p identity now begin draw ephemeral =
    sign_response p
      (record {
        protocol_version = pos 1;
        request_id = begin.request_id;
        device_id = identity.id;
        device_name = identity.name;
        platform = identity.platform;
        public_key = identity.public_key;
        ephemeral_key = new_ephemeral p ephemeral;
        timestamp = p.format_int (unix now);
        nonce = draw.nonce;
        signature = "";
      })
      identity.private_key

-- The device's older session is dropped for the new one.
abbrev pub evict : Service → String → String → Service
evict s device_id request_id = elim (Dict.lookup device_id s.pending_by_device) [
  | none ↦ s
  | some existing ↦
      if existing == "" || existing == request_id
      then s
      else record s { sessions = Dict.erase existing s.sessions }
]

-- The new session of `ReceiveBegin`, with the response that it sends.
unfoldable pub receive_exchange :
    Primitives → ℕ → Service → BeginRequest → Device × Bytes → Draw → Outcome Session
receive_exchange p now s begin (peer, key) draw = elim draw.ephemeral [
  | none ↦ err key_exchange
  | some ephemeral ↦
      let response = begin_response p s.identity now begin draw ephemeral in
      elim (derive_pairing p ephemeral begin.ephemeral_key begin response) [
        | none ↦ err key_exchange
        | some (secret, code) ↦
            let request =
              opened incoming p now s.request_ttl begin.request_id begin.device_id begin.device_name
                begin.platform key code in
            ok (new_session request secret begin.public_key peer response)
      ]
]

abbrev pub store_begin : ℕ → Service → Outcome Session → Outcome BeginResponse × Service
store_begin now s (ok session) =
    let id = session.request.request_id in
    (
      ok session.response,
      publish (open_session (evict s session.request.device_id id) id session)
          (pairing_requested session.request now),
    )
store_begin now s (err e) = (err e, s)
store_begin now s nil_dereference = (nil_dereference, s)

unfoldable pub receive_begin_finish :
    Primitives
    → ℕ
    → Service
    → BeginRequest
    → Device × Bytes
    → Draw
    → Outcome BeginResponse × Service
unfolding receive_exchange
receive_begin_finish p now s begin peer draw =
    store_begin now s (receive_exchange p now s begin peer draw)

unfoldable pub receive_begin :
    Primitives → Env → Service → BeginRequest → String → Draw → Outcome BeginResponse × Service
receive_begin p env s begin host draw =
    let (check, s') = receive_begin_check p env s begin host in
    elim check [
      | done outcome ↦ (outcome, s')
      | proceed peer ↦ receive_begin_finish p env.now s' begin peer draw
    ]
