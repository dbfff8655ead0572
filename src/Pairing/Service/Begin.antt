-- ===== src/Pairing/Service/Begin.antt =====
-- `RequestPairing` of backend/internal/pairing/service.go: the end that opens the signed exchange.
use sync_space.Base.{
  ℕ, String, not, ◌||◌, Option, none, some, leb, length, if◌then◌else◌, ◌==◌, nat_eq, string_eq,
}
use sync_space.Base.Dict
use sync_space.Base.Int.{pos, int_eq}
use sync_space.Models.{Device, Identity}
use sync_space.Pairing.Models.{
  Bytes, TrustedDevice, Request, outgoing, BeginRequest, BeginResponse, pairing_requested, Outcome,
  ok, err, nil_dereference, peer_not_discovered, already_trusted, invalid_identifier, protocol,
  identity_changed, pairing_rate_limit, transport, key_exchange,
}
use sync_space.Pairing.Crypto.{
  Primitives, identity_fingerprint, short_fingerprint, valid_protocol_timestamp, sign_request,
  verify_response, new_ephemeral, derive_pairing,
}
use sync_space.Pairing.Store
use sync_space.Pairing.Sessions.{
  Session, Service, Env, publish, protocol_max_skew, max_pending, find_online_peer, prune,
}
use sync_space.Pairing.Service.Exchange.{
  Check, done, proceed, Draw, is_not_found, unix, new_session, open_session, opened,
}

-- The first section of `RequestPairing`, from the answer of `store.Get` on.
unfoldable pub request_locked :
    Env → Service → Device → String → Outcome TrustedDevice → Check Request Device × Service
request_locked env s peer device_id nil_dereference = (done nil_dereference, s)
request_locked env s peer device_id (ok existing) = (
  done (
      err (
        if existing.identity_key_changed
          || not (short_fingerprint existing.fingerprint == peer.identity_hint)
        then identity_changed
        else already_trusted)),
  s,
)
request_locked env s peer device_id (err e) =
    if not (is_not_found e)
    then (done (err e), s)
    else elim (Dict.lookup device_id s.pending_by_device) [
      | some request_id ↦ elim (Dict.lookup request_id s.sessions) [
        | some session ↦ (done (ok session.request), s)
        | none ↦ (done nil_dereference, s)
      ]
      | none ↦
          if leb max_pending (length s.sessions)
          then (done (err pairing_rate_limit), s)
          else (proceed peer, s)
    ]

unfoldable pub request_pairing_check :
    Primitives → Env → Service → String → Check Request Device × Service
unfolding request_locked
request_pairing_check p env s device_id =
    if not (p.is_uuid device_id)
    then (done (err invalid_identifier), s)
    else elim (find_online_peer env.peers device_id) [
      | none ↦ (done (err peer_not_discovered), s)
      | some peer ↦
          if not peer.pairing_available || peer.identity_hint == ""
          then (done (err peer_not_discovered), s)
          else let pruned = prune env.now s in
            request_locked env pruned peer device_id
              (Store.get env.get_fails pruned.store device_id)
    ]

abbrev pub begin_request : Primitives → Identity → ℕ → Draw → Bytes → BeginRequest
begin_request p identity now draw ephemeral =
    sign_request p
      (record {
        protocol_version = pos 1;
        request_id = draw.request_id;
        device_id = identity.id;
        device_name = identity.name;
        platform = identity.platform;
        public_key = identity.public_key;
        ephemeral_key = new_ephemeral p ephemeral;
        timestamp = p.format_int (unix now);
        nonce = draw.nonce;
        signature = "";
      })
      identity.private_key

-- The peer's key, if its answer is for this request and matches discovery.
unfoldable pub validate_begin_response :
    Primitives → Device → BeginRequest → BeginResponse → ℕ → Option Bytes
validate_begin_response p peer request response now =
    if not (response.protocol_version == pos 1)
      || not (response.request_id == request.request_id)
      || not (response.device_id == peer.id)
      || not (valid_protocol_timestamp p response.timestamp (unix now) (unix protocol_max_skew))
    then none
    else elim (verify_response p response) [
      | none ↦ none
      | some key ↦
          if short_fingerprint (identity_fingerprint p key) == peer.identity_hint
          then some key
          else none
    ]

-- The new session of `RequestPairing`, from the peer's reply (none: the transport failed).
unfoldable pub request_exchange :
    Primitives → ℕ → Service → Device → Draw → Option BeginResponse → Outcome Session
request_exchange p now s peer draw reply = elim draw.ephemeral [
  | none ↦ err key_exchange
  | some ephemeral ↦
      let begin = begin_request p s.identity now draw ephemeral in
      elim reply [
        | none ↦ err transport
        | some response ↦ elim (validate_begin_response p peer begin response now) [
          | none ↦ err protocol
          | some key ↦ elim (derive_pairing p ephemeral response.ephemeral_key begin response) [
            | none ↦ err key_exchange
            | some (secret, code) ↦
                let request =
                  opened outgoing p now s.request_ttl draw.request_id peer.id response.device_name
                    response.platform key code in
                ok (new_session request secret response.public_key peer response)
          ]
        ]
      ]
]

abbrev pub store_request : ℕ → Service → Outcome Session → Outcome Request × Service
store_request now s (ok session) = (
  ok session.request,
  publish (open_session s session.request.request_id session)
      (pairing_requested session.request now),
)
store_request now s (err e) = (err e, s)
store_request now s nil_dereference = (nil_dereference, s)

-- The rest of `RequestPairing`; `now` is the time that the first section read.
unfoldable pub request_pairing_finish :
    Primitives → ℕ → Service → Device → Draw → Option BeginResponse → Outcome Request × Service
unfolding request_exchange
request_pairing_finish p now s peer draw reply =
    store_request now s (request_exchange p now s peer draw reply)

-- Both sections with nothing in between; the peer answers the request that is sent.
unfoldable pub request_pairing :
    Primitives
    → Env
    → Service
    → String
    → Draw
    → (BeginRequest → Option BeginResponse)
    → Outcome Request × Service
request_pairing p env s device_id draw answer =
    let (check, s') = request_pairing_check p env s device_id in
    elim check [
      | done outcome ↦ (outcome, s')
      | proceed peer ↦
          let reply : Option BeginResponse = elim draw.ephemeral [
            | none ↦ none
            | some ephemeral ↦ answer (begin_request p s'.identity env.now draw ephemeral)
          ] in
          request_pairing_finish p env.now s' peer draw reply
    ]
