-- ===== src/Pairing/Agreement.antt =====
-- The key agreement of backend/internal/pairing: both ends of the exchange come to one secret.
use sync_space.Base.{ℕ, some, ◌≡◌, arith, refl}
use sync_space.Models.{Device, Identity}
use sync_space.Pairing.Models.{Bytes, BeginRequest, BeginResponse, ok}
use sync_space.Pairing.Crypto.{
  Primitives, new_ephemeral, derive_pairing, sign_request, sign_response,
}
use sync_space.Pairing.Sessions.{Session, Service}
use sync_space.Pairing.Service.Exchange.{Draw}
use sync_space.Pairing.Service.Begin.{begin_request, request_exchange}
use sync_space.Pairing.Service.Receive.{begin_response, receive_exchange}

-- X25519 on two private keys: each public key survives its encoding, and the two shared secrets
-- are one.
pub record IsExchange (p : Primitives) (a b : Bytes) : Type 0 where
  pub decodes_a : p.decode_base64 (p.encode_base64 (p.x25519_public a)) ≡ some (p.x25519_public a)
  pub decodes_b : p.decode_base64 (p.encode_base64 (p.x25519_public b)) ≡ some (p.x25519_public b)
  pub shared : p.x25519_ecdh a (p.x25519_public b) ≡ p.x25519_ecdh b (p.x25519_public a)

derive_pairing-agree :
    (p : Primitives) (a b : Bytes) (request : BeginRequest) (response : BeginResponse)
    → IsExchange p a b
    → derive_pairing p a (new_ephemeral p b) request response
      ≡ derive_pairing p b (new_ephemeral p a) request response
unfolding derive_pairing new_ephemeral
derive_pairing-agree p a b request response x = ground (arith, x.decodes_a, x.decodes_b, x.shared)

receive_exchange-derives :
    (p : Primitives) (now : ℕ) (t : Service) (begin : BeginRequest) (from : Device × Bytes)
    (draw : Draw) (b : Bytes) {theirs : Session}
    → draw.ephemeral ≡ some b
    → receive_exchange p now t begin from draw ≡ ok theirs
    → (theirs.response ≡ begin_response p t.identity now begin draw b)
      × (derive_pairing p b begin.ephemeral_key begin theirs.response
          ≡ some (theirs.secret, theirs.request.verification_code))
unfolding receive_exchange
receive_exchange-derives p now t begin from draw b d e = ground (arith, d, e)

request_exchange-derives :
    (p : Primitives) (now : ℕ) (s : Service) (peer : Device) (draw : Draw) (a : Bytes)
    (response : BeginResponse) {mine : Session}
    → draw.ephemeral ≡ some a
    → request_exchange p now s peer draw (some response) ≡ ok mine
    → derive_pairing p a response.ephemeral_key (begin_request p s.identity now draw a) response
      ≡ some (mine.secret, mine.request.verification_code)
unfolding request_exchange
request_exchange-derives p now s peer draw a response d e = ground (arith, d, e)

begin_request-key :
    (p : Primitives) (identity : Identity) (now : ℕ) (draw : Draw) (a : Bytes)
    → (begin_request p identity now draw a).ephemeral_key ≡ new_ephemeral p a
unfolding sign_request
begin_request-key p identity now draw a = refl

begin_response-key :
    (p : Primitives) (identity : Identity) (now : ℕ) (begin : BeginRequest) (draw : Draw)
    (b : Bytes)
    → (begin_response p identity now begin draw b).ephemeral_key ≡ new_ephemeral p b
unfolding sign_response
begin_response-key p identity now begin draw b = refl

-- If the answering end makes a session of the signed request, and the requesting end makes one of
-- the response that it is sent, then both have the same secret and show the same code.
pub exchange-agree :
    (p : Primitives) (now now' : ℕ) (s t : Service) (peer from : Device) (key : Bytes)
    (draw draw' : Draw) (a b : Bytes) {mine theirs : Session}
    → IsExchange p a b
    → draw.ephemeral ≡ some a
    → draw'.ephemeral ≡ some b
    → receive_exchange p now' t (begin_request p s.identity now draw a) (from, key) draw'
      ≡ ok theirs
    → request_exchange p now s peer draw (some theirs.response) ≡ ok mine
    → (mine.secret ≡ theirs.secret)
      × (mine.request.verification_code ≡ theirs.request.verification_code)
exchange-agree p now now' s t peer from key draw draw' a b {mine} {theirs} x da db e f =
    let begin = begin_request p s.identity now draw a in
    let (sent, theirs_made) = receive_exchange-derives p now' t begin (from, key) draw' b db e in
    let mine_made = request_exchange-derives p now s peer draw a theirs.response da f in
    let agree = derive_pairing-agree p a b begin theirs.response x in
    let mine_key = begin_request-key p s.identity now draw a in
    let their_key = begin_response-key p t.identity now' begin draw' b in
    ground (arith, sent, theirs_made, mine_made, agree, mine_key, their_key)
