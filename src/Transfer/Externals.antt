-- ===== src/Transfer/Externals.antt =====
-- Who a peer is: the credentials and addresses of the transfer protocol
-- (backend/internal/transfer/auth.go, service.go). What they use of the pairing service and of Go's
-- libraries is `Externals`; bytes are texts here.
use Prim.Native.String.{len}
use sync_space.Base.{
  ℕ, String, Bool, false, not, ◌&&◌, ◌||◌, Option, none, some, List, [], ◌∷◌, ◌/◌, if◌then◌else◌,
  ◌==◌, string_eq, nat_eq, join, trim_space,
}
use sync_space.Base.Int.{ℤ, int_eq}
use sync_space.Models.{Device}
use sync_space.Transfer.Models.{
  Offer, PeerAuthentication, TransferError, invalid_request, untrusted_device, unauthorized,
  storage, other,
}
use sync_space.Transfer.Clock.{valid_protocol_time}

-- `uuid.Parse`, the pairing service's trust and keys, `strconv.ParseInt`, `json.Marshal`, SHA-256 in
-- hexadecimal, HMAC-SHA-256, base64, `net.ParseIP` and `hex.DecodeString`.
pub record Externals : Type 0 where
  pub is_uuid : String → Bool
  pub is_trusted : String → Option Bool
  pub shared_key : String → Option String
  pub parse_int : String → Option ℤ
  pub marshal : Offer → Option String
  pub sha256_hex : String → String
  pub hmac : String → String → String
  pub encode64 : String → String
  pub decode64 : String → Option String
  pub parse_ip : String → Option String
  pub is_hex : String → Bool

abbrev pub seconds_of : ℕ → ℕ
seconds_of now = now / 1_000_000_000

unfoldable pub peer : List Device → String → Option Device
peer [] id = none
peer (d ∷ ds) id = if d.id == id then some d else peer ds id

module _ (x : Externals) where
  unfoldable pub offer_signature :
      String → String → String → String → String → String → String → String
  offer_signature key method path device_id timestamp nonce body = x.encode64 (
      x.hmac key
        (join "\n" (method ∷ path ∷ device_id ∷ timestamp ∷ nonce ∷ x.sha256_hex body ∷ [])))

  unfoldable pub valid_offer_signature :
      String → PeerAuthentication → String → String → String → Bool
  unfolding offer_signature
  valid_offer_signature key auth method path body =
      elim (x.decode64
        (offer_signature key method path auth.device_id auth.timestamp auth.nonce body)) [
          | none ↦ false
          | some expected ↦ elim (x.decode64 auth.signature) [
            | none ↦ false
            | some actual ↦ expected == actual
          ]
        ]

  unfoldable pub valid_sha256 : String → Bool
  valid_sha256 v = len v == 64 && x.is_hex v

  unfoldable pub same_ip : String → String → Bool
  same_ip left right = elim (x.parse_ip (trim_space left)) [
    | none ↦ false
    | some a ↦ elim (x.parse_ip (trim_space right)) [ none ↦ false | some b ↦ a == b ]
  ]

  -- Up to the check of the signature.
  unfoldable pub offer_authenticity : ℕ → Offer → PeerAuthentication → Option TransferError
  unfolding valid_offer_signature
  offer_authenticity now offer auth =
      if not (x.is_uuid offer.transfer_id)
      then some invalid_request
      else if not (x.is_uuid offer.device_id)
      then some invalid_request
      else elim (x.is_trusted offer.device_id) [
        | none ↦ some storage
        | some trusted ↦
            if not trusted
            then some untrusted_device
            else if not (auth.device_id == offer.device_id)
                || not (valid_protocol_time x.parse_int auth.timestamp (seconds_of now))
                || auth.nonce == ""
            then some unauthorized
            else elim (x.shared_key offer.device_id) [
              | none ↦ some unauthorized
              | some key ↦ elim (x.marshal offer) [
                | none ↦ some (other "json")
                | some body ↦
                    if valid_offer_signature key auth "POST" "/v1/transfers/offers" body
                    then none
                    else some unauthorized
              ]
            ]
      ]

  -- The sender is seen at the address that the request comes from.
  unfoldable pub is_at_address : Option Device → String → Bool
  unfolding same_ip
  is_at_address none remote_address = false
  is_at_address (some d) remote_address = d.is_online && same_ip d.local_ip remote_address

  -- `tokenMatches`, of the hash that a transfer holds
  unfoldable pub token_matches : String → String → Bool
  token_matches hash token = hash == x.sha256_hex token
