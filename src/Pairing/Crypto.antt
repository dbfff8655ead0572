-- ===== src/Pairing/Crypto.antt =====
-- backend/internal/pairing/crypto.go and the fingerprint of backend/internal/services/identity.go.
-- The functions of Go's `crypto`, `encoding` and `strconv`, of x/crypto's HKDF and of uuid enter as
-- the fields of `Primitives`.
use sync_space.Base.{
  ℕ, String, ◌<>◌, Bool, true, false, ◌&&◌, Option, none, some, List, [], ◌∷◌, ◌++◌, ◌+◌, ◌*◌, ◌/◌,
  ◌%◌, length, take, drop, if◌then◌else◌, ◌==◌, nat_eq, split, join, hex_byte, three_digits,
}
use sync_space.Base.Int.{ℤ, pos, ltb_ℤ, leb_ℤ, sub64}
use sync_space.Pairing.Models.{Bytes, BeginRequest, BeginResponse, Proof, PeerDecision}

pub record Primitives : Type 0 where
  pub is_uuid : String → Bool
  pub parse_int : String → Option ℤ
  pub format_int : ℕ → String
  pub decode_base64 : String → Option Bytes
  pub encode_base64 : Bytes → String
  pub sha256 : Bytes → Bytes
  pub ed25519_sign : Bytes → Bytes → Bytes
  pub ed25519_verify : Bytes → Bytes → Bytes → Bool
  pub hmac_sha256 : Bytes → Bytes → Bytes
  pub x25519_public : Bytes → Bytes
  pub x25519_ecdh : Bytes → Bytes → Option Bytes
  pub hkdf_sha256 : Bytes → Bytes → String → ℕ → Option Bytes
  pub marshal_begin_request : BeginRequest → Bytes
  pub marshal_begin_response : BeginResponse → Bytes
  pub marshal_proof : Proof → Bytes
  pub marshal_peer_decision : PeerDecision → Bytes

abbrev equal_bytes : Bytes → Bytes → Bool
equal_bytes [] [] = true
equal_bytes [] (b ∷ bs) = false
equal_bytes (a ∷ as') [] = false
equal_bytes (a ∷ as') (b ∷ bs) = a == b && equal_bytes as' bs

unfoldable pub fingerprint_groups : Bytes → List String
fingerprint_groups (a ∷ b ∷ bs) = (hex_byte a <> hex_byte b) ∷ fingerprint_groups bs
fingerprint_groups _ = []

-- b':' is 58
unfoldable pub short_fingerprint : String → String
short_fingerprint full = join ":" (take 4 (split b':' full))

-- The big-endian number of some bytes.
unfoldable pub big_endian : ℕ → Bytes → ℕ
big_endian acc [] = acc
big_endian acc (b ∷ bs) = big_endian (acc * 256 + b) bs

-- `fmt.Sprintf("%03d %03d", …)` of the last eight of the forty bytes of key material.
unfoldable pub verification_code : Bytes → String
unfolding big_endian
verification_code material =
    let code_value = big_endian 0 (drop 32 material) % 1_000_000 in
    three_digits (code_value / 1000) <> (" " <> three_digits (code_value % 1000))

unfoldable pub valid_protocol_timestamp : Primitives → String → ℕ → ℕ → Bool
valid_protocol_timestamp p value now_unix max_skew_seconds = elim (p.parse_int value) [
  | none ↦ false
  | some parsed ↦
      let difference = sub64 parsed (pos now_unix) in
      leb_ℤ (if ltb_ℤ difference (pos 0) then sub64 (pos 0) difference else difference)
        (pos max_skew_seconds)
]

abbrev pub of_length : ℕ → Option Bytes → Option Bytes
of_length n none = none
of_length n (some bs) = if length bs == n then some bs else none

module _ (p : Primitives) where
  unfoldable pub identity_fingerprint : Bytes → String
  unfolding fingerprint_groups
  identity_fingerprint public_key = join ":" (fingerprint_groups (p.sha256 public_key))

  abbrev canonical_begin_request : BeginRequest → Bytes
  canonical_begin_request value = p.marshal_begin_request (record value { signature = "" })

  abbrev canonical_begin_response : BeginResponse → Bytes
  canonical_begin_response value = p.marshal_begin_response (record value { signature = "" })

  unfoldable pub sign_request : BeginRequest → Bytes → BeginRequest
  sign_request value private_key = record value {
    signature = p.encode_base64 (p.ed25519_sign private_key (canonical_begin_request value));
  }

  unfoldable pub sign_response : BeginResponse → Bytes → BeginResponse
  sign_response value private_key = record value {
    signature = p.encode_base64 (p.ed25519_sign private_key (canonical_begin_response value));
  }

  -- The signer's key, if the signature is good.
  unfoldable pub verify_signature : String → String → Bytes → Option Bytes
  verify_signature public_encoded signature_encoded message =
      elim (of_length 32 (p.decode_base64 public_encoded)) [
        | none ↦ none
        | some public_key ↦ elim (of_length 64 (p.decode_base64 signature_encoded)) [
          | none ↦ none
          | some signature ↦
              if p.ed25519_verify public_key message signature then some public_key else none
        ]
      ]

  unfoldable pub verify_request : BeginRequest → Option Bytes
  unfolding verify_signature
  verify_request value =
      verify_signature value.public_key value.signature (canonical_begin_request value)

  unfoldable pub verify_response : BeginResponse → Option Bytes
  unfolding verify_signature
  verify_response value =
      verify_signature value.public_key value.signature (canonical_begin_response value)

  -- The public half of an ephemeral key, encoded; the private half is drawn at random.
  unfoldable pub new_ephemeral : Bytes → String
  new_ephemeral private_key = p.encode_base64 (p.x25519_public private_key)

  -- The session's secret and its verification code. `x25519_ecdh` decodes the remote key too.
  unfoldable pub derive_pairing :
      Bytes → String → BeginRequest → BeginResponse → Option (Bytes × String)
  derive_pairing private_key remote_encoded request response =
      elim (p.decode_base64 remote_encoded) [
        | none ↦ none
        | some remote_bytes ↦ elim (p.x25519_ecdh private_key remote_bytes) [
          | none ↦ none
          | some shared ↦
              let transcript =
                p.sha256 (canonical_begin_request request ++ canonical_begin_response response) in
              elim (p.hkdf_sha256 shared transcript "SyncSpace authenticated pairing v1" 40) [
                | none ↦ none
                | some material ↦ some (take 32 material, verification_code material)
              ]
        ]
      ]

  unfoldable pub proof_mac : Bytes → Proof → String
  proof_mac secret proof =
      p.encode_base64 (p.hmac_sha256 secret (p.marshal_proof (record proof { mac = "" })))

  unfoldable pub decision_mac : Bytes → PeerDecision → String
  decision_mac secret decision =
      p.encode_base64
        (p.hmac_sha256 secret (p.marshal_peer_decision (record decision { mac = "" })))

  -- `hmac.Equal` of two encoded codes, where both decode.
  abbrev same_mac : String → String → Bool
  same_mac expected actual = elim (p.decode_base64 expected) [
    | none ↦ false
    | some left ↦ elim (p.decode_base64 actual) [
      | none ↦ false
      | some right ↦ equal_bytes left right
    ]
  ]

  unfoldable pub verify_proof : Bytes → Proof → Bool
  verify_proof secret proof = same_mac (proof_mac secret proof) proof.mac

  unfoldable pub verify_decision : Bytes → PeerDecision → Bool
  verify_decision secret decision = same_mac (decision_mac secret decision) decision.mac

  unfoldable pub decode_shared_key : String → Option Bytes
  decode_shared_key value = of_length 32 (p.decode_base64 value)
