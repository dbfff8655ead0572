-- ===== src/Transfer/Offers.antt =====
-- The arrival of an offer (`ReceiveOffer` of backend/internal/transfer/service.go).
pub mod Checked
pub mod Stored
pub mod Replay
use Prim.Native.String.{len}
use sync_space.Base.{
  ℕ, String, Bool, true, false, not, ◌&&◌, ◌||◌, Option, none, some, List, [], ◌∷◌, ◌/◌,
  if◌then◌else◌, ltb, leb, ◌==◌, string_eq, nat_eq, join, is_blank, trim_space, is_empty,
}
use sync_space.Base.Dict.{Dict}
use sync_space.Base.Int.{ℤ, pos, int_eq, ltb_ℤ, wrap64, add64, ◌+ℤ◌}
use sync_space.Models.{Device}
use sync_space.Transfer.Models.{
  Status, queued, Direction, inbound, File, Transfer, Offer, PeerAuthentication, EventType,
  queue_updated, TransferError, Outcome, ok, err, invalid_request, untrusted_device, unauthorized,
  path_traversal, storage, not_found, other,
}
use sync_space.Transfer.Store
use sync_space.Transfer.Paths.{Platform, validate_relative_path, is_one_of}
use sync_space.Transfer.Chunks.{chunk_count}
use sync_space.Transfer.Clock.{valid_protocol_time}
use sync_space.Transfer.Nonces.{use_authentication_nonce}
use sync_space.Transfer.Externals.{Externals, peer, valid_sha256, offer_authenticity, is_at_address}
use sync_space.Transfer.Control.{Service, Env, save}

pub record Receiver : Type 0 where
  pub service : Service
  pub auth_nonces : Dict String ℕ
  pub peers : List Device

abbrev pub maximum_chunk_size : ℕ
maximum_chunk_size = 16_777_216

abbrev pub protocol_version : ℕ
protocol_version = 1

module _ (x : Externals) where
  abbrev pub offer_labels : Offer → Bool
  offer_labels offer =
      not (
        is_blank offer.device_name
        || ltb 128 (len offer.device_name)
        || is_blank offer.filename
        || ltb 512 (len offer.filename))
      && not (ltb 255 (len offer.device_hostname) || ltb 64 (len offer.device_platform))
      && not (
          not (offer.protocol_version == pos protocol_version)
          || not (ltb_ℤ (pos 0) offer.chunk_size)
          || ltb_ℤ (pos maximum_chunk_size) offer.chunk_size
          || is_empty offer.files
          || ltb_ℤ offer.size (pos 0)
          || ltb (len offer.session_token) 32)

  module _ (p : Platform) where
    -- One round of the loop over the files.
    unfoldable pub check_file : ℤ → List String → File → Option TransferError
    unfolding valid_sha256
    check_file chunk_size seen f =
        if not (x.is_uuid f.id)
        then some invalid_request
        else if not (validate_relative_path p f.relative_path)
        then some path_traversal
        else if is_one_of (p.to_lower f.relative_path) seen
        then some invalid_request
        else if ltb_ℤ f.size (pos 0)
            || not (f.chunk_size == chunk_size)
            || not (f.chunk_count == chunk_count f.size f.chunk_size)
        then some invalid_request
        else if not f.directory && not (valid_sha256 x f.checksum)
        then some invalid_request
        else if f.directory && (not (f.size == pos 0) || not (f.chunk_count == pos 0))
        then some invalid_request
        else none

    -- The loop; its result is the total size.
    unfoldable pub check_files : ℤ → List String → ℤ → List File → Outcome ℤ
    unfolding check_file
    check_files chunk_size seen total [] = ok total
    check_files chunk_size seen total (f ∷ fs) = elim (check_file chunk_size seen f) [
      | some e ↦ err e
      | none ↦ check_files chunk_size (p.to_lower f.relative_path ∷ seen) (add64 total f.size) fs
    ]

    abbrev or_default : String → String → String
    or_default text default = if text == "" then default else text

    unfoldable pub offered : ℕ → String → Device → Offer → Transfer
    offered now remote_address d offer = record {
      id = offer.transfer_id;
      direction = inbound;
      device_id = offer.device_id;
      device_name = offer.device_name;
      device_hostname = or_default (trim_space offer.device_hostname) d.hostname;
      device_platform = or_default (trim_space offer.device_platform) d.platform;
      remote_address = remote_address;
      filename = offer.filename;
      path = "";
      source_paths = [];
      files = offer.files;
      size = offer.size;
      checksum = "";
      status = queued;
      progress = pos 0;
      speed = pos 0;
      eta_seconds = pos 0;
      started_at = none;
      finished_at = none;
      created_at = now;
      updated_at = now;
      error = "";
      attempts = pos 0;
      priority = pos now;
      approved = false;
      approval_required = true;
      conflict_policy = "prompt";
      chunk_size = offer.chunk_size;
      compression = offer.compression;
      protocol_version = offer.protocol_version;
      session_token = "";
      session_token_hash = x.sha256_hex offer.session_token;
    }

    -- The checks after the nonce, and the transfer to be stored.
    unfoldable pub offer_contents : ℕ → List Device → Offer → String → Outcome Transfer
    unfolding is_at_address check_files offered peer
    offer_contents now peers offer remote_address = elim (peer peers offer.device_id) [
      | none ↦ err untrusted_device
      | some d ↦
          if not (is_at_address x (some d) remote_address)
          then err untrusted_device
          else if not (offer_labels offer)
          then err invalid_request
          else elim (check_files offer.chunk_size [] (pos 0) offer.files) [
            | err e ↦ err e
            | ok total ↦
                if not (total == offer.size)
                then err invalid_request
                else ok (offered now remote_address d offer)
          ]
    ]

    abbrev pub store_offer : Env → Service → Transfer → Outcome Transfer × Service
    store_offer env s t = elim (Store.get_transfer env.get_fails s.tables t.id) [
      | ok existing ↦ (ok existing, s)
      | err not_found ↦ save env s t queue_updated
      | err e ↦ (err e, s)
    ]

    unfoldable pub receive_offer :
        Env → Receiver → Offer → String → PeerAuthentication → Outcome Transfer × Receiver
    unfolding offer_authenticity offer_contents save
    receive_offer env r offer remote_address auth = elim (offer_authenticity x env.now offer auth) [
      | some e ↦ (err e, r)
      | none ↦
          let (fresh, nonces) = use_authentication_nonce r.auth_nonces auth.nonce env.now in
          let used = record r { auth_nonces = nonces } in
          if not fresh
          then (err unauthorized, used)
          else elim (offer_contents env.now r.peers offer remote_address) [
            | err e ↦ (err e, used)
            | ok t ↦
                let (result, s) = store_offer env r.service t in
                (result, record used { service = s })
          ]
    ]
