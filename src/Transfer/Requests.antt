-- ===== src/Transfer/Requests.antt =====
-- What the user asks of transfers: `Queue` and `Accept` of backend/internal/transfer/service.go. What
-- the disk answers is an argument.
pub mod Placed
use sync_space.Base.{
  ℕ, suc, String, ◌<>◌, Bool, true, false, not, ◌&&◌, ◌||◌, Option, none, some, List, [], ◌∷◌,
  if◌then◌else◌, is_empty, length, ◌==◌, string_eq, trim_space, decimal, is_blank,
}
use sync_space.Base.Int.{ℤ, pos, negsuc, int_eq, ltb_ℤ, leb_ℤ}
use sync_space.Models.{Device}
use sync_space.Transfer.Models.{
  Status, queued, receiving, outbound, is_inbound, File, Transfer, QueueRequest, AcceptRequest,
  EventType, queue_updated, resumed_event, TransferError, Outcome, ok, err, invalid_request,
  invalid_state, untrusted_device, insufficient_storage, conflict_resolution, path_traversal,
  storage, other,
}
use sync_space.Transfer.Store
use sync_space.Transfer.Paths.{Platform, secure_join}
use sync_space.Transfer.Conflicts.{Lstat, missing, present, refused}
use sync_space.Transfer.Externals.{Externals, peer}
use sync_space.Transfer.Control.{Service, Env, save, get, with_transfer, is_queued}

abbrev valid_policy : String → Bool
valid_policy policy = policy == "prompt" || policy == "overwrite" || policy == "rename"

abbrev pub policy_of : String → String
policy_of policy = if policy == "" then "prompt" else policy

abbrev show_int : ℤ → String
show_int (pos n) = decimal n
show_int (negsuc n) = "-" <> decimal (suc n)

-- How the service reaches its peers; `join_host_port` is Go's.
pub record Sender : Type 0 where
  pub chunk_size : ℤ
  pub peer_scheme : String
  pub join_host_port : String → String → String

unfoldable pub peer_address : Sender → Device → String
unfolding decimal
peer_address sender d =
    sender.peer_scheme <> ("://" <> sender.join_host_port (trim_space d.local_ip) (show_int d.port))

abbrev all_found : (String → Lstat) → List String → Bool
all_found lstat [] = true
all_found lstat (path ∷ paths) = elim (lstat path) [
  | missing ↦ false
  | refused ↦ false
  | present ↦ all_found lstat paths
]

abbrev items_name : Platform → List String → String
items_name p [] = ""
items_name p (path ∷ []) = p.base path
items_name p (path ∷ next ∷ paths) = decimal (suc (suc (length paths))) <> " items"

abbrev smaller : ℤ → ℤ → ℤ
smaller a b = if ltb_ℤ a b then a else b

module _ (p : Platform) (x : Externals) (lstat : String → Lstat) where
  unfoldable pub new_outbound : ℕ → Sender → String → Device → QueueRequest → Transfer
  unfolding peer_address decimal
  new_outbound now sender id d request = record {
    id = id;
    direction = outbound;
    device_id = request.device_id;
    device_name = d.name;
    device_hostname = d.hostname;
    device_platform = d.platform;
    remote_address = peer_address sender d;
    filename = items_name p request.paths;
    path = "";
    source_paths = request.paths;
    files = [];
    size = pos 0;
    checksum = "";
    status = queued;
    progress = pos 0;
    speed = pos 0;
    eta_seconds = pos 0;
    started_at = none;
    finished_at = none;
    created_at = now;
    updated_at = now;
    error = "";
    attempts = pos 0;
    priority = pos now;
    approved = true;
    approval_required = false;
    conflict_policy = policy_of request.conflict_policy;
    chunk_size = smaller d.maximum_chunk_size sender.chunk_size;
    compression = d.compression_support;
    protocol_version = pos 1;
    session_token = "";
    session_token_hash = "";
  }

  abbrev speaks_protocol : Device → Bool
  speaks_protocol d =
      d.transfer_capability
      && d.supported_protocol_version == pos 1
      && ltb_ℤ (pos 0) d.maximum_chunk_size

  -- `id` is the new UUID.
  unfoldable pub queue :
      Env → List Device → Sender → Service → String → QueueRequest → Outcome Transfer × Service
  unfolding peer new_outbound save
  queue env peers sender s id request =
      if not (x.is_uuid request.device_id)
      then (err invalid_request, s)
      else if is_empty request.paths
      then (err invalid_request, s)
      else elim (x.is_trusted request.device_id) [
        | none ↦ (err storage, s)
        | some trusted ↦
            if not trusted then (err untrusted_device, s) else elim (peer peers request.device_id) [
              | none ↦ (err invalid_request, s)
              | some d ↦
                  if not d.is_online
                    || not (speaks_protocol d)
                    || not (all_found lstat request.paths)
                    || not (valid_policy (policy_of request.conflict_policy))
                  then (err invalid_request, s)
                  else save env s (new_outbound env.now sender id d request) queue_updated
            ]
      ]

  -- The loop over the files: each gets its place below the root.
  unfoldable pub place_files : String → String → List File → Outcome (List File)
  unfolding secure_join
  place_files root policy [] = ok []
  place_files root policy (f ∷ fs) =
      let rest = place_files root policy fs in
      elim (secure_join p root f.relative_path) [
        | none ↦ err path_traversal
        | some target ↦
            let placed : Outcome (List File) = elim rest [
              | err e ↦ err e
              | ok gs ↦ ok (record f { destination_path = target } ∷ gs)
            ] in
            if policy == "prompt"
            then elim (lstat target) [
              | present ↦ err conflict_resolution
              | refused ↦ err (other "lstat")
              | missing ↦ placed
            ]
            else placed
      ]

  abbrev pub accepted : ℕ → Transfer → String → String → List File → Transfer
  accepted now t root policy files = record t {
    files = files;
    path = root;
    approved = true;
    conflict_policy = policy;
    status = receiving;
    updated_at = now;
    started_at = some now;
  }

  -- The checks of `Accept`, and the transfer that it saves. `mkdir` says whether the directory is there
  -- or could be made; `available` is the storage below it.
  unfoldable pub acceptance :
      ℕ → (String → Bool) → (String → ℤ) → Transfer → AcceptRequest → Outcome Transfer
  unfolding place_files
  acceptance now mkdir available t request =
      if not (is_inbound t.direction) || not (is_queued t.status) || not t.approval_required
      then err invalid_state
      else if is_blank request.destination_path
      then err invalid_request
      else elim (p.abs request.destination_path) [
        | none ↦ err (other "abs")
        | some root ↦
            if not (mkdir root)
            then err (other "mkdir")
            else if ltb_ℤ (pos 0) (available root) && ltb_ℤ (available root) t.size
            then err insufficient_storage
            else if not (valid_policy (policy_of request.conflict_policy))
            then err invalid_request
            else elim (place_files root (policy_of request.conflict_policy) t.files) [
              | err e ↦ err e
              | ok files ↦ ok (accepted now t root (policy_of request.conflict_policy) files)
            ]
      ]

  unfoldable pub accept :
      Env
      → (String → Bool)
      → (String → ℤ)
      → Service
      → String
      → AcceptRequest
      → Outcome Transfer × Service
  unfolding get save acceptance
  accept env mkdir available s id request = with_transfer s (get x.is_uuid env s id) (λ t.
      elim (acceptance env.now mkdir available t request) [
        | err e ↦ (err e, s)
        | ok made ↦ save env s made resumed_event
      ])
