-- ===== src/Transfer/Example.antt =====
-- Devices, files and tables for the tests of transfers (backend/internal/transfer).
use sync_space.Base.{String, true, false, none, some, [], ◌∷◌, string_eq, ◌<>◌}
use sync_space.Base.Int.{pos}
use sync_space.Models.{Device, ConnectionState}
use sync_space.Transfer.Models.{Transfer, File, Offer, receiving}
use sync_space.Transfer.Store.{Tables}
use sync_space.Transfer.Control.{Service, Env}
use sync_space.Transfer.Paths.{Platform}
use sync_space.Transfer.Externals.{Externals}
use sync_space.Transfer.Offers.{offered}
use sync_space.Transfer.Parts.{Contents}

abbrev pub unix : Platform
unix = record {
  clean = λ path. path;
  is_abs = λ path. false;
  volume_name = λ path. "";
  to_upper = λ path. path;
  to_lower = λ path. path;
  abs = λ path. some path;
  join = λ root path. root <> ("/" <> path);
  rel = λ root path. some path;
  separator = "/";
  base = λ path. path;
  dir = λ path. "d";
  ext = λ path. "";
}

abbrev pub sum : String
sum = "0123456789abcdef0123456789abcdef0123456789abcdef0123456789abcdef"

abbrev pub notes : File
notes = record {
  id = "f1";
  relative_path = "docs/a.txt";
  directory = false;
  source_path = "";
  destination_path = "";
  size = pos 6;
  checksum = sum;
  chunk_size = pos 4;
  chunk_count = pos 2;
}

abbrev pub world : Externals
world = record {
  is_uuid = λ id. true;
  is_trusted = λ id. some true;
  shared_key = λ id. some "key";
  parse_int = λ text. some (pos 1);
  marshal = λ offer. some offer.filename;
  sha256_hex = λ text. text;
  hmac = λ key text. key <> text;
  encode64 = λ text. text;
  decode64 = λ text. some text;
  parse_ip = λ text. some text;
  is_hex = λ text. true;
}

abbrev pub laptop : Device
laptop = record {
  id = "a1";
  name = "laptop";
  hostname = "laptop.local";
  type = "computer";
  platform = "linux";
  local_ip = "10.0.0.2";
  port = pos 8787;
  app_version = "1";
  last_seen = 5;
  is_online = true;
  connection_state = ConnectionState.online;
  available_storage = pos 0;
  transfer_capability = true;
  supported_protocol_version = pos 1;
  maximum_chunk_size = pos 4;
  compression_support = false;
  identity_hint = "";
  pairing_available = true;
}

abbrev pub offer : Offer
offer = record {
  transfer_id = "t1";
  device_id = "a1";
  device_name = "laptop";
  device_hostname = "";
  device_platform = "linux";
  session_token = sum;
  filename = "a.txt";
  size = pos 6;
  files = notes ∷ [];
  chunk_size = pos 4;
  compression = false;
  protocol_version = pos 1;
}

abbrev pub no_tables : Tables
no_tables = record {
  transfers = [];
  files = [];
  chunks = [];
  queued_transfers = [];
  transfer_history = [];
  failed_transfers = [];
  paused_transfers = [];
}

abbrev pub env : Env
env = record { now = 2_000_000_000; get_fails = false; save_fails = false }

abbrev pub incoming : Transfer
incoming = offered world unix 2_000_000_000 "10.0.0.2" laptop offer

abbrev pub bytes : Contents
bytes = record {
  checksum_bytes = λ contents. sum;
  gunzip = λ contents. none;
  rate = λ progress nanoseconds. progress;
  data_directory = "data";
}

abbrev pub half : Transfer
half = record incoming { status = receiving; approved = true }

abbrev pub store : Service
store = record {
  tables = record no_tables {
    transfers = ("t1", record half { files = [] }) ∷ [];
    files = (("t1", "f1"), record notes { destination_path = "d" }) ∷ [];
  };
  published = [];
}
