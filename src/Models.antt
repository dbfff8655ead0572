-- ===== src/Models.antt =====
-- backend/internal/models: the device record and discovery events that every component shares,
-- and the identity of backend/internal/services that the services keep in memory.
-- A `time.Time` is a number of nanoseconds since 1970; 0 stands for Go's zero time.
use sync_space.Base.{ℕ, String, Bool, List}
use sync_space.Base.Int.{ℤ}

pub data ConnectionState : Type 0 where
  online offline : ConnectionState

pub record Device : Type 0 where
  pub id : String
  pub name : String
  pub hostname : String
  pub type : String
  pub platform : String
  pub local_ip : String
  pub port : ℤ
  pub app_version : String
  pub last_seen : ℕ
  pub is_online : Bool
  pub connection_state : ConnectionState
  pub available_storage : ℤ
  pub transfer_capability : Bool
  pub supported_protocol_version : ℤ
  pub maximum_chunk_size : ℤ
  pub compression_support : Bool
  pub identity_hint : String
  pub pairing_available : Bool

pub data DiscoveryEventType : Type 0 where
  device_discovered device_updated device_offline device_removed : DiscoveryEventType

pub record DiscoveryEvent : Type 0 where
  pub type : DiscoveryEventType
  pub device : Device
  pub timestamp : ℕ

-- `services.Identity`, with the fields that discovery, pairing and transfers read.
pub record Identity : Type 0 where
  pub id : String
  pub name : String
  pub hostname : String
  pub platform : String
  pub public_key : String
  pub private_key : List ℕ
