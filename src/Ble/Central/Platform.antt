-- ===== src/Ble/Central/Platform.antt =====
-- What the central of ble/nimble.rs calls of the NimBLE driver of `esp-idf-svc` and of the BTP
-- engine, and the events that the driver delivers: parameters of the model.
use esp_idf_matter.Base.{ℕ, Bool, List, Exec}
use esp_idf_matter.Error.{EspError}
use esp_idf_matter.Ble.Nimble.Platform.{BleError}

pub data HostEvent : Type 0 where
  sync : HostEvent
  other : ℕ → HostEvent

pub data GapEvent : Type 0 where
  connected : (conn_handle : ℕ) → GapEvent
  connect_failed : (conn_handle code : ℕ) → GapEvent
  disconnect : (reason : ℕ) → GapEvent
  mtu : (conn_handle value : ℕ) → GapEvent
  other : ℕ → GapEvent

-- The end of a discovery is an event of its own. A notification carries the payload that
-- `data.read` copies out.
pub data GattcEvent : Type 0 where
  service : (uuid start_handle end_handle : ℕ) → GattcEvent
  services_end : GattcEvent
  characteristic : (uuid val_handle : ℕ) → GattcEvent
  characteristics_end : GattcEvent
  write_complete : (attr_handle status : ℕ) → GattcEvent
  notify : (attr_handle : ℕ) (payload : List ℕ) → GattcEvent
  read_complete : ℕ → GattcEvent

pub record Platform (W : Type 0) : Type 0 where
  pub svc_uuid : ℕ
  pub c1_uuid : ℕ
  pub c2_uuid : ℕ
  pub own_addr_public : ℕ
  pub start : Exec EspError W (Unit {0})
  pub ensure_addr : Bool → Exec BleError W (Unit {0})
  -- The own address's type, the peer address's type, and the peer's address.
  pub connect : ℕ → ℕ → ℕ → Exec BleError W (Unit {0})
  pub discover_services : ℕ → Exec BleError W (Unit {0})
  pub discover_characteristics : ℕ → ℕ → ℕ → Exec BleError W (Unit {0})
  -- The connection, the attribute and the data.
  pub write : ℕ → ℕ → List ℕ → Exec BleError W (Unit {0})
  -- Copies a payload into the buffer, and gives its length.
  pub read_data : List ℕ → Exec BleError (List ℕ) ℕ
  -- `Btp::set_initiator`.
  pub set_initiator : Bool → W → W
