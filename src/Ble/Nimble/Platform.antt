-- ===== src/Ble/Nimble/Platform.antt =====
-- What ble/nimble.rs calls of the NimBLE driver of `esp-idf-svc`, and the events that it delivers:
-- parameters of the model.
use esp_idf_matter.Base.{ℕ, Bool, List, Exec, Result}
use esp_idf_matter.Error.{EspError}

-- A `BleError`, as its bit pattern.
abbrev pub BleError : Type 0
BleError = ℕ

-- The fields of a `GattsEvent::NotifyComplete`.
pub record Completion : Type 0 where
  pub indication : Bool
  pub status : ℕ

pub data HostEvent : Type 0 where
  sync : HostEvent
  other : ℕ → HostEvent

pub data GapEvent : Type 0 where
  connected : (conn_handle : ℕ) → GapEvent
  connect_failed : (conn_handle code : ℕ) → GapEvent
  disconnect : (reason : ℕ) → GapEvent
  mtu : (conn_handle value : ℕ) → GapEvent
  other : ℕ → GapEvent

-- A `Write` carries the payload that `data.read` copies out.
pub data GattsEvent : Type 0 where
  register_characteristic : (uuid val_handle : ℕ) → GattsEvent
  register_other : ℕ → GattsEvent
  write : (payload : List ℕ) → GattsEvent
  read : ℕ → GattsEvent
  subscription_changed : (conn_handle attr_handle : ℕ) (cur_indicate : Bool) → GattsEvent
  notify_complete : Completion → GattsEvent

pub record Platform (W : Type 0) : Type 0 where
  pub c2_uuid : ℕ
  pub att_err_insufficient_res : ℕ
  pub hs_edone : ℕ
  pub conn_mode_und : ℕ
  pub disc_mode_gen : ℕ
  pub own_addr_public : ℕ
  pub set_device_name : List ℕ → Exec BleError W (Unit {0})
  pub start : Exec EspError W (Unit {0})
  pub ensure_addr : Bool → Exec BleError W (Unit {0})
  pub adv_set_data : List ℕ → Exec BleError W (Unit {0})
  -- The own address's type, the connection mode and the discovery mode.
  pub adv_start : ℕ → ℕ → ℕ → Exec BleError W (Unit {0})
  pub conn_find : ℕ → Exec BleError W ℕ
  pub att_mtu : ℕ → Exec BleError W ℕ
  -- Copies a payload into the buffer, and gives its length.
  pub read_data : List ℕ → Exec BleError (List ℕ) ℕ
  -- The connection, the attribute and the data. Also the completions that NimBLE delivers before
  -- the call returns.
  pub indicate : ℕ → ℕ → List ℕ → W → Result BleError (Unit {0}) × (List Completion × W)
