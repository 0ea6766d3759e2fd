-- ===== src/Ble/Bluedroid/Platform.antt =====
-- What ble/bluedroid.rs calls of the GAP and GATT server drivers of `esp-idf-svc`, and the events
-- that these deliver: parameters of the model.
use esp_idf_matter.Base.{ℕ, Bool, Option, List, Exec}
use esp_idf_matter.Error.{EspError}

pub record GattCharacteristic : Type 0 where
  pub uuid : ℕ
  pub permissions : List ℕ
  pub properties : List ℕ
  pub max_len : ℕ
  pub auto_rsp : ℕ

pub record GattDescriptor : Type 0 where
  pub uuid : ℕ
  pub permissions : List ℕ

-- `BtStatus` and `GattStatus`: success, or a code.
pub data Status : Type 0 where
  success : Status
  failed : ℕ → Status

pub record Platform (W R : Type 0) : Type 0 where
  pub esp_fail : EspError
  pub uuid16 : ℕ → ℕ
  pub uuid128 : ℕ → ℕ
  pub matter_ble_service_uuid16 : ℕ
  pub c1_characteristic_uuid : ℕ
  pub c2_characteristic_uuid : ℕ
  pub c1_max_len : ℕ
  pub c2_max_len : ℕ
  pub permission_read : ℕ
  pub permission_write : ℕ
  pub property_write : ℕ
  pub property_indicate : ℕ
  pub auto_response_by_app : ℕ
  -- The builder calls `attr_handle`, `auth_req`, `offset` and `value` of a `GattResponse`.
  pub fill_response : ℕ → ℕ → ℕ → List ℕ → Exec (Unit {0}) R (Unit {0})
  pub set_device_name : List ℕ → Exec EspError W (Unit {0})
  pub set_raw_adv_conf : List ℕ → Exec EspError W (Unit {0})
  pub start_advertising : Exec EspError W (Unit {0})
  pub stop_advertising : Exec EspError W (Unit {0})
  pub set_conn_params_conf : ℕ → ℕ → ℕ → ℕ → ℕ → Exec EspError W (Unit {0})
  -- The GATT interface, the UUID, the instance, whether primary, and the number of handles.
  pub create_service : ℕ → ℕ → ℕ → Bool → ℕ → Exec EspError W (Unit {0})
  pub start_service : ℕ → Exec EspError W (Unit {0})
  pub add_characteristic : ℕ → GattCharacteristic → Exec EspError W (Unit {0})
  pub add_descriptor : ℕ → GattDescriptor → Exec EspError W (Unit {0})
  -- The GATT interface, the connection, the attribute, and the data.
  pub indicate : ℕ → ℕ → ℕ → List ℕ → Exec EspError W (Unit {0})
  -- The GATT interface, the connection, the transaction, the status, and the response.
  pub send_response : ℕ → ℕ → ℕ → Status → Option R → Exec EspError W (Unit {0})

pub data GapEvent : Type 0 where
  raw_advertising_configured : Status → GapEvent
  other : ℕ → GapEvent

-- The fields of a `GattsEvent::Write`.
pub record WriteRequest : Type 0 where
  pub conn_id : ℕ
  pub trans_id : ℕ
  pub addr : ℕ
  pub handle : ℕ
  pub offset : ℕ
  pub need_rsp : Bool
  pub is_prep : Bool
  pub value : List ℕ

pub data GattsEvent : Type 0 where
  service_registered : (status : Status) (app_id : ℕ) → GattsEvent
  service_created : (status : Status) (service_handle : ℕ) → GattsEvent
  characteristic_added : (status : Status) (attr_handle service_handle char_uuid : ℕ) → GattsEvent
  descriptor_added : (status : Status) (attr_handle service_handle descr_uuid : ℕ) → GattsEvent
  service_deleted : (status : Status) (service_handle : ℕ) → GattsEvent
  service_unregistered : (status : Status) (service_handle : ℕ) → GattsEvent
  mtu : (conn_id value : ℕ) → GattsEvent
  peer_connected : (conn_id addr : ℕ) → GattsEvent
  peer_disconnected : (addr : ℕ) → GattsEvent
  write : WriteRequest → GattsEvent
  confirm : (status : Status) → GattsEvent
  other : ℕ → GattsEvent
