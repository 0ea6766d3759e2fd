-- ===== src/Ble/Bluedroid/Setup.antt =====
-- ble/bluedroid.rs: the creation of the peripheral, and `run` up to its pumps. The drivers of
-- `esp-idf-svc` are parameters.
use esp_idf_matter.Base.{ℕ, Exec, ◌>>◌, ◌≡◌, arith}
use esp_idf_matter.Error.{EspError, ErrorCode}
use esp_idf_matter.Ble.Bluedroid.State.{Sys, reset}
use esp_idf_matter.Ble.Bluedroid.Pumps.{esp}

pub record Drivers (W : Type 0) : Type 0 where
  -- `EspBleGap::new` and `EspGatts::new`.
  pub gap_new : Exec EspError W (Unit {0})
  pub gatts_new : Exec EspError W (Unit {0})
  -- From there on the events come to `on_gap_event` and `on_gatts_event`.
  pub gap_subscribe : Exec EspError W (Unit {0})
  pub gatts_subscribe : Exec EspError W (Unit {0})
  pub register_app : ℕ → Exec EspError W (Unit {0})

module _ {W R : Type 0} where
  -- `EspBtpGattPeripheral::new`; the reset does not fail.
  unfoldable pub new_peripheral : Sys W R → Sys W R
  unfolding reset
  new_peripheral s = record s { ctx = reset s.ctx }

module _ {W R : Type 0} (d : Drivers W) where
  unfoldable pub start_peripheral : ℕ → Exec ErrorCode (Sys W R) (Unit {0})
  start_peripheral app_id = do
    esp d.gap_new
    esp d.gatts_new
    esp d.gap_subscribe
    esp d.gatts_subscribe
    esp (d.register_app app_id)

  -- The set-up itself leaves the context alone, on every branch.
  start_peripheral_ctx : (app_id : ℕ) (s : Sys W R) → (start_peripheral app_id s).1.ctx ≡ s.ctx
  unfolding start_peripheral
  start_peripheral_ctx app_id s = ground arith
