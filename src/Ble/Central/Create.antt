-- ===== src/Ble/Central/Create.antt =====
-- ble/nimble.rs, `central`: the creation of the client. The driver of `esp-idf-svc` is a parameter.
use esp_idf_matter.Base.{Exec}
use esp_idf_matter.Error.{EspError}
use esp_idf_matter.Ble.Central.State.{Sys, reset}

module _ {W : Type 0} (ble_driver_new : Exec EspError W (Unit {0})) where
  -- `EspBtpGattClient::new`; the reset does not fail.
  unfoldable pub new_client : Exec EspError (Sys W) (Unit {0})
  unfolding reset
  new_client s =
      let (r, w) = ble_driver_new s.world in (r, record s { ctx = reset s.ctx; world = w })
