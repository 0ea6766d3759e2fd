-- ===== src/Wireless/Gatt.antt =====
-- wireless.rs, `EspGatt`, and the BLE peripheral that the drivers of wireless/ make for their tasks.
-- The context of the peripheral, the user's embedding and the Bluetooth driver are parameters.
use esp_idf_matter.Base.{ℕ, Option, some, Exec, Result, ok, err, panic}
use esp_idf_matter.Error.{EspError, ErrorCode}

pub record EspGatt (C : Type 0) (E : Type 0) : Type 0 where
  pub btp_gatt_context : C
  pub embedding : E

-- The constants of the context and of the embedding, and what their in-place initializers leave.
pub record Inits (C : Type 0) (E : Type 0) : Type 0 where
  pub context_new : C
  pub context_init : C
  pub embedding_init : E
  pub embedding_in_place : E

module _ {C E : Type 0} (i : Inits C E) where
  unfoldable pub new : EspGatt C E
  new = record { btp_gatt_context = i.context_new; embedding = i.embedding_init }

  unfoldable pub init : EspGatt C E
  init = record { btp_gatt_context = i.context_init; embedding = i.embedding_in_place }

-- `GATTS_APP_ID`.
abbrev pub gatts_app_id : ℕ
gatts_app_id = 0

-- The drivers of Bluetooth, with `C` for the context and `P` for a peripheral.
pub record Bt (C : Type 0) (P : Type 0) (W : Type 0) : Type 0 where
  -- `BtDriver::new`, for Bluedroid only.
  pub bt_driver : Exec EspError W (Unit {0})
  -- `EspBtpGattPeripheral::new` with Bluedroid and with NimBLE.
  pub bluedroid_peripheral : ℕ → C → Exec EspError W P
  pub nimble_peripheral : C → Exec EspError W P

abbrev pub Outcome : Type 0
Outcome = Option (Result ErrorCode (Unit {0}))

-- `unwrap`, and the task then.
unfoldable pub unwrapped :
    {A W : Type 0} → (A → W → Outcome × W) → Result EspError A × W → Outcome × W
unwrapped task (ok a, w) = task a w
unwrapped task (err e, w) = (some panic, w)
unwrapped task (panic, w) = (some panic, w)

module _ {C P W : Type 0} (bt : Bt C P W) where
  -- The peripheral with Bluedroid, given to the task.
  unfoldable pub with_bluedroid : C → (P → W → Outcome × W) → W → Outcome × W
  unfolding unwrapped
  with_bluedroid context task w =
      unwrapped (λ x w'. unwrapped task (bt.bluedroid_peripheral gatts_app_id context w'))
        (bt.bt_driver w)

  -- The same with NimBLE.
  unfoldable pub with_nimble : C → (P → W → Outcome × W) → W → Outcome × W
  unfolding unwrapped
  with_nimble context task w = unwrapped task (bt.nimble_peripheral context w)
