-- ===== src/Wireless/Coex.antt =====
-- wireless/thread.rs, `EspMatterThread`: its construction, and its drivers that have the BLE
-- peripheral, alone and beside Thread. Their tasks, and the modem with the other handles of
-- esp-idf-svc, are parameters. A panic unwinds.
use esp_idf_matter.Base.{Option, none, some, List, ℕ}
use esp_idf_matter.Wireless.Icd.{IcdNetParams}
use esp_idf_matter.Wireless.Driver.{Driver, run}
use esp_idf_matter.Wireless.Gatt.{EspGatt, Outcome}

-- With `H` for the handles, `C` for the context of the peripheral and `I` for the ICD state.
pub record EspMatterThread (H : Type 0) (C : Type 0) (I : Type 0) : Type 0 where
  pub handles : H
  pub ble_context : C
  pub srp_host_eui64 : Option (List ℕ)
  pub icd : Option I

module _ {H C I : Type 0} where
  unfoldable pub wrap : H → C → EspMatterThread H C I
  wrap handles ble_context = record {
    handles = handles;
    ble_context = ble_context;
    srp_host_eui64 = none;
    icd = none;
  }

  -- Of a stack with its embedding.
  unfoldable pub new : {E : Type 0} → H → EspGatt C E → EspMatterThread H C I
  unfolding wrap
  new handles embedding = wrap handles embedding.btp_gatt_context

  unfoldable pub with_srp_host_eui64 : List ℕ → EspMatterThread H C I → EspMatterThread H C I
  with_srp_host_eui64 eui64 thread = record thread { srp_host_eui64 = some eui64 }

  unfoldable pub with_icd : I → EspMatterThread H C I → EspMatterThread H C I
  with_icd icd thread = record thread { icd = some icd }

module _ {H C I P W : Type 0} (with_peripheral : C → (P → W → Outcome × W) → W → Outcome × W) where
  -- `GattDriver::run`.
  unfoldable pub gatt_run : EspMatterThread H C I → (P → W → Outcome × W) → W → Outcome × W
  gatt_run thread task = with_peripheral thread.ble_context task

module _ {H C P W : Type 0} (esp : Driver W)
    (with_peripheral : C → (P → W → Outcome × W) → W → Outcome × W) where
  -- `ThreadCoexDriver::run`. The peripheral is made once Thread is up, with the guard in place.
  unfoldable pub coex_run :
      EspMatterThread H C IcdNetParams → (P → W → Outcome × W) → W → Outcome × W
  coex_run thread task = run esp thread.icd (with_peripheral thread.ble_context task)
