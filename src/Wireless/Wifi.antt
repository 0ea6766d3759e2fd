-- ===== src/Wireless/Wifi.antt =====
-- wireless/wifi.rs, `EspMatterWifi`: its construction and its drivers. Their tasks, and the modem
-- with the other handles of esp-idf-svc, are parameters.
use esp_idf_matter.Base.{some, Exec, Result, ok, err, panic, ◌>>◌}
use esp_idf_matter.Error.{EspError, ErrorCode}
use esp_idf_matter.Wireless.Icd.{net}
use esp_idf_matter.Wireless.Gatt.{EspGatt, Outcome}

-- With `H` for the handles, `M` for the mDNS and `C` for the context of the peripheral.
pub record EspMatterWifi (H : Type 0) (M : Type 0) (C : Type 0) : Type 0 where
  pub handles : H
  pub mdns : M
  pub ble_context : C

module _ {H M C : Type 0} where
  unfoldable pub wrap : H → M → C → EspMatterWifi H M C
  wrap handles mdns ble_context = record {
    handles = handles;
    mdns = mdns;
    ble_context = ble_context;
  }

  -- Of a stack with its embedding.
  unfoldable pub new : {E : Type 0} → H → EspGatt C E → M → EspMatterWifi H M C
  unfolding wrap
  new handles embedding mdns = wrap handles mdns embedding.btp_gatt_context

  -- With the mDNS of `rs-matter`, `BuiltinMdns::new()`.
  unfoldable pub new_with_builtin_mdns : {E : Type 0} → M → H → EspGatt C E → EspMatterWifi H M C
  unfolding new
  new_with_builtin_mdns builtin handles embedding = new handles embedding builtin

-- `EspWifi::new` and `AsyncWifi::wrap`.
pub record Driver (W : Type 0) : Type 0 where
  pub esp_wifi_new : Exec EspError W (Unit {0})
  pub async_wifi_wrap : Exec EspError W (Unit {0})

module _ {W : Type 0} (driver : Driver W) where
  unfoldable pub bring_up : Exec ErrorCode W (Unit {0})
  bring_up = net driver.esp_wifi_new >> net driver.async_wifi_wrap

  unfoldable pub if_up : (W → Outcome × W) → Result ErrorCode (Unit {0}) × W → Outcome × W
  if_up task (ok x, w) = task w
  if_up task (err e, w) = (some (err e), w)
  if_up task (panic, w) = (some panic, w)

  -- `WifiDriver::run`.
  unfoldable pub run : (W → Outcome × W) → W → Outcome × W
  unfolding bring_up if_up
  run task w = if_up task (bring_up w)

  -- `WifiCoexDriver::run`. The peripheral is made once the Wifi driver is.
  unfoldable pub coex_run :
      {H M C P : Type 0}
      → (C → (P → W → Outcome × W) → W → Outcome × W)
      → EspMatterWifi H M C
      → (P → W → Outcome × W)
      → W
      → Outcome × W
  unfolding bring_up if_up
  coex_run with_peripheral wifi task w = if_up (with_peripheral wifi.ble_context task) (bring_up w)

-- `GattDriver::run`.
unfoldable pub gatt_run :
    {H M C P W : Type 0}
    → (C → (P → W → Outcome × W) → W → Outcome × W)
    → EspMatterWifi H M C
    → (P → W → Outcome × W)
    → W
    → Outcome × W
gatt_run with_peripheral wifi task = with_peripheral wifi.ble_context task
