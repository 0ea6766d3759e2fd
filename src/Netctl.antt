-- ===== src/Netctl.antt =====
-- What the network control of thread.rs and of wifi.rs have in common.
pub mod Flag
pub mod Visit
pub mod Wait
use esp_idf_matter.Base.{ℕ, Bool, true, false, List, Result, ok, err, panic}
use esp_idf_matter.Error.{
  NetCtlError, auth_failure, ip_bind_failed, other_connection_failure, other,
}

-- `WirelessCreds` of `rs-matter`.
pub data WirelessCreds : Type 0 where
  wifi : (ssid pass : List ℕ) → WirelessCreds
  thread : (dataset_tlv : List ℕ) → WirelessCreds

-- Whether the error, if any, is one of the layers below.
abbrev pub fails_as_other : {A : Type 0} → Result NetCtlError A → Bool
fails_as_other (ok x) = true
fails_as_other (err auth_failure) = false
fails_as_other (err ip_bind_failed) = false
fails_as_other (err other_connection_failure) = false
fails_as_other (err (other code)) = true
fails_as_other panic = true
