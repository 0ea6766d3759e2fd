-- ===== src/Netctl/Flag.antt =====
-- The operational flag of `EspMatterThreadCtl` in thread.rs and `EspMatterWifiCtl` in wifi.rs, and the
-- wait for a change, which both write alike, over the query `fetch_is_operational` and the wait for
-- an IP event.
use esp_idf_matter.Base.{
  ℕ, zero, suc, Bool, true, false, not, Option, none, some, if◌then◌else◌, Exec, Result, ok, err,
  panic, unwrap_or,
}
use esp_idf_matter.Error.{EspError}

pub record Ctl (W : Type 0) : Type 0 where
  pub operational : Bool
  pub world : W

module _ {W : Type 0} where
  -- What a query of `wait_changed` leaves: whether the flag changed.
  unfoldable pub note_operational : Result EspError Bool → Exec EspError (Ctl W) Bool
  note_operational (ok new_operational) s =
      if (if s.operational then not new_operational else new_operational)
      then (ok true, record s { operational = new_operational })
      else (ok false, s)
  note_operational (err e) s = (err e, s)
  note_operational panic s = (panic, s)

  unfoldable pub after_fetch :
      Result EspError Bool
      → Ctl W
      → Option (Result EspError (Unit {0}) × Ctl W)
      → Option (Result EspError (Unit {0}) × Ctl W)
  after_fetch (ok true) s later = some (ok tt, s)
  after_fetch (ok false) s later = later
  after_fetch (err e) s later = some (err e, s)
  after_fetch panic s later = some (panic, s)

  -- `WirelessDiag::connected`.
  unfoldable pub connected : Ctl W → Bool
  connected s = s.operational

module _ {W : Type 0} (fetch : Exec EspError W Bool) (wait : W → W) where
  unfoldable pub fetch_operational : Exec EspError (Ctl W) Bool
  unfolding note_operational
  fetch_operational s =
      let (r, w) = fetch s.world in note_operational (unwrap_or false r) (record s { world = w })

  -- `wait_changed` over at most so many queries; `none` when it waits still after them.
  unfoldable pub wait_changed : ℕ → Ctl W → Option (Result EspError (Unit {0}) × Ctl W)
  unfolding after_fetch
  wait_changed zero s = none
  wait_changed (suc rounds) s =
      let (r, s') = fetch_operational s in
      let later = wait_changed rounds (record s' { world = wait s'.world }) in
      after_fetch r s' later
