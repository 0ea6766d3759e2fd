-- ===== src/Thread/Ctl/Scan.antt =====
-- thread.rs, `EspMatterThreadCtl::scan`. What OpenThread finds comes by calls of the callback that the
-- scan is started with, while it is started and while the loop waits.
use esp_idf_matter.Base.{
  ℕ, zero, suc, ◌+◌, ◌*◌, ◌/◌, ◌%◌, ◌^◌, Bool, true, false, ◌&&◌, Option, none, some, List, [], ◌∷◌,
  ◌++◌, length, ltb, leb, ◌==◌, bytes_eq, if◌then◌else◌, Exec, Result, ok, err, panic, pure,
  map_err, ◌>>◌,
}
use esp_idf_matter.Error.{EspError, ErrorCode, NetCtlError, other, to_net_ctl_error}

-- `ActiveScanResult`: its slices, and its name unless that is not UTF-8. An `i8` is its bit pattern.
pub record ActiveScanResult : Type 0 where
  pub pan_id : ℕ
  pub extended_pan_id : List ℕ
  pub network_name : Option (List ℕ)
  pub channel : ℕ
  pub version : ℕ
  pub extended_address : List ℕ
  pub max_rssi : ℕ
  pub lqi : ℕ

pub record OwnedScanResult : Type 0 where
  pub pan_id : ℕ
  pub ext_pan_id : ℕ
  pub network_name : List ℕ
  pub channel : ℕ
  pub version : ℕ
  pub ext_addr : List ℕ
  pub rssi : ℕ
  pub lqi : ℕ

-- The scan of OpenThread. A call of the callback has an `ActiveScanResult`, or none at the end.
pub record ActiveScan (W : Type 0) : Type 0 where
  pub scan : W → Result EspError (Unit {0}) × (List (Option ActiveScanResult) × W)
  pub is_scan_in_progress : Exec EspError W Bool
  -- `Timer::after`, in milliseconds.
  pub after : ℕ → W → List (Option ActiveScanResult) × W

abbrev pub poll_scan_wait : ℕ
poll_scan_wait = 500

-- `u64::from_be_bytes` and `u64::to_be_bytes`.
abbrev pub from_be_bytes : ℕ → List ℕ → ℕ
from_be_bytes value [] = value
from_be_bytes value (b ∷ bytes) = from_be_bytes (value * 256 + b) bytes

abbrev pub to_be_bytes : ℕ → List ℕ
to_be_bytes v =
    v / 2 ^ 56 % 256
    ∷ v / 2 ^ 48 % 256
    ∷ v / 2 ^ 40 % 256
    ∷ v / 2 ^ 32 % 256
    ∷ v / 2 ^ 24 % 256
    ∷ v / 2 ^ 16 % 256
    ∷ v / 2 ^ 8 % 256
    ∷ v % 256
    ∷ []

-- "???"
abbrev pub no_name : List ℕ
no_name = 63 ∷ 63 ∷ 63 ∷ []

-- The name as a `String<16>`.
unfoldable pub name_of : Option (List ℕ) → List ℕ
name_of none = no_name
name_of (some name) = if leb (length name) 16 then name else no_name

unfoldable pub own : ActiveScanResult → OwnedScanResult
unfolding name_of
own result = record {
  pan_id = result.pan_id;
  ext_pan_id = from_be_bytes 0 result.extended_pan_id;
  network_name = name_of result.network_name;
  channel = result.channel;
  version = result.version;
  ext_addr = result.extended_address;
  rssi = result.max_rssi;
  lqi = result.lqi;
}

-- `OwnedScanResult::from`; the conversions to arrays panic on a wrong length.
unfoldable pub owned : {E : Type 0} → ActiveScanResult → Result E OwnedScanResult
owned result =
    if (length result.extended_pan_id == 8) && (length result.extended_address == 8)
    then ok (own result)
    else panic

module _ {E : Type 0} where
  abbrev pub push :
      Result E OwnedScanResult → List OwnedScanResult → Result E (List OwnedScanResult)
  push (ok result) results = ok (if ltb (length results) 5 then results ++ result ∷ [] else results)
  push (err e) results = err e
  push panic results = panic

  -- The calls of the callback; once it has panicked there is nothing more.
  unfoldable pub note_calls :
      List (Option ActiveScanResult) → List OwnedScanResult → Result E (List OwnedScanResult)
  unfolding owned
  note_calls [] results = ok results
  note_calls (none ∷ calls) results = note_calls calls results
  note_calls (some info ∷ calls) results = elim (push (owned info) results) [
    | ok results' ↦ note_calls calls results'
    | err e ↦ err e
    | panic ↦ panic
  ]

module _ {W : Type 0} (esp : ActiveScan W) where
  -- What a poll of `scan` means for its loop: no scan in progress or an error ends it, else it goes
  -- on.
  unfoldable pub after_poll :
      Result EspError Bool
      → List OwnedScanResult
      → W
      → Option (Result NetCtlError (List OwnedScanResult) × W)
      → Option (Result NetCtlError (List OwnedScanResult) × W)
  after_poll (ok true) results w later = later
  after_poll (ok false) results w later = some (ok results, w)
  after_poll (err e) results w later = some (err (to_net_ctl_error e), w)
  after_poll panic results w later = some (panic, w)

  -- The loop of `scan` over at most so many polls; `none` when it goes on after them.
  unfoldable pub poll_scan :
      ℕ
      → Result NetCtlError (List OwnedScanResult)
      → W
      → Option (Result NetCtlError (List OwnedScanResult) × W)
  unfolding note_calls after_poll
  poll_scan polls (err e) w = some (err e, w)
  poll_scan polls panic w = some (panic, w)
  poll_scan zero (ok results) w = none
  poll_scan (suc polls) (ok results) w =
      let (r, w') = esp.is_scan_in_progress w in
      let (calls, w2) = esp.after poll_scan_wait w' in
      let later = poll_scan polls (note_calls calls results) w2 in after_poll r results w' later

-- Whether the caller asked for the network of a result.
unfoldable pub is_wanted : Option (List ℕ) → OwnedScanResult → Bool
is_wanted none result = true
is_wanted (some network) result = bytes_eq (to_be_bytes result.ext_pan_id) network

-- A visitor's `NetworkScanInfo::Thread` has the fields of the result.
module _ {V : Type 0} (f : OwnedScanResult → Exec ErrorCode V (Unit {0})) where
  -- The loop over the results.
  unfoldable pub report : Option (List ℕ) → List OwnedScanResult → Exec ErrorCode V (Unit {0})
  unfolding is_wanted
  report network [] = pure tt
  report network (result ∷ results) =
      if is_wanted network result
      then f result >> report network results
      else report network results

module _ {W V : Type 0} (esp : ActiveScan W)
    (f : OwnedScanResult → Exec ErrorCode V (Unit {0})) where
  abbrev finish :
      Option (List ℕ)
      → Option (Result NetCtlError (List OwnedScanResult) × W)
      → V
      → Option (Result NetCtlError (Unit {0}) × (V × W))
  finish network none v = none
  finish network (some (ok results, w)) v =
      let (r, v') = report f network results v in some (map_err other r, (v', w))
  finish network (some (err e, w)) v = some (err e, (v, w))
  finish network (some (panic, w)) v = some (panic, (v, w))

  begin :
      ℕ
      → Option (List ℕ)
      → Result EspError (Unit {0})
      → List (Option ActiveScanResult)
      → V
      → W
      → Option (Result NetCtlError (Unit {0}) × (V × W))
  unfolding poll_scan report note_calls
  begin polls network (ok x) calls v w =
      finish network (poll_scan esp polls (note_calls calls []) w) v
  begin polls network (err e) calls v w = some (err (to_net_ctl_error e), (v, w))
  begin polls network panic calls v w = some (panic, (v, w))

  -- `scan` with at most so many polls; `none` when it polls still after them.
  unfoldable pub scan :
      ℕ → Option (List ℕ) → V → W → Option (Result NetCtlError (Unit {0}) × (V × W))
  unfolding begin
  scan polls network v w = let (r, (calls, w')) = esp.scan w in begin polls network r calls v w'
