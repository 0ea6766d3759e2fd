-- ===== src/Ble/Central/Hooks.antt =====
-- ble/nimble.rs, `central`: the event hooks that `subscribe_hooks` installs.
use esp_idf_matter.Base.{
  ℕ, ◌+◌, ◌%◌, Bool, true, false, Option, none, some, List, [], take, resize, ◌==◌, is_some_of,
  if◌then◌else◌, Result, ok, err, panic,
}
use esp_idf_matter.Ble.Btp.{max_mtu_size}
use esp_idf_matter.Ble.Nimble.Platform.{BleError}
use esp_idf_matter.Ble.Nimble.Hooks.{is_empty}
use esp_idf_matter.Ble.Central.State.{State, Context, Sys, on_state}
use esp_idf_matter.Ble.Central.Platform.{
  HostEvent, sync, GapEvent, connected, connect_failed, disconnect, mtu, GattcEvent, service,
  services_end, characteristic, characteristics_end, write_complete, notify, read_complete,
  Platform,
}

abbrev pub progress : Context → Context
progress c = record c { notify_progress = true }

-- The attribute handle of the CCCD, the one after the value; a `u16` wraps in a release build.
unfoldable pub cccd_of : ℕ → ℕ
cccd_of c2_val = (c2_val + 1) % 65536

abbrev pub is_cccd_of : Option ℕ → ℕ → Bool
is_cccd_of none attr_handle = false
is_cccd_of (some c2_val) attr_handle = cccd_of c2_val == attr_handle

unfoldable pub note_mtu : ℕ → ℕ → State → State
note_mtu conn_handle value s =
    if is_some_of s.conn_handle conn_handle then record s { mtu = some value } else s

unfoldable pub note_failure : Context → Context
note_failure c = record c {
  state = record c.state { failed = true };
  notify_progress = true;
  notify_in = true;
  notify_out = true;
}

unfoldable pub note_write_complete : ℕ → ℕ → Context → Context
unfolding cccd_of
note_write_complete attr_handle status c =
    if is_cccd_of c.c2_val attr_handle
    then progress (on_state (λ s. record s { subscribed = status == 0 }) c)
    else if is_some_of c.c1_val attr_handle
    then record (on_state (λ s. record s { out_inflight = false }) c) { notify_out = true }
    else c

-- What `data.read` leaves in `in_data`.
unfoldable pub received : Result BleError ℕ → List ℕ → List ℕ
received (ok len) buffer = take len buffer
received (err e) buffer = []
received panic buffer = []

module _ {W : Type 0} (p : Platform W) where
  unfoldable pub note_indication : ℕ → List ℕ → Context → Context
  unfolding received
  note_indication attr_handle payload c =
      if is_some_of c.c2_val attr_handle
      then record (if is_empty c.in_data
          then (let (r, buffer) = p.read_data payload (resize max_mtu_size c.in_data) in
              on_state (λ s. record s { in_data = received r buffer }) c)
          else c) { notify_in = true }
      else c

  unfoldable pub note_characteristic : ℕ → ℕ → State → State
  note_characteristic uuid val_handle s =
      if uuid == p.c1_uuid
      then record s { c1_val = some val_handle }
      else if uuid == p.c2_uuid
      then record s { c2_val = some val_handle }
      else s

  on_host : HostEvent → Context → Context
  on_host sync c = progress (on_state (λ s. record s { synced = true }) c)
  on_host (HostEvent.other kind) c = c

  on_gap : GapEvent → Context → Context
  unfolding note_failure note_mtu
  on_gap (connected conn_handle) c =
      progress (on_state (λ s. record s { conn_handle = some conn_handle }) c)
  on_gap (connect_failed conn_handle code) c =
      progress (on_state (λ s. record s { failed = true }) c)
  on_gap (disconnect reason) c = note_failure c
  on_gap (mtu conn_handle value) c = on_state (note_mtu conn_handle value) c
  on_gap (GapEvent.other kind) c = c

  on_gattc : GattcEvent → Context → Context
  unfolding note_characteristic note_write_complete note_indication
  on_gattc (service uuid start_handle end_handle) c =
      if uuid == p.svc_uuid
      then on_state (λ s. record s { matter_range = some (start_handle, end_handle) }) c
      else c
  on_gattc services_end c = progress (on_state (λ s. record s { services_done = true }) c)
  on_gattc (characteristic uuid val_handle) c = on_state (note_characteristic uuid val_handle) c
  on_gattc characteristics_end c = progress (on_state (λ s. record s { chars_done = true }) c)
  on_gattc (write_complete attr_handle status) c = note_write_complete attr_handle status c
  on_gattc (notify attr_handle payload) c = note_indication attr_handle payload c
  on_gattc (read_complete status) c = c

  abbrev hooked : (Context → Context) → Sys W → Sys W
  hooked f s = if s.published then record s { ctx = f s.ctx } else s

  unfoldable pub host_hook : HostEvent → Sys W → Sys W
  unfolding on_host
  host_hook e s = hooked (on_host e) s

  -- The hook always returns 0.
  unfoldable pub gap_hook : GapEvent → Sys W → Sys W
  unfolding on_gap
  gap_hook e s = hooked (on_gap e) s

  unfoldable pub gattc_hook : GattcEvent → Sys W → Sys W
  unfolding on_gattc
  gattc_hook e s = hooked (on_gattc e) s
