-- ===== src/Ble/Nimble/Hooks.antt =====
-- ble/nimble.rs: the event hooks that `subscribe_hooks` installs. The result of the GAP and GATT
-- server hooks is the code that NimBLE gets, 0 for success.
use esp_idf_matter.Base.{
  ℕ, Bool, true, false, not, ◌&&◌, ◌||◌, Option, none, some, List, [], ◌∷◌, take, resize, ◌==◌,
  if◌then◌else◌, Result, ok, err, panic, ok_or,
}
use esp_idf_matter.Ble.Btp.{max_mtu_size}
use esp_idf_matter.Ble.Nimble.State.{
  Connection, Context, Sys, signal_incoming, signal_outgoing, next_gen, on_ctx,
}
use esp_idf_matter.Ble.Nimble.Platform.{
  BleError, Completion, HostEvent, sync, GapEvent, connected, connect_failed, disconnect, mtu,
  GattsEvent, register_characteristic, register_other, write, read, subscription_changed,
  notify_complete, Platform,
}

abbrev pub is_empty : List ℕ → Bool
is_empty [] = true
is_empty (x ∷ xs) = false

-- `Result::ok`.
abbrev ok? {ℓ} : {E A : Type ℓ} → Result E A → Option A
ok? (ok a) = some a
ok? (err e) = none
ok? panic = none

-- Requests advertising and wakes the outgoing pump, which starts it.
unfoldable pub request_advertising : Context → Context
request_advertising c =
    signal_outgoing (record c { state = record c.state { need_advertise = true } })

unfoldable pub open_connection : ℕ → ℕ → Option ℕ → Context → Context
open_connection conn_handle peer size c = signal_incoming (record c {
  state = record c.state {
    conn_gen = next_gen c.conn_gen;
    in_data = [];
    out_data = [];
    connection =
        some (record { peer = peer; conn_handle = conn_handle; subscribed = false; mtu = size });
  };
  out_nack = false;
})

unfoldable pub close_connection : Context → Context
close_connection c = signal_outgoing (
    signal_incoming (record c {
      state = record c.state {
        connection = none;
        in_data = [];
        out_data = [];
        need_advertise = true;
      };
      out_nack = false;
    }))

-- A change of the connection with the given handle.
unfoldable pub update_connection :
    ℕ → (Connection → Connection) → Option Connection → Option Connection
update_connection conn_handle f none = none
update_connection conn_handle f (some conn) =
    if conn.conn_handle == conn_handle then some (f conn) else some conn

unfoldable pub note_mtu : ℕ → ℕ → Context → Context
unfolding update_connection
note_mtu conn_handle value c = record c {
  state = record c.state {
    connection =
        update_connection conn_handle (λ conn. record conn { mtu = some value }) c.connection;
  };
}

unfoldable pub note_subscription : ℕ → Bool → Context → Context
unfolding update_connection
note_subscription conn_handle cur_indicate c = signal_outgoing (record c {
  state = record c.state {
    connection =
        update_connection conn_handle (λ conn. record conn { subscribed = cur_indicate })
          c.connection;
  };
})

module _ {W : Type 0} (p : Platform W) where
  -- A completed indication lets the next one go out.
  unfoldable pub note_completion : Completion → Context → Context
  note_completion done c =
      if done.indication && ((done.status == p.hs_edone) || not (done.status == 0))
      then signal_outgoing (record c { out_nack = false })
      else c

  -- What `data.read` leaves in `in_data`, and whether the write is accepted.
  unfoldable pub ingest : Result BleError ℕ → List ℕ → Context → Context × Bool
  ingest (ok len) buffer c =
      (signal_incoming (record c { state = record c.state { in_data = take len buffer } }), true)
  ingest (err e) buffer c = (record c { state = record c.state { in_data = buffer } }, false)
  ingest panic buffer c = (record c { state = record c.state { in_data = buffer } }, false)

  unfoldable pub note_write : List ℕ → Context → Context × Bool
  unfolding ingest
  note_write payload c =
      if not (is_empty c.in_data)
      then (c, false)
      else (let (r, buffer) = p.read_data payload (resize max_mtu_size c.in_data) in
          ingest r buffer c)

  unfoldable pub host_hook : HostEvent → Sys W → Sys W
  unfolding request_advertising
  host_hook sync s = if s.published then on_ctx request_advertising s else s
  host_hook (HostEvent.other kind) s = s

  on_connected : ℕ → Sys W → Sys W
  unfolding open_connection
  on_connected conn_handle s =
      let (found, w) = p.conn_find conn_handle s.world in
      let (size, w') = p.att_mtu conn_handle w in
      record s { ctx = open_connection conn_handle (ok_or 0 found) (ok? size) s.ctx; world = w' }

  on_gap : GapEvent → Sys W → Sys W
  unfolding request_advertising close_connection note_mtu on_connected
  on_gap (connected conn_handle) s = on_connected conn_handle s
  on_gap (connect_failed conn_handle code) s = on_ctx request_advertising s
  on_gap (disconnect reason) s = on_ctx close_connection s
  on_gap (mtu conn_handle value) s = on_ctx (note_mtu conn_handle value) s
  on_gap (GapEvent.other kind) s = s

  -- The GAP hook, which always returns 0.
  unfoldable pub gap_hook : GapEvent → Sys W → ℕ × Sys W
  unfolding on_gap
  gap_hook e s = (0, if s.published then on_gap e s else s)

  on_gatts : GattsEvent → Sys W → ℕ × Sys W
  unfolding note_completion note_write note_subscription
  on_gatts (register_characteristic uuid val_handle) s =
      (0, if uuid == p.c2_uuid then record s { c2_val_handle = val_handle } else s)
  on_gatts (register_other kind) s = (0, s)
  on_gatts (write payload) s =
      let (c, accepted) = note_write payload s.ctx in
      (if accepted then 0 else p.att_err_insufficient_res, record s { ctx = c })
  on_gatts (read attr) s = (0, s)
  on_gatts (subscription_changed conn_handle attr_handle cur_indicate) s = (
    0,
    if attr_handle == s.c2_val_handle
        then on_ctx (note_subscription conn_handle cur_indicate) s
        else s,
  )
  on_gatts (notify_complete done) s = (0, on_ctx (note_completion done) s)

  -- The GATT server hook.
  unfoldable pub gatts_hook : GattsEvent → Sys W → ℕ × Sys W
  unfolding on_gatts
  gatts_hook e s = if s.published then on_gatts e s else (0, s)
