-- ===== src/Ble/Nimble/Pumps.antt =====
-- ble/nimble.rs: `run` up to its pumps, one round of each pump, and `advertise`.
use esp_idf_matter.Base.{
  ℕ, Bool, true, false, Option, none, some, List, [], ◌∷◌, length, take, resize, leb, ◌==◌,
  is_some_of, if◌then◌else◌, Exec, Result, ok, err, panic, pure, modify, map_err, ◌>>=◌, ◌>>◌,
}
use esp_idf_matter.Error.{EspError, ErrorCode, no_network_interface, no_space}
use esp_idf_matter.Ble.Btp.{Btp, max_mtu_size}
use esp_idf_matter.Ble.Nimble.State.{Connection, Context, Sys, on_ctx, on_state, call}
use esp_idf_matter.Ble.Nimble.Platform.{BleError, Completion, Platform}
use esp_idf_matter.Ble.Nimble.Hooks.{is_empty, note_completion}

unfoldable pub to_matter_err : EspError → ErrorCode
to_matter_err e = no_network_interface

unfoldable pub to_matter_err_ble : BleError → ErrorCode
to_matter_err_ble e = no_network_interface

abbrev pub max_adv_data_size : ℕ
max_adv_data_size = 32

abbrev pub Pump : Type 0 → Type 0 → Type 0
Pump W A = Exec ErrorCode (Sys W) A

module _ {W : Type 0} where
  abbrev pub ble : Exec BleError W (Unit {0}) → Pump W (Unit {0})
  ble m s = let (r, w) = m s.world in (map_err to_matter_err_ble r, record s { world = w })

  -- The copy of the advertising data, byte by byte until the buffer is full.
  unfoldable pub store_adv_data : List ℕ → Pump W (Unit {0})
  store_adv_data bytes s = (
    if leb (length bytes) max_adv_data_size then ok tt else err no_space,
    on_state (λ st. record st { adv_data = take max_adv_data_size bytes }) s,
  )

  -- The end of the send: a failure clears `out_nack`.
  unfoldable pub conclude : Result BleError (Unit {0}) → Pump W Bool
  conclude (ok u) s = (ok true, s)
  conclude (err e) s = (err (to_matter_err_ble e), on_ctx (λ c. record c { out_nack = false }) s)
  conclude panic s = (panic, s)

  -- `EspBtpGattPeripheral`'s drop.
  unfoldable pub drop_peripheral : Sys W → Sys W
  drop_peripheral s = record s { published = false }

module _ {W : Type 0} (p : Platform W) where
  -- `run` up to the start of the pumps. The hooks stay installed until the driver is dropped.
  unfoldable pub start_peripheral : List ℕ → List ℕ → Pump W (Unit {0})
  unfolding store_adv_data
  start_peripheral service_name service_adv_data = do
    store_adv_data service_adv_data
    modify (λ s. record s { published = true })
    ble (p.set_device_name service_name)
    (λ s. let (r, w) = p.start s.world in (map_err to_matter_err r, record s { world = w }))

  unfoldable pub advertise : Pump W (Unit {0})
  advertise = do
    ble (p.ensure_addr false)
    (λ s. ble (p.adv_set_data s.ctx.adv_data) s)
    ble (p.adv_start p.own_addr_public p.conn_mode_und p.disc_mode_gen)

  -- A failure to advertise is logged.
  unfoldable pub readvertise : Sys W → Sys W
  unfolding advertise
  readvertise s =
      let s' = on_state (λ st. record st { need_advertise = false }) s in
      if s.ctx.need_advertise then (advertise s').1 else s'

  -- The completions delivered from within `indicate`, in order.
  unfoldable pub complete : List Completion → Context → Context
  unfolding note_completion
  complete [] c = c
  complete (done ∷ rest) c = complete rest (note_completion p done c)

module _ {W : Type 0} (btp : Btp W) where
  -- Resets the BTP session if it still belongs to a previous BLE connection.
  unfoldable pub sync_btp : Sys W → Sys W
  sync_btp s =
      if is_some_of s.ctx.btp_gen s.ctx.conn_gen
      then s
      else record (on_state (λ st. record st { btp_gen = some st.conn_gen }) s) {
        world = btp.reset s.world;
      }

  unfoldable pub deliver : Connection → List ℕ → Pump W Bool
  deliver conn bytes = do
    call (btp.process_incoming conn.mtu conn.peer bytes)
    modify (on_state (λ st. record st { in_data = [] }))
    pure true

  incoming_session : Connection → Pump W Bool
  unfolding deliver
  incoming_session conn s =
      if is_empty s.ctx.in_data then (ok false, s) else deliver conn s.ctx.in_data s

  -- A round of `process_incoming`: whether a packet was processed.
  unfoldable pub process_incoming : Pump W Bool
  unfolding sync_btp incoming_session
  process_incoming s = elim s.ctx.connection [
    | none ↦ (ok false, s)
    | some conn ↦ incoming_session conn (sync_btp s)
  ]

  -- Fills `out_data` from the BTP engine; the result is the packet's length.
  unfoldable pub fetch_packet : Option ℕ → Pump W ℕ
  fetch_packet mtu s =
      let buffer = resize max_mtu_size s.ctx.out_data in
      let (r, (buffer', w)) = btp.process_outgoing mtu (buffer, s.world) in
      (r, record (on_state (λ st. record st { out_data = buffer' }) s) { world = w })

module _ {W : Type 0} (p : Platform W) (btp : Btp W) where
  -- `out_nack` is set first, so that a completion from within `indicate` clears it.
  unfoldable pub send_packet : ℕ → ℕ → Pump W Bool
  unfolding complete conclude
  send_packet conn_handle len s =
      if leb len (length s.ctx.out_data)
      then (let (r, (completions, w)) =
            p.indicate conn_handle s.c2_val_handle (take len s.ctx.out_data) s.world in
          conclude r (record s {
            ctx = complete p completions (record s.ctx { out_nack = true });
            world = w;
          }))
      else (panic, record s { ctx = record s.ctx { out_nack = true } })

  unfoldable pub send_nonempty : ℕ → ℕ → Pump W Bool
  send_nonempty conn_handle len = if len == 0 then pure false else send_packet conn_handle len

  unfoldable pub outgoing_session : Connection → Pump W Bool
  outgoing_session conn s =
      if s.ctx.out_nack
      then (ok false, s)
      else if s.c2_val_handle == 0
      then (ok false, s)
      else (do len ← fetch_packet btp conn.mtu; send_nonempty conn.conn_handle len) s

  unfoldable pub outgoing_conn : Connection → Pump W Bool
  outgoing_conn conn s =
      if conn.subscribed then outgoing_session conn (sync_btp btp s) else (ok false, s)

  unfoldable pub outgoing_from : Pump W Bool
  outgoing_from s = elim s.ctx.connection [
    | none ↦ (ok false, s)
    | some conn ↦ outgoing_conn conn s
  ]

  -- A round of `process_outgoing`: whether a packet was indicated.
  unfoldable pub process_outgoing : Pump W Bool
  process_outgoing s = outgoing_from (readvertise p s)
