-- ===== src/Ble/Bluedroid/Pumps.antt =====
-- ble/bluedroid.rs: the two pumps, which carry packets between the peer and the BTP engine. Each
-- definition is one round of a pump's loop, up to the point where it waits for its signal.
use esp_idf_matter.Base.{
  ℕ, Bool, true, false, Option, none, some, List, [], ◌∷◌, length, take, resize, leb, ltb,
  is_some_of, if◌then◌else◌, Exec, ok, panic, pure, map_err, ◌>>=◌, ◌>>◌,
}
use mathlib.Core.Option.{get_or}
use esp_idf_matter.Error.{EspError, ErrorCode, btp_error}
use esp_idf_matter.Ble.Btp.{Btp, max_mtu_size}
use esp_idf_matter.Ble.Bluedroid.State.{Connection, State, Sys, call}
use esp_idf_matter.Ble.Bluedroid.Platform.{success, Platform}

unfoldable pub to_matter_err : EspError → ErrorCode
to_matter_err e = btp_error

abbrev pub is_empty : List ℕ → Bool
is_empty [] = true
is_empty (x ∷ xs) = false

abbrev pub Pump : Type 0 → Type 0 → Type 0 → Type 0
Pump W R A = Exec ErrorCode (Sys W R) A

module _ {W R : Type 0} where
  abbrev pub esp : Exec EspError W (Unit {0}) → Pump W R (Unit {0})
  esp m s = let (r, w) = m s.world in (map_err to_matter_err r, record s { world = w })

  abbrev pub set_state : (State R → State R) → Pump W R (Unit {0})
  set_state f s = (ok tt, record s { ctx = record s.ctx { state = f s.ctx.state } })

module _ {W R : Type 0} (btp : Btp W) where
  -- Resets the BTP session if it still belongs to a previous BLE connection.
  unfoldable pub sync_btp : Sys W R → Sys W R
  sync_btp s = if is_some_of s.ctx.btp_gen s.ctx.conn_gen then s else record {
    ctx = record s.ctx { state = record s.ctx.state { btp_gen = some s.ctx.conn_gen } };
    world = btp.reset s.world;
  }

  -- Fills `out_data` from the BTP engine; the result is the packet's length.
  unfoldable pub fetch_packet : Option ℕ → Pump W R ℕ
  fetch_packet mtu s =
      let buffer = resize max_mtu_size s.ctx.out_data in
      let (r, (buffer', w)) = btp.process_outgoing mtu (buffer, s.world) in
      (
        r,
        record {
          ctx = record s.ctx { state = record s.ctx.state { out_data = buffer' } };
          world = w;
        },
      )

module _ {W R : Type 0} (p : Platform W R) (btp : Btp W) where
  -- Hands the packet in `in_data` to the BTP engine, and responds to the write that brought it.
  unfoldable pub deliver : Connection → List ℕ → Pump W R Bool
  deliver conn bytes = do
    call (btp.process_incoming conn.mtu conn.peer bytes)
    (λ s. esp (p.send_response (get_or s.ctx.gatt_if 0) conn.conn_id s.ctx.in_trans success none) s)
    set_state (λ s. record s { in_data = [] })
    pure true

  incoming_session : Connection → Pump W R Bool
  unfolding deliver
  incoming_session conn s =
      if is_empty s.ctx.in_data then (ok false, s) else deliver conn s.ctx.in_data s

  -- A round of `process_incoming`: whether a packet was processed.
  unfoldable pub process_incoming : Pump W R Bool
  unfolding sync_btp incoming_session
  process_incoming s = elim s.ctx.connection [
    | none ↦ (ok false, s)
    | some conn ↦ incoming_session conn (sync_btp btp s)
  ]

  -- `&state.out_data[..len]`, then the indication, then the mark that it is unacknowledged.
  unfoldable pub send_packet : ℕ → ℕ → ℕ → ℕ → Pump W R Bool
  send_packet gatt_if conn_id c2_handle len s =
      if leb len (length s.ctx.out_data)
      then (do
        esp (p.indicate gatt_if conn_id c2_handle (take len s.ctx.out_data))
        set_state (λ s. record s { out_nack = true })
        pure true)
          s
      else (panic, s)

  outgoing_session : ℕ → ℕ → Connection → Pump W R Bool
  unfolding fetch_packet send_packet
  outgoing_session gatt_if c2_handle conn s =
      if s.ctx.out_nack
      then (ok false, s)
      else (do
        len ← fetch_packet btp conn.mtu
        if ltb 0 len then send_packet gatt_if conn.conn_id c2_handle len else pure false)
          s

  outgoing_conn : ℕ → ℕ → Connection → Pump W R Bool
  unfolding sync_btp outgoing_session
  outgoing_conn gatt_if c2_handle conn s =
      if conn.subscribed
      then outgoing_session gatt_if c2_handle conn (sync_btp btp s)
      else (ok false, s)

  -- A round of `process_outgoing`: whether a packet was indicated.
  unfoldable pub process_outgoing : Pump W R Bool
  unfolding outgoing_conn
  process_outgoing s = elim s.ctx.gatt_if [
    | none ↦ (ok false, s)
    | some gatt_if ↦ elim s.ctx.c2_handle [
      | none ↦ (ok false, s)
      | some c2_handle ↦ elim s.ctx.connection [
        | none ↦ (ok false, s)
        | some conn ↦ outgoing_conn gatt_if c2_handle conn s
      ]
    ]
  ]
