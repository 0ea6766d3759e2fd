-- ===== src/Ble/Central/Pumps.antt =====
-- ble/nimble.rs, `central`: one round of each pump, up to the point where it waits for its signal.
use esp_idf_matter.Base.{
  ℕ, Bool, true, false, [], length, take, resize, leb, ◌==◌, if◌then◌else◌, Exec, ok, err, panic,
  pure, map_err, ◌>>=◌, ◌>>◌,
}
use esp_idf_matter.Error.{ErrorCode, no_network_interface}
use esp_idf_matter.Ble.Btp.{Btp, max_mtu_size}
use esp_idf_matter.Ble.Nimble.Platform.{BleError}
use esp_idf_matter.Ble.Nimble.Hooks.{is_empty}
use esp_idf_matter.Ble.Nimble.Pumps.{to_matter_err_ble}
use esp_idf_matter.Ble.Central.State.{State, Sys, on_state}
use esp_idf_matter.Ble.Central.Platform.{Platform}

abbrev pub Task : Type 0 → Type 0 → Type 0
Task W A = Exec ErrorCode (Sys W) A

module _ {W : Type 0} where
  abbrev pub ble : Exec BleError W (Unit {0}) → Task W (Unit {0})
  ble m s = let (r, w) = m s.world in (map_err to_matter_err_ble r, record s { world = w })

  abbrev pub change : (State → State) → Task W (Unit {0})
  change f s = (ok tt, record s { ctx = on_state f s.ctx })

module _ {W : Type 0} (btp : Btp W) where
  unfoldable pub deliver : Task W Bool
  deliver s =
      (do
        (λ t.
            let (r, w) = btp.process_incoming s.ctx.mtu s.ctx.peer s.ctx.in_data t.world in
            (r, record t { world = w }))
        change (λ st. record st { in_data = [] })
        pure true)
        s

  -- A round of `process_incoming`: whether a packet was processed.
  unfoldable pub process_incoming : Task W Bool
  unfolding deliver
  process_incoming s =
      if s.ctx.failed
      then (err no_network_interface, s)
      else if is_empty s.ctx.in_data
      then (ok false, s)
      else deliver s

  -- Fills `out_data` from the BTP engine; the result is the packet's length.
  unfoldable pub fetch_packet : Task W ℕ
  fetch_packet s =
      let buffer = resize max_mtu_size s.ctx.out_data in
      let (r, (buffer', w)) = btp.process_outgoing s.ctx.mtu (buffer, s.world) in
      (r, record s { ctx = on_state (λ st. record st { out_data = buffer' }) s.ctx; world = w })

module _ {W : Type 0} (p : Platform W) (btp : Btp W) (conn c1_val : ℕ) where
  unfoldable pub send_packet : ℕ → Task W Bool
  send_packet len s =
      if leb len (length s.ctx.out_data)
      then (do
        ble (p.write conn c1_val (take len s.ctx.out_data))
        change (λ st. record st { out_inflight = true })
        pure true)
          s
      else (panic, s)

  unfoldable pub send_nonempty : ℕ → Task W Bool
  unfolding send_packet
  send_nonempty len = if len == 0 then pure false else send_packet len

  -- A round of `process_outgoing`: whether a packet was written.
  unfoldable pub process_outgoing : Task W Bool
  unfolding fetch_packet send_nonempty
  process_outgoing s =
      if s.ctx.failed
      then (err no_network_interface, s)
      else if s.ctx.out_inflight
      then (ok false, s)
      else (fetch_packet btp >>= send_nonempty) s
