-- ===== src/Ble/Nimble/Frame.antt =====
-- What the outgoing pump of ble/nimble.rs leaves alone.
use esp_idf_matter.Base.{
  ℕ, true, false, Option, List, [], ◌∷◌, ◌≡◌, take, Result, ok, err, panic, continue, arith,
}
use esp_idf_matter.Error.{ErrorCode}
use esp_idf_matter.Ble.Btp.{Btp}
use esp_idf_matter.Ble.Nimble.State.{Connection, Context, Sys}
use esp_idf_matter.Ble.Nimble.Platform.{Completion, Platform}
use esp_idf_matter.Ble.Nimble.Hooks.{note_completion}
use esp_idf_matter.Ble.Nimble.Pumps.{
  readvertise, complete, send_packet, send_nonempty, sync_btp, fetch_packet, outgoing_session,
  outgoing_conn, outgoing_from, process_outgoing,
}

module _ {W : Type 0} (p : Platform W) (btp : Btp W) where
  abbrev Frame : Sys W → Sys W → Type 0
  Frame s s' =
      (s'.ctx.need_advertise ≡ s.ctx.need_advertise)
      × (s'.ctx.in_data ≡ s.ctx.in_data)
      × (s'.ctx.connection ≡ s.ctx.connection)
      × (s'.ctx.notify_process_incoming ≡ s.ctx.notify_process_incoming)

  readvertise_done :
      (s : Sys W)
      → let s' = readvertise p s in
        (s'.ctx.need_advertise ≡ false)
        × (s'.ctx.in_data ≡ s.ctx.in_data)
        × (s'.ctx.connection ≡ s.ctx.connection)
        × (s'.ctx.notify_process_incoming ≡ s.ctx.notify_process_incoming)
  unfolding readvertise
  readvertise_done s = ground arith

  complete_frame :
      (ds : List Completion) (c : Context)
      → ((complete p ds c).state ≡ c.state)
        × ((complete p ds c).notify_process_incoming ≡ c.notify_process_incoming)
  unfolding complete
  complete_frame [] c = ground arith
  complete_frame (d ∷ ds) c = ground (arith, complete_frame ds (note_completion p d c))

  send_packet-Frame : (k len : ℕ) (s : Sys W) → Frame s (send_packet p btp k len s).1
  unfolding send_packet
  send_packet-Frame k len s = ground (
    arith,
    complete_frame (p.indicate k s.c2_val_handle (take len s.ctx.out_data) s.world).1.0
        (record s.ctx { out_nack = true }),
  )

  send_nonempty-Frame :
      (k : ℕ) (r : Result ErrorCode ℕ) (s : Sys W)
      → Frame s (continue r (send_nonempty p btp k) s).1
  unfolding send_nonempty
  send_nonempty-Frame k (ok len) s = ground (arith, send_packet-Frame k len s)
  send_nonempty-Frame k (err code) s = ground arith
  send_nonempty-Frame k panic s = ground arith

  fetch_packet-Frame : (size : Option ℕ) (s : Sys W) → Frame s (fetch_packet btp size s).1
  unfolding fetch_packet
  fetch_packet-Frame size s = ground arith

  outgoing_session-Frame :
      (conn : Connection) (s : Sys W) → Frame s (outgoing_session p btp conn s).1
  unfolding outgoing_session
  outgoing_session-Frame conn s =
      let fetched = fetch_packet btp conn.mtu s in
      ground (
        arith,
        fetch_packet-Frame conn.mtu s,
        send_nonempty-Frame conn.conn_handle fetched.0 fetched.1,
      )

  outgoing_from-Frame : (s : Sys W) → Frame s (outgoing_from p btp s).1
  unfolding outgoing_from outgoing_conn sync_btp
  outgoing_from-Frame s = grind (arith, outgoing_session-Frame)

  pub process_outgoing_done :
      (s : Sys W)
      → let s' = (process_outgoing p btp s).1 in
        (s'.ctx.need_advertise ≡ false)
        × (s'.ctx.in_data ≡ s.ctx.in_data)
        × (s'.ctx.connection ≡ s.ctx.connection)
        × (s'.ctx.notify_process_incoming ≡ s.ctx.notify_process_incoming)
  unfolding process_outgoing
  process_outgoing_done s =
      ground (arith, readvertise_done s, outgoing_from-Frame (readvertise p s))
