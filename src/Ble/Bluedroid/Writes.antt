-- ===== src/Ble/Bluedroid/Writes.antt =====
-- What a write by the peer does in ble/bluedroid.rs: subscriptions on the CCCD of the indication
-- characteristic, and the way of a packet written to the write characteristic through the incoming
-- pump.
use mathlib.Core.Option.{get_or}
use esp_idf_matter.Base.{
  ℕ, ◌+◌, ◌*◌, ◌≤◌, ◌<◌, true, false, not, ◌&&◌, ◌||◌, none, some, [], ◌∷◌, ◌≡◌, ◌==◌, is_some_of,
  length, if◌then◌else◌, ok, arith, Bool, ◌≢◌, is_ok, Result,
}
use esp_idf_matter.Ble.Btp.{Btp, max_mtu_size}
use esp_idf_matter.Ble.Bluedroid.State.{Connection, Context, Sys}
use esp_idf_matter.Ble.Bluedroid.Platform.{Platform, WriteRequest, success}
use esp_idf_matter.Error.{EspError}
use esp_idf_matter.Ble.Bluedroid.Gatts.{handle_write}
use esp_idf_matter.Ble.Bluedroid.Pumps.{process_incoming}

-- What a write on the CCCD comes to, `changed` for whether it changed the subscription: the answer
-- to a peer that wants one, with the echo of a prepared write.
module _ {W R : Type 0} (p : Platform W R) where
  abbrev pub IsAnswered :
      ℕ → WriteRequest → Bool → Context R → Result EspError (Unit {0}) → W → W → Type 0
  IsAnswered gatt_if r changed c result w w' =
      let (filled, echo) = p.fill_response r.handle 0 r.offset r.value c.response in
      if not (changed && r.need_rsp)
      then (result ≡ ok tt) × (w' ≡ w)
      else if not r.is_prep
      then p.send_response gatt_if r.conn_id r.trans_id success none w ≡ (result, w')
      else if is_ok filled
      then p.send_response gatt_if r.conn_id r.trans_id success (some echo) w ≡ (result, w')
      else (w' ≡ w) × (result ≢ ok tt)

  -- A write of two bytes to the CCCD of the indication characteristic on the live connection leaves
  -- the peer subscribed exactly when the value is 2, changes nothing else of the connection, wakes
  -- the outgoing pump when it subscribes, and keeps the packet that waits. Where the subscription
  -- changed and the peer wants a response, one response is sent, to that transaction, with the
  -- result that the handler ends with, and with the echo of the value if the write is a prepared one;
  -- if the echo cannot be made, then none is sent and the handler fails. Otherwise nothing is sent.
  pub write_cccd_lem :
      (s : Sys W R) (conn : Connection) (r : WriteRequest) (gatt_if lo hi : ℕ)
      → s.ctx.connection ≡ some conn
      → conn.conn_id ≡ r.conn_id
      → s.ctx.c2_cccd_handle ≡ some r.handle
      → r.offset ≡ 0
      → r.value ≡ lo ∷ hi ∷ []
      → let on = lo + 256 * hi == 2 in
        let (result, s') = handle_write p gatt_if r s in
        (s'.ctx.connection ≡ some (record conn { subscribed = on }))
        × (s'.ctx.notify_process_outgoing
            ≡ (s.ctx.notify_process_outgoing || on && not conn.subscribed))
        × (s'.ctx.in_data ≡ s.ctx.in_data)
        × IsAnswered gatt_if r
            (on && not conn.subscribed || not on && conn.subscribed)
            s.ctx
            result
            s.world
            s'.world
  unfolding handle_write
  write_cccd_lem s conn r gatt_if lo hi hc hi' hh ho hv = ground arith

-- The world after the reset of the BTP engine that the state calls for.
module _ {W R : Type 0} where
  abbrev pub session_world : Btp W → Sys W R → W
  session_world btp s =
      if is_some_of s.ctx.btp_gen s.ctx.conn_gen then s.world else btp.reset s.world

module _ {W R : Type 0} (p : Platform W R) (btp : Btp W) where
  -- A packet of 1 to 512 bytes that the peer of the live connection writes to the write
  -- characteristic calls nothing in the handler. If the BTP engine takes it and the response can be
  -- sent, then the next round of the incoming pump reports a packet, gives its bytes to the engine
  -- with the MTU and the peer of the connection, after a reset of the engine if the session is an
  -- earlier one, answers that very transaction, and leaves the buffer empty.
  pub write_c1-process_incoming :
      (s : Sys W R) (conn : Connection) (r : WriteRequest) (gatt_if : ℕ) (w w' : W)
      → s.ctx.connection ≡ some conn
      → conn.conn_id ≡ r.conn_id
      → s.ctx.c1_handle ≡ some r.handle
      → is_some_of s.ctx.c2_cccd_handle r.handle ≡ false
      → r.offset ≡ 0
      → 0 < length r.value
      → length r.value ≤ max_mtu_size
      → btp.process_incoming conn.mtu conn.peer r.value (session_world btp s) ≡ (ok tt, w)
      → p.send_response (get_or s.ctx.gatt_if 0) conn.conn_id r.trans_id success none w
        ≡ (ok tt, w')
      → let written = (handle_write p gatt_if r s).1 in
        let (processed, s') = process_incoming p btp written in
        (written.world ≡ s.world) × (processed ≡ ok true) × (s'.world ≡ w') × (s'.ctx.in_data ≡ [])
  unfolding handle_write process_incoming
  write_c1-process_incoming s conn r gatt_if w w' hc hi hh hn ho hl hm given answered = ground arith
