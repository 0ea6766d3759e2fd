-- ===== src/Ble/Nimble/Writes.antt =====
-- The way of a packet written to the write characteristic in ble/nimble.rs, from the hook through
-- the incoming pump.
use esp_idf_matter.Base.{
  ℕ, true, false, some, List, [], ◌≡◌, is_some_of, take, resize, if◌then◌else◌, ok, err, arith,
}
use esp_idf_matter.Ble.Btp.{Btp, max_mtu_size}
use esp_idf_matter.Ble.Nimble.State.{Connection, Sys}
use esp_idf_matter.Ble.Nimble.Platform.{Platform, BleError, write}
use esp_idf_matter.Ble.Nimble.Hooks.{is_empty, gatts_hook}
use esp_idf_matter.Ble.Nimble.Pumps.{process_incoming}

module _ {W : Type 0} where
  -- The world after the reset of the BTP engine that the state calls for.
  abbrev pub session_world : Btp W → Sys W → W
  session_world btp s =
      if is_some_of s.ctx.btp_gen s.ctx.conn_gen then s.world else btp.reset s.world

module _ {W : Type 0} (p : Platform W) (btp : Btp W) where
  -- A packet that is copied out of a write while no other one waits is accepted. If the BTP engine
  -- takes it, the next round of the incoming pump reports a packet, gives exactly its bytes to the
  -- engine, with the MTU and the peer of the connection, after a reset of the engine if the session
  -- is an earlier one, calls nothing else, and leaves the buffer empty.
  pub write-process_incoming :
      (s : Sys W) (conn : Connection) (payload buffer : List ℕ) (len : ℕ) (w : W)
      → s.published ≡ true
      → s.ctx.connection ≡ some conn
      → s.ctx.in_data ≡ []
      → p.read_data payload (resize max_mtu_size []) ≡ (ok len, buffer)
      → is_empty (take len buffer) ≡ false
      → btp.process_incoming conn.mtu conn.peer (take len buffer) (session_world btp s) ≡ (ok tt, w)
      → let (code, written) = gatts_hook p (write payload) s in
        let (processed, s') = process_incoming btp written in
        (code ≡ 0)
        × (written.world ≡ s.world)
        × (processed ≡ ok true)
        × (s'.world ≡ w)
        × (s'.ctx.in_data ≡ [])
  unfolding gatts_hook process_incoming
  write-process_incoming s conn payload buffer len w hp hc hd hr hn given = ground arith

  -- A write that comes while a packet waits is refused with the code for insufficient resources,
  -- and changes nothing.
  pub write_refused :
      (s : Sys W) (payload : List ℕ)
      → s.published ≡ true
      → is_empty s.ctx.in_data ≡ false
      → gatts_hook p (write payload) s ≡ (p.att_err_insufficient_res, s)
  unfolding gatts_hook
  write_refused s payload hp hd = ground arith

  -- When the payload cannot be copied out, the buffer that the copy was made into stays as the
  -- waiting packet, though the write is refused: the next round of the incoming pump gives that
  -- buffer to the BTP engine, and until then each write is refused.
  pub failed_copy-process_incoming :
      (s : Sys W) (conn : Connection) (payload buffer later : List ℕ) (e : BleError) (w : W)
      → s.published ≡ true
      → s.ctx.connection ≡ some conn
      → s.ctx.in_data ≡ []
      → p.read_data payload (resize max_mtu_size []) ≡ (err e, buffer)
      → is_empty buffer ≡ false
      → btp.process_incoming conn.mtu conn.peer buffer (session_world btp s) ≡ (ok tt, w)
      → let (code, written) = gatts_hook p (write payload) s in
        (code ≡ p.att_err_insufficient_res)
        × ((process_incoming btp written).0 ≡ ok true)
        × ((process_incoming btp written).1.world ≡ w)
        × (gatts_hook p (write later) written ≡ (p.att_err_insufficient_res, written))
  unfolding gatts_hook process_incoming
  failed_copy-process_incoming s conn payload buffer later e w hp hc hd hr hn given = ground arith
