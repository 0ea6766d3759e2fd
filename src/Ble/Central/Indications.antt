-- ===== src/Ble/Central/Indications.antt =====
-- The way of an indication through the central in ble/nimble.rs to the BTP engine.
use esp_idf_matter.Base.{ℕ, true, false, ◌≡◌, List, [], take, resize, is_some_of, ok, arith}
use esp_idf_matter.Ble.Btp.{Btp, max_mtu_size}
use esp_idf_matter.Ble.Nimble.Hooks.{is_empty}
use esp_idf_matter.Ble.Central.State.{Sys}
use esp_idf_matter.Ble.Central.Platform.{Platform, notify}
use esp_idf_matter.Ble.Central.Hooks.{gattc_hook}
use esp_idf_matter.Ble.Central.Pumps.{process_incoming}

module _ {W : Type 0} (p : Platform W) (btp : Btp W) where
  -- An indication of the session that finds the buffer empty, whose payload can be copied out and
  -- is not empty, reaches the engine in the next incoming round of a session that has not failed,
  -- with its bytes, the MTU and the peer, and the buffer is empty again. Another one that comes
  -- before that round is dropped: the round does the same.
  pub indication-process_incoming :
      (s : Sys W) (attr_handle len : ℕ) (payload buffer second : List ℕ) (w : W)
      → s.published ≡ true
      → s.ctx.failed ≡ false
      → is_some_of s.ctx.c2_val attr_handle ≡ true
      → s.ctx.in_data ≡ []
      → p.read_data payload (resize max_mtu_size []) ≡ (ok len, buffer)
      → is_empty (take len buffer) ≡ false
      → btp.process_incoming s.ctx.mtu s.ctx.peer (take len buffer) s.world ≡ (ok tt, w)
      → let once = gattc_hook p (notify attr_handle payload) s in
        let (processed, s') = process_incoming btp once in
        let (processed2, s2) =
          process_incoming btp (gattc_hook p (notify attr_handle second) once) in
        (processed ≡ ok true)
        × (s'.world ≡ w)
        × (s'.ctx.in_data ≡ [])
        × (processed2 ≡ ok true)
        × (s2.world ≡ w)
        × (s2.ctx.in_data ≡ [])
  unfolding gattc_hook process_incoming
  indication-process_incoming s attr_handle len payload buffer second w live fine c2 free copied
        some_data taken =
      ground arith
