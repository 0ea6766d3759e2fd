-- ===== src/Ble/Central/Flow.antt =====
-- The flow control of the central in ble/nimble.rs: one write at a time.
use esp_idf_matter.Base.{
  ℕ, ◌⊎◌, inl, inr, sym, ◌<◌, ◌≤◌, true, false, ◌≡◌, refl, List, [], ◌∷◌, is_some_of, length, take,
  resize, ok, arith,
}
use mathlib.Core.Path.{subst}
use esp_idf_matter.Ble.Btp.{Btp, max_mtu_size}
use esp_idf_matter.Ble.Central.Platform.{Platform, write_complete}
use esp_idf_matter.Ble.Central.Hooks.{gattc_hook, is_cccd_of}
use esp_idf_matter.Ble.Central.Pumps.{process_outgoing}
use esp_idf_matter.Ble.Central.Run.{Phase}
use esp_idf_matter.Ble.Central.System.{Client, Action, outgoing_act, act, run_acts}
use esp_idf_matter.Ble.Central.Log.{Call, Logged, logged, lifted}
use esp_idf_matter.Ble.Central.Quiet.{
  all_quiet, is_past_setup, Wrote, run_acts-UnderWay, act-Kept, Wrote-Kept,
}

module _ {W : Type 0} (p : Platform W) (btp : Btp W) where
  -- One write at a time: while a session runs, whatever events, steps of the task and rounds of the
  -- pumps come, until a write ends, a run starts or a client is made, the driver is asked for one
  -- write at most, and for nothing else; and for none where a write was under way before.
  pub one_write_at_a_time :
      (acts : List Action) (c : Client (Logged W))
      → is_past_setup c.phase ≡ true
      → all_quiet acts ≡ true
      → let calls = (run_acts (logged p) (lifted btp) c acts).world.1 in
        (calls ≡ c.world.1) ⊎ Wrote c calls
  unfolding run_acts all_quiet
  one_write_at_a_time [] c past quiet = inl refl
  one_write_at_a_time (a ∷ acts) c past quiet =
      let c' = act (logged p) (lifted btp) a c in
      elim (act-Kept p btp a c (ground arith) past) [
        | inl kept ↦ elim (one_write_at_a_time acts c' kept.1 (ground arith)) [
          | inl same ↦ inl (ground arith)
          | inr wrote ↦
              inr (
                Wrote-Kept p btp c c' (run_acts (logged p) (lifted btp) c' acts).world.1 kept wrote)
        ]
        | inr (wrote, under) ↦ inr (
            subst (Wrote c)
              (sym (run_acts-UnderWay p btp acts c'.world.1 c' (ground arith) under).2) wrote)
      ]

  -- An acknowledgement lets the next packet out: in a session that has not failed, after a write to
  -- the write characteristic ends, with any status, the next round of the outgoing pump writes the
  -- packet that the engine has next, provided that the handle of that characteristic is not that of
  -- the other one's descriptor.
  pub acknowledgement_lets_go :
      (c : Client (Logged W)) (conn c1_val status len : ℕ) (buffer : List ℕ) (w : W)
      → c.phase ≡ Phase.pumping conn c1_val
      → c.published ≡ true
      → c.failed ≡ false
      → is_some_of c.c1_val c1_val ≡ true
      → is_cccd_of c.c2_val c1_val ≡ false
      → btp.process_outgoing c.mtu (resize max_mtu_size c.out_data, c.world.0)
        ≡ (ok len, (buffer, w))
      → 0 < len
      → len ≤ length buffer
      → (run_acts
          (logged p)
          (lifted btp)
          c
          (Action.gattc (write_complete c1_val status) ∷ Action.outgoing ∷ [])).world.1
        ≡ Call.write conn c1_val (take len buffer) ∷ c.world.1
  unfolding run_acts act gattc_hook outgoing_act process_outgoing lifted logged
  acknowledgement_lets_go c conn c1_val status len buffer w at live fine c1 other fetch some_len
        fits =
      ground arith
