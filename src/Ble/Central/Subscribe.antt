-- ===== src/Ble/Central/Subscribe.antt =====
-- ble/nimble.rs, `central`: a subscription that the peer refuses.
use esp_idf_matter.Base.{ℕ, zero, suc, ◌≢◌, true, false, ◌≡◌, some, ◌∷◌, replicate, arith}
use esp_idf_matter.Ble.Btp.{Btp}
use esp_idf_matter.Ble.Central.Platform.{Platform, write_complete}
use esp_idf_matter.Ble.Central.Hooks.{gattc_hook, cccd_of}
use esp_idf_matter.Ble.Central.Run.{Phase, condition}
use esp_idf_matter.Ble.Central.System.{Client, Action, look, task_act, act, run_acts}

module _ {W : Type 0} (p : Platform W) (btp : Btp W) where
  -- The task stands at the wait, and nothing it waits for holds.
  abbrev Stuck : ℕ → ℕ → Client W → Type 0
  Stuck conn c1_val c =
      (c.phase ≡ Phase.subscribe_wait conn c1_val) × (c.subscribed ≡ false) × (c.failed ≡ false)

  task-Stuck :
      (c : Client W) (conn c1_val : ℕ)
      → Stuck conn c1_val c
      → Stuck conn c1_val (act p btp Action.task c)
  unfolding act task_act look condition
  task-Stuck c conn c1_val h = ground arith

  refused-Stuck :
      (c : Client W) (conn c1_val c2_val status : ℕ)
      → c.phase ≡ Phase.subscribe_wait conn c1_val
      → c.subscribed ≡ false
      → c.failed ≡ false
      → c.published ≡ true
      → c.c2_val ≡ some c2_val
      → status ≢ 0
      → Stuck conn c1_val (act p btp (Action.gattc (write_complete (cccd_of c2_val) status)) c)
  unfolding act gattc_hook
  refused-Stuck c conn c1_val c2_val status at none_yet fine live c2 refused = ground arith

  stays-Stuck :
      (n : ℕ) (c : Client W) (conn c1_val : ℕ)
      → Stuck conn c1_val c
      → Stuck conn c1_val (run_acts p btp c (replicate n Action.task))
  unfolding run_acts
  stays-Stuck zero c conn c1_val h = h
  stays-Stuck (suc n) c conn c1_val h =
      stays-Stuck n (act p btp Action.task c) conn c1_val (task-Stuck c conn c1_val h)

  -- A refused subscription does not end the run: after the write to the descriptor ends with
  -- an error status, the task waits for the subscription after any number of its steps.
  pub refused_subscription_waits :
      (n : ℕ) (c : Client W) (conn c1_val c2_val status : ℕ)
      → c.phase ≡ Phase.subscribe_wait conn c1_val
      → c.subscribed ≡ false
      → c.failed ≡ false
      → c.published ≡ true
      → c.c2_val ≡ some c2_val
      → status ≢ 0
      → (run_acts p btp c
          (Action.gattc (write_complete (cccd_of c2_val) status) ∷ replicate n Action.task)).phase
        ≡ Phase.subscribe_wait conn c1_val
  unfolding run_acts
  refused_subscription_waits n c conn c1_val c2_val status at no_sub fine live c2 refused =
      (stays-Stuck n (act p btp (Action.gattc (write_complete (cccd_of c2_val) status)) c) conn
        c1_val (refused-Stuck c conn c1_val c2_val status at no_sub fine live c2 refused)).0
