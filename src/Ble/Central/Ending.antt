-- ===== src/Ble/Central/Ending.antt =====
-- How the run of the central in ble/nimble.rs ends when the peer is lost.
use esp_idf_matter.Base.{
  ℕ, zero, suc, ◌≤◌, ◌<◌, Bool, true, false, not, ◌&&◌, ◌≡◌, Option-cases, inl, inr, ◌⊎◌, none,
  some, ◌∷◌, replicate, arith,
}
use esp_idf_matter.Ble.Btp.{Btp}
use esp_idf_matter.Ble.Central.State.{State, Sys}
use esp_idf_matter.Ble.Central.Platform.{Platform, disconnect}
use esp_idf_matter.Ble.Central.Hooks.{gap_hook}
use esp_idf_matter.Ble.Central.Pumps.{process_incoming}
use esp_idf_matter.Ble.Central.Run.{Phase, condition, settle, found, proceed}
use esp_idf_matter.Ble.Central.System.{
  Client, Action, look, go_on, task_act, incoming_act, act, run_acts,
}

-- The steps of the task that are left before the pumps or the end, once the host is synchronized.
unfoldable pub steps_left : Phase → ℕ
steps_left Phase.sync_wait = 10
steps_left Phase.synced_now = 9
steps_left Phase.conn_wait = 8
steps_left Phase.connected_now = 7
steps_left (Phase.services_wait conn) = 6
steps_left (Phase.services_now conn) = 5
steps_left (Phase.chars_wait conn) = 4
steps_left (Phase.chars_now conn) = 3
steps_left (Phase.subscribe_wait conn c1_val) = 2
steps_left (Phase.subscribe_now conn c1_val) = 1
steps_left (Phase.pumping conn c1_val) = 0
steps_left (Phase.ended r) = 0

unfoldable pub is_ended : Phase → Bool
is_ended (Phase.ended r) = true
is_ended _ = false

module _ {W : Type 0} (p : Platform W) (btp : Btp W) where
  -- The peer is lost, the host is synchronized, the task and the incoming pump can go on, and `n`
  -- steps are enough.
  abbrev Failing : ℕ → Client W → Type 0
  Failing n c =
      (c.failed ≡ true)
      × (c.synced ≡ true)
      × (c.waiting && not c.notify_progress ≡ false)
      × (c.waiting_in && not c.notify_in ≡ false)
      × (steps_left c.phase ≤ n)

  proceed-steps_left :
      (addr : ℕ) (phase : Phase) (s : Sys W)
      → condition phase ≡ none
      → s.ctx.failed ≡ true
      → let (r, s') = proceed p addr phase s in
        (s'.ctx ≡ s.ctx)
        × ((steps_left (settle r) ≡ 0) ⊎ (steps_left (settle r) < steps_left phase))
  unfolding proceed found settle steps_left condition
  proceed-steps_left addr Phase.synced_now s w h = ground arith
  proceed-steps_left addr Phase.connected_now s w h = ground arith
  proceed-steps_left addr (Phase.services_now conn) s w h = ground arith
  proceed-steps_left addr (Phase.chars_now conn) s w h = ground arith
  proceed-steps_left addr (Phase.subscribe_now conn c1_val) s w h = ground arith
  proceed-steps_left addr Phase.sync_wait s w h = ground arith
  proceed-steps_left addr Phase.conn_wait s w h = ground arith
  proceed-steps_left addr (Phase.services_wait conn) s w h = ground arith
  proceed-steps_left addr (Phase.chars_wait conn) s w h = ground arith
  proceed-steps_left addr (Phase.subscribe_wait conn c1_val) s w h = ground arith
  proceed-steps_left addr (Phase.pumping conn c1_val) s w h = ground arith
  proceed-steps_left addr (Phase.ended r) s w h = ground arith

  look-Failing :
      (n : ℕ) (c : Client W) (holds : State → Bool)
      → condition c.phase ≡ some holds
      → Failing (suc n) c
      → Failing n (look holds c)
  unfolding look condition steps_left
  look-Failing n c holds e h = ground arith

  go_on-Failing :
      (n : ℕ) (c : Client W)
      → condition c.phase ≡ none
      → Failing (suc n) c
      → Failing n (go_on p btp c)
  unfolding go_on
  go_on-Failing n c e h = ground (arith, proceed-steps_left c.addr c.phase c.sys e h.0)

  task-Failing : (n : ℕ) (c : Client W) → Failing (suc n) c → Failing n (act p btp Action.task c)
  unfolding act task_act
  task-Failing n c h = elim (Option-cases (condition c.phase)) [
    | inl now ↦ ground (arith, go_on-Failing n c now h)
    | inr (holds, wait) ↦ ground (arith, look-Failing n c holds wait h)
  ]

  tasks-Failing :
      (n : ℕ) (c : Client W) → Failing n c → Failing 0 (run_acts p btp c (replicate n Action.task))
  unfolding run_acts
  tasks-Failing zero c h = h
  tasks-Failing (suc n) c h = tasks-Failing n (act p btp Action.task c) (task-Failing n c h)

  disconnect-Failing :
      (c : Client W) (reason : ℕ)
      → c.published ≡ true
      → c.synced ≡ true
      → Failing 10 (act p btp (Action.gap (disconnect reason)) c)
  unfolding act gap_hook steps_left
  disconnect-Failing c reason live ready = ground arith

  incoming_ends :
      (c : Client W)
      → steps_left c.phase ≡ 0
      → c.failed ≡ true
      → c.waiting_in && not c.notify_in ≡ false
      → is_ended (act p btp Action.incoming c).phase ≡ true
  unfolding act incoming_act process_incoming steps_left is_ended
  incoming_ends c h fails goes = ground arith

  -- A lost peer ends the run: once the host is synchronized, wherever the task stands when the
  -- connection ends, ten steps of the task and a round of the incoming pump bring it to its end,
  -- whatever the driver answers meanwhile.
  pub disconnect_ends_run :
      (c : Client W) (reason : ℕ)
      → c.published ≡ true
      → c.synced ≡ true
      → is_ended
          (act p btp Action.incoming
            (run_acts p btp c (Action.gap (disconnect reason) ∷ replicate 10 Action.task))).phase
        ≡ true
  unfolding run_acts
  disconnect_ends_run c reason live ready =
      let c' = act p btp (Action.gap (disconnect reason)) c in
      let last = tasks-Failing 10 c' (disconnect-Failing c reason live ready) in
      incoming_ends (run_acts p btp c' (replicate 10 Action.task)) (omega (arith, last.4)) last.0
        last.3
