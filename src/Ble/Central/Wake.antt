-- ===== src/Ble/Central/Wake.antt =====
-- How the task of the central in ble/nimble.rs waits for its signals.
use esp_idf_matter.Base.{
  ℕ, Bool, true, false, not, ◌&&◌, ◌||◌, ◌≡◌, refl, Option, none, some, List, [], ◌∷◌, inl, inr,
  Bool-cases, arith,
}
use esp_idf_matter.Ble.Btp.{Btp}
use esp_idf_matter.Ble.Nimble.Hooks.{is_empty}
use esp_idf_matter.Ble.Central.State.{State, Sys, reset}
use esp_idf_matter.Ble.Central.Platform.{
  Platform, HostEvent, sync, GapEvent, connected, connect_failed, disconnect, mtu, GattcEvent,
  service, services_end, characteristic, characteristics_end, write_complete, notify, read_complete,
}
use esp_idf_matter.Ble.Central.Hooks.{host_hook, gap_hook, gattc_hook}
use esp_idf_matter.Ble.Central.Pumps.{process_incoming, process_outgoing}
use esp_idf_matter.Ble.Central.Run.{
  Phase, condition, settle, found, begin_run, proceed, drop_client,
}
use esp_idf_matter.Ble.Central.System.{
  Client, Action, idle, look, go_on, task_act, incoming_act, outgoing_act, act, run_acts,
}

-- Whether a wait at the phase could end in the state.
abbrev pub ready : Phase → State → Bool
ready phase s = elim (condition phase) [ none ↦ false | some holds ↦ holds s ]

-- What the task may not miss while it waits.
pub record Alert {W : Type 0} (c : Client W) : Type 0 where
  pub progress : c.waiting ≡ true → ready c.phase c.sys.ctx.state ≡ true → c.notify_progress ≡ true
  pub packet : c.waiting_in ≡ true → is_empty c.in_data ≡ false → c.notify_in ≡ true

module _ {W : Type 0} (p : Platform W) (btp : Btp W) where
  gap-Alert : (e : GapEvent) (c : Client W) → Alert c → Alert (act p btp (Action.gap e) c)
  unfolding act gap_hook condition
  gap-Alert (connected k) c h = ground arith
  gap-Alert (connect_failed k code) c h = ground arith
  gap-Alert (disconnect reason) c h = ground arith
  gap-Alert (mtu k v) c h = ground arith
  gap-Alert (GapEvent.other kind) c h = ground arith

  gattc-Alert : (e : GattcEvent) (c : Client W) → Alert c → Alert (act p btp (Action.gattc e) c)
  unfolding act gattc_hook condition
  gattc-Alert (service u s e) c h = ground arith
  gattc-Alert services_end c h = ground arith
  gattc-Alert (characteristic u k) c h = ground arith
  gattc-Alert characteristics_end c h = ground arith
  gattc-Alert (write_complete k status) c h = ground arith
  gattc-Alert (notify k payload) c h = ground arith
  gattc-Alert (read_complete k) c h = ground arith

  host-Alert : (e : HostEvent) (c : Client W) → Alert c → Alert (act p btp (Action.host e) c)
  unfolding act host_hook condition
  host-Alert sync c h = ground arith
  host-Alert (HostEvent.other k) c h = ground arith

  incoming-Alert : (c : Client W) → Alert c → Alert (act p btp Action.incoming c)
  unfolding act incoming_act process_incoming condition
  incoming-Alert c h = ground arith

  outgoing-Alert : (c : Client W) → Alert c → Alert (act p btp Action.outgoing c)
  unfolding act outgoing_act process_outgoing condition
  outgoing-Alert c h = ground arith

  create-Alert : (c : Client W) → Alert c → Alert (act p btp Action.create c)
  unfolding act condition reset
  create-Alert c h = ground arith

  drop-Alert : (c : Client W) → Alert c → Alert (act p btp Action.drop c)
  unfolding act condition drop_client
  drop-Alert c h = ground arith

  launch-Alert : (addr : ℕ) (c : Client W) → Alert c → Alert (act p btp (Action.launch addr) c)
  unfolding act condition begin_run settle
  launch-Alert addr c h = ground arith

  look-Alert :
      (c : Client W) (holds : State → Bool)
      → condition c.phase ≡ some holds
      → Alert c
      → Alert (look holds c)
  unfolding condition look
  look-Alert c holds e h = ground arith

module _ {W : Type 0} (p : Platform W) (btp : Btp W) where
  -- What the code between two waits leaves alone.
  proceed_frame :
      (addr : ℕ) (phase : Phase) (s : Sys W)
      → let s' = (proceed p addr phase s).1 in (s'.ctx ≡ s.ctx)
  unfolding proceed found
  proceed_frame addr Phase.synced_now s = ground arith
  proceed_frame addr Phase.connected_now s = ground arith
  proceed_frame addr (Phase.services_now conn) s = ground arith
  proceed_frame addr (Phase.chars_now conn) s = ground arith
  proceed_frame addr (Phase.subscribe_now conn c1_val) s = ground arith
  proceed_frame addr Phase.sync_wait s = ground arith
  proceed_frame addr Phase.conn_wait s = ground arith
  proceed_frame addr (Phase.services_wait conn) s = ground arith
  proceed_frame addr (Phase.chars_wait conn) s = ground arith
  proceed_frame addr (Phase.subscribe_wait conn c1_val) s = ground arith
  proceed_frame addr (Phase.pumping conn c1_val) s = ground arith
  proceed_frame addr (Phase.ended r) s = ground arith

  go_on-Alert :
      (c : Client W) → c.waiting && not c.notify_progress ≡ false → Alert c → Alert (go_on p btp c)
  unfolding go_on
  go_on-Alert c e h = let same = proceed_frame c.addr c.phase c.sys in ground arith

  abbrev stepped : Option (State → Bool) → Client W → Client W
  stepped o c = elim o [ none ↦ go_on p btp c | some holds ↦ look holds c ]

  stepped-Alert :
      (c : Client W) (o : Option (State → Bool))
      → condition c.phase ≡ o
      → c.waiting && not c.notify_progress ≡ false
      → Alert c
      → Alert (stepped o c)
  stepped-Alert c none e awake h = go_on-Alert c awake h
  stepped-Alert c (some holds) e awake h = look-Alert p btp c holds e h

  task-Alert : (c : Client W) → Alert c → Alert (act p btp Action.task c)
  unfolding act task_act
  task-Alert c h = elim (Bool-cases (c.waiting && not c.notify_progress)) [
    | inl asleep ↦ ground arith
    | inr awake ↦ let moved = stepped-Alert c (condition c.phase) refl awake h in ground arith
  ]

  act-Alert : (a : Action) (c : Client W) → Alert c → Alert (act p btp a c)
  act-Alert Action.create c h = create-Alert p btp c h
  act-Alert Action.drop c h = drop-Alert p btp c h
  act-Alert Action.task c h = task-Alert c h
  act-Alert Action.incoming c h = incoming-Alert p btp c h
  act-Alert Action.outgoing c h = outgoing-Alert p btp c h
  act-Alert (Action.launch addr) c h = launch-Alert p btp addr c h
  act-Alert (Action.host e) c h = host-Alert p btp e c h
  act-Alert (Action.gap e) c h = gap-Alert p btp e c h
  act-Alert (Action.gattc e) c h = gattc-Alert p btp e c h

  run_acts-Alert : (acts : List Action) (c : Client W) → Alert c → Alert (run_acts p btp c acts)
  unfolding run_acts
  run_acts-Alert [] c h = h
  run_acts-Alert (a ∷ acts) c h = run_acts-Alert acts (act p btp a c) (act-Alert a c h)

  -- The client after the actions, from one whose task does not run.
  abbrev pub after : Sys W → ℕ → List Action → Client W
  after s addr acts = run_acts p btp (idle s addr) acts

  -- Whether a wait would miss what it waits for: it could end, and its signal is not set.
  abbrev pub is_missed : Client W → Bool
  is_missed c =
      (c.waiting && ready c.phase c.state && not c.notify_progress)
      || (c.waiting_in && not (is_empty c.in_data) && not c.notify_in)

  -- No signal is missed: after any events, steps of the task, rounds of the pumps, runs and drops,
  -- in any order, from a client whose task does not run, it does not happen that the task waits for
  -- what holds already, nor that the incoming pump waits with an indication in the buffer, without
  -- its signal.
  pub no_missed_signal :
      (acts : List Action) (s : Sys W) (addr : ℕ) → is_missed (after s addr acts) ≡ false
  no_missed_signal acts s addr =
      let h = run_acts-Alert acts (idle s addr) (ground arith) in ground arith
