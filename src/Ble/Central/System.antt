-- ===== src/Ble/Central/System.antt =====
-- The central of ble/nimble.rs as a whole: the hooks, the task of `run` and its two pumps, in any
-- order, over any number of runs.
use esp_idf_matter.Base.{
  ℕ, Bool, true, false, not, ◌&&◌, none, some, List, [], ◌∷◌, if◌then◌else◌, Result, ok, err, panic,
}
use esp_idf_matter.Error.{ErrorCode}
use esp_idf_matter.Ble.Btp.{Btp}
use esp_idf_matter.Ble.Central.State.{State, Context_new, Sys, reset}
use esp_idf_matter.Ble.Central.Platform.{Platform, HostEvent, GapEvent, GattcEvent}
use esp_idf_matter.Ble.Central.Hooks.{host_hook, gap_hook, gattc_hook}
use esp_idf_matter.Ble.Central.Pumps.{process_incoming, process_outgoing}
use esp_idf_matter.Ble.Central.Run.{
  Phase, condition, passed, settle, begin_run, proceed, drop_client,
}

-- The client, where its task stands, the address it was given, and whether the task and the pumps
-- stand at the wait for their signals.
pub record Client (W : Type 0) : Type 0 where
  pub sys : Sys W
  pub open sys use *
  pub phase : Phase
  pub addr : ℕ
  pub waiting : Bool
  pub waiting_in : Bool
  pub waiting_out : Bool

-- One thing that happens: a client made over the context, `run` called, a step of its task, a round
-- of a pump, an event, the client dropped.
pub data Action : Type 0 where
  create drop task incoming outgoing : Action
  launch : (addr : ℕ) → Action
  host : HostEvent → Action
  gap : GapEvent → Action
  gattc : GattcEvent → Action

module _ {W : Type 0} where
  -- A client whose task does not run.
  abbrev pub idle : Sys W → ℕ → Client W
  idle s addr = record {
    sys = s;
    phase = Phase.ended (ok tt);
    addr = addr;
    waiting = false;
    waiting_in = false;
    waiting_out = false;
  }

  abbrev take_progress : Client W → Sys W
  take_progress c =
      if c.waiting
      then record c.sys { ctx = record c.sys.ctx { notify_progress = false } }
      else c.sys

  -- One look at what a wait waits for.
  unfoldable pub look : (State → Bool) → Client W → Client W
  unfolding passed
  look holds c =
      let s = take_progress c in
      if holds s.ctx.state
      then record c { sys = s; phase = passed c.phase; waiting = false }
      else record c { sys = s; waiting = true }

  -- The end of a round of the incoming pump; an error ends the task.
  unfoldable pub after_incoming : Result ErrorCode Bool → Client W → Client W
  after_incoming (ok processed) c = record c { waiting_in = not processed }
  after_incoming (err e) c = record c { phase = Phase.ended (err e); waiting_in = false }
  after_incoming panic c = record c { phase = Phase.ended panic; waiting_in = false }

  unfoldable pub after_outgoing : Result ErrorCode Bool → Client W → Client W
  after_outgoing (ok processed) c = record c { waiting_out = not processed }
  after_outgoing (err e) c = record c { phase = Phase.ended (err e); waiting_out = false }
  after_outgoing panic c = record c { phase = Phase.ended panic; waiting_out = false }

module _ {W : Type 0} (p : Platform W) (btp : Btp W) where
  -- The code after a wait.
  unfoldable pub go_on : Client W → Client W
  unfolding settle
  go_on c = let (r, s) = proceed p c.addr c.phase c.sys in record c { sys = s; phase = settle r }

  unfoldable pub task_act : Client W → Client W
  unfolding look go_on condition
  task_act c =
      if c.waiting && not c.notify_progress
      then c
      else elim (condition c.phase) [ none ↦ go_on c | some holds ↦ look holds c ]

  abbrev take_in : Client W → Sys W
  take_in c =
      if c.waiting_in then record c.sys { ctx = record c.sys.ctx { notify_in = false } } else c.sys

  abbrev take_out : Client W → Sys W
  take_out c =
      if c.waiting_out
      then record c.sys { ctx = record c.sys.ctx { notify_out = false } }
      else c.sys

  in_phase : Phase → Client W → Client W
  unfolding after_incoming
  in_phase (Phase.pumping conn c1_val) c =
      if c.waiting_in && not c.notify_in
      then c
      else (let (r, s) = process_incoming btp (take_in c) in
          after_incoming r (record c { sys = s }))
  in_phase phase c = c

  -- The outgoing pump also goes on when the engine has something to send; its signal is taken then
  -- too.
  out_phase : Phase → Client W → Client W
  unfolding after_outgoing
  out_phase (Phase.pumping conn c1_val) c =
      let (r, s) = process_outgoing p btp conn c1_val (take_out c) in
      after_outgoing r (record c { sys = s })
  out_phase phase c = c

  unfoldable pub incoming_act : Client W → Client W
  unfolding in_phase
  incoming_act c = in_phase c.phase c

  unfoldable pub outgoing_act : Client W → Client W
  unfolding out_phase
  outgoing_act c = out_phase c.phase c

  launch_act : ℕ → Client W → Client W
  unfolding begin_run settle
  launch_act addr c =
      let (r, s) = begin_run p addr c.sys in
      record {
        sys = s;
        phase = settle r;
        addr = addr;
        waiting = false;
        waiting_in = false;
        waiting_out = false;
      }

  unfoldable pub act : Action → Client W → Client W
  unfolding launch_act
  act Action.create c = idle (record c.sys { ctx = reset c.sys.ctx }) c.addr
  act Action.drop c = idle (drop_client c.sys) c.addr
  act Action.task c = task_act c
  act Action.incoming c = incoming_act c
  act Action.outgoing c = outgoing_act c
  act (Action.launch addr) c = launch_act addr c
  act (Action.host e) c = record c { sys = host_hook p e c.sys }
  act (Action.gap e) c = record c { sys = gap_hook p e c.sys }
  act (Action.gattc e) c = record c { sys = gattc_hook p e c.sys }

  unfoldable pub run_acts : Client W → List Action → Client W
  run_acts c [] = c
  run_acts c (a ∷ rest) = run_acts (act a c) rest

  -- A client just made, in the world `w`.
  abbrev pub fresh : W → Client W
  fresh w = idle (record { ctx = Context_new; published = false; world = w }) 0
