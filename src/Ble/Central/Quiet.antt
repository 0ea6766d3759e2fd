-- ===== src/Ble/Central/Quiet.antt =====
-- What the central of ble/nimble.rs asks of the driver while its session runs and no write ends.
use esp_idf_matter.Base.{
  ℕ, not, ◌||◌, ◌⊎◌, inl, inr, ok_or, Bool, true, false, ◌&&◌, ◌≡◌, refl, List, [], ◌∷◌, take,
  resize, arith,
}
use esp_idf_matter.Ble.Btp.{Btp, max_mtu_size}
use esp_idf_matter.Ble.Central.Platform.{
  Platform, HostEvent, sync, GapEvent, connected, connect_failed, disconnect, mtu, GattcEvent,
  service, services_end, characteristic, characteristics_end, write_complete, notify, read_complete,
}
use esp_idf_matter.Ble.Central.Hooks.{host_hook, gap_hook, gattc_hook}
use esp_idf_matter.Ble.Central.Pumps.{process_incoming, process_outgoing}
use esp_idf_matter.Ble.Central.Run.{Phase, condition, settle, proceed, drop_client}
use esp_idf_matter.Ble.Central.System.{
  Client, Action, go_on, task_act, incoming_act, outgoing_act, act, run_acts,
}
use esp_idf_matter.Ble.Central.Log.{Call, Logged, logged, lifted}

-- Whether the action is neither the end of a write nor the start of a run.
unfoldable pub is_quiet : Action → Bool
is_quiet Action.create = false
is_quiet (Action.launch addr) = false
is_quiet (Action.gattc (write_complete attr_handle status)) = false
is_quiet _ = true

unfoldable pub all_quiet : List Action → Bool
unfolding is_quiet
all_quiet [] = true
all_quiet (a ∷ acts) = is_quiet a && all_quiet acts

-- Whether the session runs, or has ended.
unfoldable pub is_past_setup : Phase → Bool
is_past_setup (Phase.pumping conn c1_val) = true
is_past_setup (Phase.ended r) = true
is_past_setup _ = false

unfoldable pub is_pumping : Phase → Bool
is_pumping (Phase.pumping conn c1_val) = true
is_pumping _ = false

module _ {W : Type 0} where
  -- A write is under way or the session has ended, and nothing was asked of the driver since the
  -- calls.
  abbrev pub UnderWay : List Call → Client (Logged W) → Type 0
  UnderWay calls c =
      ((c.out_inflight || not (is_pumping c.phase)) ≡ true)
      × (is_past_setup c.phase ≡ true)
      × (c.world.1 ≡ calls)

  -- Nothing was asked of the driver, and what tells whether a write is under way is as it was; the
  -- session may have ended.
  abbrev pub Kept : Client (Logged W) → Client (Logged W) → Type 0
  Kept c c' =
      (c'.out_inflight ≡ c.out_inflight)
      × (is_past_setup c'.phase ≡ true)
      × ((c'.phase ≡ c.phase) ⊎ (is_pumping c'.phase ≡ false))
      × (c'.world.1 ≡ c.world.1)

  -- The session ran, with no write under way, and the driver was asked for one.
  abbrev pub Wrote : Client (Logged W) → List Call → Type 0
  Wrote c calls =
      (c.out_inflight ≡ false)
      × ((conn : ℕ) × (c1_val : ℕ) × (packet : List ℕ) × (c.phase ≡ Phase.pumping conn c1_val)
          × (calls ≡ Call.write conn c1_val packet ∷ c.world.1))

module _ {W : Type 0} (p : Platform W) (btp : Btp W) where
  gattc-UnderWay :
      (e : GattcEvent) (calls : List Call) (c : Client (Logged W))
      → is_quiet (Action.gattc e) ≡ true
      → UnderWay calls c
      → UnderWay calls (act (logged p) (lifted btp) (Action.gattc e) c)
  unfolding is_quiet is_past_setup is_pumping act gattc_hook
  gattc-UnderWay (service u s e) calls c q h = ground arith
  gattc-UnderWay services_end calls c q h = ground arith
  gattc-UnderWay (characteristic u k) calls c q h = ground arith
  gattc-UnderWay characteristics_end calls c q h = ground arith
  gattc-UnderWay (write_complete k status) calls c q h = ground arith
  gattc-UnderWay (notify k payload) calls c q h = ground arith
  gattc-UnderWay (read_complete k) calls c q h = ground arith

  incoming-UnderWay :
      (calls : List Call) (c : Client (Logged W))
      → UnderWay calls c
      → UnderWay calls (act (logged p) (lifted btp) Action.incoming c)
  unfolding is_past_setup is_pumping act incoming_act process_incoming lifted
  incoming-UnderWay calls c h = ground arith

  outgoing-UnderWay :
      (calls : List Call) (c : Client (Logged W))
      → UnderWay calls c
      → UnderWay calls (act (logged p) (lifted btp) Action.outgoing c)
  unfolding is_past_setup is_pumping act outgoing_act process_outgoing lifted
  outgoing-UnderWay calls c h = ground arith

  task-UnderWay :
      (calls : List Call) (c : Client (Logged W))
      → UnderWay calls c
      → UnderWay calls (act (logged p) (lifted btp) Action.task c)
  unfolding is_past_setup is_pumping act task_act go_on condition proceed settle
  task-UnderWay calls c h = ground arith

  act-UnderWay :
      (a : Action) (calls : List Call) (c : Client (Logged W))
      → is_quiet a ≡ true
      → UnderWay calls c
      → UnderWay calls (act (logged p) (lifted btp) a c)
  unfolding is_quiet is_pumping is_past_setup act host_hook gap_hook drop_client
  act-UnderWay Action.create calls c q h = ground arith
  act-UnderWay Action.drop calls c q h = ground arith
  act-UnderWay Action.task calls c q h = task-UnderWay calls c h
  act-UnderWay Action.incoming calls c q h = incoming-UnderWay calls c h
  act-UnderWay Action.outgoing calls c q h = outgoing-UnderWay calls c h
  act-UnderWay (Action.launch addr) calls c q h = ground arith
  act-UnderWay (Action.host sync) calls c q h = ground arith
  act-UnderWay (Action.host (HostEvent.other k)) calls c q h = ground arith
  act-UnderWay (Action.gap (connected k)) calls c q h = ground arith
  act-UnderWay (Action.gap (connect_failed k code)) calls c q h = ground arith
  act-UnderWay (Action.gap (disconnect reason)) calls c q h = ground arith
  act-UnderWay (Action.gap (mtu k v)) calls c q h = ground arith
  act-UnderWay (Action.gap (GapEvent.other k)) calls c q h = ground arith
  act-UnderWay (Action.gattc e) calls c q h = gattc-UnderWay e calls c q h

  pub run_acts-UnderWay :
      (acts : List Action) (calls : List Call) (c : Client (Logged W))
      → all_quiet acts ≡ true
      → UnderWay calls c
      → UnderWay calls (run_acts (logged p) (lifted btp) c acts)
  unfolding run_acts all_quiet
  run_acts-UnderWay [] calls c q h = h
  run_acts-UnderWay (a ∷ acts) calls c q h =
      run_acts-UnderWay acts calls (act (logged p) (lifted btp) a c) (ground arith)
        (act-UnderWay a calls c (ground arith) h)

  -- The packet that the engine has next.
  abbrev next_packet : Client (Logged W) → List ℕ
  next_packet c =
      let (r, (buffer, w)) =
        btp.process_outgoing c.mtu (resize max_mtu_size c.out_data, c.world.0) in
      take (ok_or 0 r) buffer

  pumping_writes :
      (conn c1_val : ℕ) (c : Client (Logged W))
      → c.phase ≡ Phase.pumping conn c1_val
      → let c' = act (logged p) (lifted btp) Action.outgoing c in
        Kept c c'
        ⊎ ((c.out_inflight ≡ false)
            × (c'.world.1 ≡ Call.write conn c1_val (next_packet c) ∷ c.world.1)
            × UnderWay c'.world.1 c')
  unfolding is_past_setup is_pumping act outgoing_act process_outgoing lifted logged
  pumping_writes conn c1_val c at = ground arith

  outgoing-Kept :
      (phase : Phase) (c : Client (Logged W))
      → c.phase ≡ phase
      → is_past_setup phase ≡ true
      → let c' = act (logged p) (lifted btp) Action.outgoing c in
        Kept c c' ⊎ (Wrote c c'.world.1 × UnderWay c'.world.1 c')
  unfolding is_past_setup is_pumping act outgoing_act
  outgoing-Kept (Phase.pumping conn c1_val) c at past = elim (pumping_writes conn c1_val c at) [
    | inl kept ↦ inl kept
    | inr (free, called, under) ↦ inr ((free, (conn, c1_val, next_packet c, at, called)), under)
  ]
  outgoing-Kept (Phase.ended r) c at past = ground arith
  outgoing-Kept _ c at past = ground arith

  gattc-Kept :
      (e : GattcEvent) (c : Client (Logged W))
      → is_quiet (Action.gattc e) ≡ true
      → is_past_setup c.phase ≡ true
      → Kept c (act (logged p) (lifted btp) (Action.gattc e) c)
  unfolding is_quiet act gattc_hook
  gattc-Kept (service u s e) c q past = ground arith
  gattc-Kept services_end c q past = ground arith
  gattc-Kept (characteristic u k) c q past = ground arith
  gattc-Kept characteristics_end c q past = ground arith
  gattc-Kept (write_complete k status) c q past = ground arith
  gattc-Kept (notify k payload) c q past = ground arith
  gattc-Kept (read_complete k) c q past = ground arith

  task-Kept :
      (phase : Phase) (c : Client (Logged W))
      → c.phase ≡ phase
      → is_past_setup phase ≡ true
      → Kept c (act (logged p) (lifted btp) Action.task c)
  unfolding is_past_setup is_pumping act task_act go_on condition proceed settle
  task-Kept phase c at past = ground arith

  incoming-Kept :
      (c : Client (Logged W))
      → is_past_setup c.phase ≡ true
      → Kept c (act (logged p) (lifted btp) Action.incoming c)
  unfolding is_past_setup is_pumping act incoming_act process_incoming lifted
  incoming-Kept c past = ground arith

  -- Of the events and steps that are quiet, only a round of the outgoing pump asks the driver.
  pub act-Kept :
      (a : Action) (c : Client (Logged W))
      → is_quiet a ≡ true
      → is_past_setup c.phase ≡ true
      → let c' = act (logged p) (lifted btp) a c in
        Kept c c' ⊎ (Wrote c c'.world.1 × UnderWay c'.world.1 c')
  unfolding is_quiet is_pumping is_past_setup act host_hook gap_hook drop_client
  act-Kept Action.create c q past = ground arith
  act-Kept Action.drop c q past = inl (ground arith)
  act-Kept Action.task c q past = inl (task-Kept c.phase c refl past)
  act-Kept Action.incoming c q past = inl (incoming-Kept c past)
  act-Kept Action.outgoing c q past = outgoing-Kept c.phase c refl past
  act-Kept (Action.launch addr) c q past = ground arith
  act-Kept (Action.host sync) c q past = inl (ground arith)
  act-Kept (Action.host (HostEvent.other k)) c q past = inl (ground arith)
  act-Kept (Action.gap (connected k)) c q past = inl (ground arith)
  act-Kept (Action.gap (connect_failed k code)) c q past = inl (ground arith)
  act-Kept (Action.gap (disconnect reason)) c q past = inl (ground arith)
  act-Kept (Action.gap (mtu k v)) c q past = inl (ground arith)
  act-Kept (Action.gap (GapEvent.other k)) c q past = inl (ground arith)
  act-Kept (Action.gattc e) c q past = inl (gattc-Kept e c q past)

  pub Wrote-Kept :
      (c c' : Client (Logged W)) (calls : List Call) → Kept c c' → Wrote c' calls → Wrote c calls
  unfolding is_pumping
  Wrote-Kept c c' calls (f, past, at, l) (free, (conn, c1_val, packet, at', called)) =
      (ground arith, (conn, c1_val, packet, ground arith, ground arith))
