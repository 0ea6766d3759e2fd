-- ===== src/Tests/Central.antt =====
-- The central of ble/nimble.rs over a world that is the list of the calls made.
use esp_idf_matter.Base.{
  ℕ, true, false, none, some, List, [], ◌∷◌, ◌++◌, ◌≡◌, ◌⊎◌, refl, length, replicate, Exec, ok,
  arith,
}
use esp_idf_matter.Ble.Btp.{Btp}
use esp_idf_matter.Ble.Central.State.{State, Sys}
use esp_idf_matter.Ble.Central.Platform.{Platform, sync, disconnect, write_complete, notify}
use esp_idf_matter.Ble.Central.Hooks.{gattc_hook, cccd_of}
use esp_idf_matter.Ble.Central.Pumps.{process_outgoing, process_incoming}
use esp_idf_matter.Ble.Central.Run.{Phase}
use esp_idf_matter.Ble.Central.System.{outgoing_act, incoming_act, Client, Action, act, run_acts}
use esp_idf_matter.Ble.Central.Log.{Call, Logged, logged, lifted}
use esp_idf_matter.Ble.Central.Wake.{is_missed, after, no_missed_signal}
use esp_idf_matter.Ble.Central.Flow.{one_write_at_a_time, acknowledgement_lets_go}
use esp_idf_matter.Ble.Central.Quiet.{all_quiet, is_past_setup, Wrote}
use esp_idf_matter.Ble.Central.Subscribe.{refused_subscription_waits}
use esp_idf_matter.Ble.Central.Ending.{is_ended, disconnect_ends_run}
use esp_idf_matter.Ble.Central.Handshake.{AllOk, answered, answered_run_connects}
use esp_idf_matter.Ble.Central.Indications.{indication-process_incoming}

-- A call that is noted by a number.
abbrev noting : {E : Type 0} → ℕ → Exec E (List ℕ) (Unit {0})
noting n w = (ok tt, n ∷ w)

abbrev platform : Platform (List ℕ)
platform = record {
  svc_uuid = 10;
  c1_uuid = 11;
  c2_uuid = 12;
  own_addr_public = 0;
  start = noting 1;
  ensure_addr = λ b. noting 2;
  connect = λ o t a. noting 3;
  discover_services = λ k. noting 4;
  discover_characteristics = λ k a b. noting 5;
  write = λ k a bytes. noting 6;
  read_data = λ payload buffer. (ok (length payload), payload);
  set_initiator = λ b w. 7 ∷ w;
}

-- An engine that notes what it is given and always sends one byte.
abbrev btp : Btp (List ℕ)
btp = record {
  reset = λ w. 100 ∷ w;
  process_incoming = λ size peer bytes w. (ok tt, bytes ++ 101 ∷ w);
  process_outgoing = λ size (buffer, w). (ok 1, (7 ∷ [], 102 ∷ w));
}

-- A session over the connection 3, the characteristics at 20 and 22.
abbrev a_state : State
a_state = record {
  synced = true;
  conn_handle = some 3;
  failed = false;
  mtu = none;
  peer = 9;
  matter_range = some (16, 30);
  services_done = true;
  c1_val = some 20;
  c2_val = some 22;
  chars_done = true;
  subscribed = false;
  in_data = [];
  out_data = [];
  out_inflight = false;
}

abbrev a_sys : {W : Type 0} → W → Sys W
a_sys w = record {
  ctx = record { state = a_state; notify_progress = false; notify_in = false; notify_out = false };
  published = true;
  world = w;
}

abbrev a_client : {W : Type 0} → W → Phase → Client W
a_client w phase = record {
  sys = a_sys w;
  phase = phase;
  addr = 9;
  waiting = false;
  waiting_in = false;
  waiting_out = false;
}

abbrev no_calls : Logged (List ℕ)
no_calls = ([], [])

abbrev busy_client : Client (Logged (List ℕ))
busy_client = record (a_client no_calls (Phase.pumping 3 20)) {
  sys = record (a_sys no_calls) {
    ctx = record (a_sys no_calls).ctx { state = record a_state { out_inflight = true } };
  };
}

indication-process_incoming_example :
    let once = gattc_hook platform (notify 22 (1 ∷ 2 ∷ [])) (a_sys []) in
    let (processed, s') = process_incoming btp once in
    let (processed2, s2) = process_incoming btp (gattc_hook platform (notify 22 (3 ∷ [])) once) in
    (processed ≡ ok true)
    × (s'.world ≡ 1 ∷ 2 ∷ 101 ∷ [])
    × (s'.ctx.in_data ≡ [])
    × (processed2 ≡ ok true)
    × (s2.world ≡ 1 ∷ 2 ∷ 101 ∷ [])
    × (s2.ctx.in_data ≡ [])
indication-process_incoming_example =
    indication-process_incoming platform btp (a_sys []) 22 2 (1 ∷ 2 ∷ []) (1 ∷ 2 ∷ []) (3 ∷ [])
      (1 ∷ 2 ∷ 101 ∷ []) refl refl refl refl refl refl refl

abbrev works : AllOk platform
works = record {
  start_ok = λ w. refl;
  ensure_addr_ok = λ b w. refl;
  connect_ok = λ o t a w. refl;
  services_ok = λ k w. refl;
  chars_ok = λ k a b w. refl;
  write_ok = λ k a bytes w. refl;
}

answered_run_connects_example :
    (run_acts platform btp
      (a_client [] (Phase.ended (ok tt)))
      (answered platform btp works 9 3 16 30 20 22)).phase
    ≡ Phase.pumping 3 20
answered_run_connects_example =
    answered_run_connects platform btp works (a_client [] (Phase.ended (ok tt))) 9 3 16 30 20 22
      (omega arith)

abbrev free_client : Client (Logged (List ℕ))
free_client = record (a_client no_calls (Phase.pumping 3 20)) {
  sys = record (a_sys no_calls) { ctx = record (a_sys no_calls).ctx { state = a_state } };
}

abbrev two_rounds : List Action
two_rounds =
    Action.outgoing ∷ Action.gattc (notify 22 (1 ∷ [])) ∷ Action.incoming ∷ Action.outgoing ∷ []

one_write_at_a_time_example :
    let calls = (run_acts (logged platform) (lifted btp) free_client two_rounds).world.1 in
    (calls ≡ []) ⊎ Wrote free_client calls
unfolding all_quiet is_past_setup
one_write_at_a_time_example = one_write_at_a_time platform btp two_rounds free_client refl refl

-- The first of the two rounds writes the packet.
writes_once :
    (run_acts (logged platform) (lifted btp) free_client two_rounds).world.1
    ≡ Call.write 3 20 (7 ∷ []) ∷ []
unfolding run_acts act outgoing_act incoming_act gattc_hook process_outgoing process_incoming lifted
    logged
writes_once = refl

acknowledgement_lets_go_example :
    (run_acts
      (logged platform)
      (lifted btp)
      busy_client
      (Action.gattc (write_complete 20 0) ∷ Action.outgoing ∷ [])).world.1
    ≡ Call.write 3 20 (7 ∷ []) ∷ []
unfolding cccd_of
acknowledgement_lets_go_example =
    acknowledgement_lets_go platform btp busy_client 3 20 0 1 (7 ∷ []) (102 ∷ []) refl refl refl
      refl refl refl (omega arith) (omega arith)

refused_subscription_waits_example :
    (run_acts platform btp
      (a_client [] (Phase.subscribe_wait 3 20))
      (Action.gattc (write_complete 23 3) ∷ replicate 5 Action.task)).phase
    ≡ Phase.subscribe_wait 3 20
unfolding cccd_of
refused_subscription_waits_example =
    refused_subscription_waits platform btp 5 (a_client [] (Phase.subscribe_wait 3 20)) 3 20 22 3
      refl refl refl refl refl (omega arith)

disconnect_ends_run_example :
    is_ended
      (act platform btp Action.incoming (
        run_acts platform btp
          (a_client [] (Phase.subscribe_wait 3 20))
          (Action.gap (disconnect 19) ∷ replicate 10 Action.task))).phase
    ≡ true
disconnect_ends_run_example =
    disconnect_ends_run platform btp (a_client [] (Phase.subscribe_wait 3 20)) 19 refl refl

-- The host synchronizes while the task waits for it.
abbrev early : List Action
early = Action.create ∷ Action.launch 9 ∷ Action.task ∷ Action.host sync ∷ []

no_missed_signal_example : is_missed platform btp (after platform btp (a_sys []) 0 early) ≡ false
no_missed_signal_example = no_missed_signal platform btp early (a_sys []) 0
