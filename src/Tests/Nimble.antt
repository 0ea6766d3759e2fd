-- ===== src/Tests/Nimble.antt =====
-- The peripheral of ble/nimble.rs over a world that is the list of the calls made.
use esp_idf_matter.Base.{
  ℕ, ◌≤◌, true, false, none, some, List, [], ◌∷◌, ◌++◌, ◌≡◌, refl, length, Exec, ok, err, resize,
  arith,
}
use esp_idf_matter.Error.{EspError}
use esp_idf_matter.Ble.Btp.{Btp}
use esp_idf_matter.Ble.Nimble.State.{Connection, Sys}
use esp_idf_matter.Ble.Nimble.Platform.{
  Platform, connected, disconnect, write, subscription_changed, notify_complete, sync,
}
use esp_idf_matter.Ble.Nimble.Hooks.{gatts_hook}
use esp_idf_matter.Ble.Nimble.Pumps.{process_incoming}
use esp_idf_matter.Ble.Nimble.System.{
  Action, create, incoming, outgoing, launch, host, gap, gatts, act, watched_run,
}
use esp_idf_matter.Ble.Nimble.Session.{start, session_and_flow_safe}
use esp_idf_matter.Ble.Nimble.Writes.{write-process_incoming, failed_copy-process_incoming}
use esp_idf_matter.Ble.Nimble.Wake.{after, await_run, await_act, incoming_act, no_lost_write}

-- A call that is noted by a number.
abbrev noting : ℕ → Exec EspError (List ℕ) (Unit {0})
noting n w = (ok tt, n ∷ w)

abbrev a_platform : (List ℕ → Exec EspError (List ℕ) ℕ) → Platform (List ℕ)
a_platform read_data = record {
  c2_uuid = 12;
  att_err_insufficient_res = 17;
  hs_edone = 14;
  conn_mode_und = 2;
  disc_mode_gen = 2;
  own_addr_public = 0;
  set_device_name = λ name. noting 1;
  start = noting 2;
  ensure_addr = λ b. noting 3;
  adv_set_data = λ bytes. noting 4;
  adv_start = λ i j k. noting 5;
  conn_find = λ k w. (ok 9, 6 ∷ w);
  att_mtu = λ k w. (ok 247, 7 ∷ w);
  read_data = read_data;
  indicate = λ k a bytes w. (ok tt, (record { indication = true; status = 0 } ∷ [], 8 ∷ w));
}

-- Payloads are copied out whole, or never.
abbrev platform : Platform (List ℕ)
platform = a_platform (λ payload buffer. (ok (length payload), payload))

abbrev no_mbufs : Platform (List ℕ)
no_mbufs = a_platform (λ payload buffer. (err 6, buffer))

-- An engine that notes what it is given and always sends one byte.
abbrev btp : Btp (List ℕ)
btp = record {
  reset = λ w. 100 ∷ w;
  process_incoming = λ size peer bytes w. (ok tt, bytes ++ 101 ∷ w);
  process_outgoing = λ size (buffer, w). (ok 1, (7 ∷ [], 102 ∷ w));
}

abbrev acts : List Action
acts =
    create
    ∷ launch [] []
    ∷ host sync
    ∷ outgoing
    ∷ gap (connected 3)
    ∷ gatts (subscription_changed 3 0 true)
    ∷ gatts (write (1 ∷ 2 ∷ []))
    ∷ incoming
    ∷ outgoing
    ∷ gatts (notify_complete (record { indication = true; status = 14 }))
    ∷ gap (disconnect 19)
    ∷ []

session_and_flow_safe_example :
    ((watched_run platform btp (start platform btp []) acts).world.stale_use ≡ false)
    × ((watched_run platform btp (start platform btp []) acts).world.in_flight ≤ 1)
session_and_flow_safe_example = session_and_flow_safe platform btp acts [] (omega arith)

abbrev a_connection : Connection
a_connection = record { peer = 9; conn_handle = 3; subscribed = true; mtu = none }

abbrev a_sys : Sys (List ℕ)
a_sys = record {
  ctx = record {
    state = record {
      connection = some a_connection;
      conn_gen = 1;
      btp_gen = some 1;
      in_data = [];
      out_data = [];
      need_advertise = false;
      adv_data = [];
    };
    out_nack = false;
    notify_process_incoming = false;
    notify_process_outgoing = false;
  };
  published = true;
  c2_val_handle = 22;
  world = [];
}

write-process_incoming_example :
    let (code, written) = gatts_hook platform (write (1 ∷ 2 ∷ [])) a_sys in
    let (processed, s') = process_incoming btp written in
    (code ≡ 0)
    × (written.world ≡ [])
    × (processed ≡ ok true)
    × (s'.world ≡ 1 ∷ 2 ∷ 101 ∷ [])
    × (s'.ctx.in_data ≡ [])
write-process_incoming_example =
    write-process_incoming platform btp a_sys a_connection (1 ∷ 2 ∷ []) (1 ∷ 2 ∷ []) 2
      (1 ∷ 2 ∷ 101 ∷ []) refl refl refl refl refl refl

-- 512 zeros are taken for a packet.
failed_copy-process_incoming_example :
    let (code, written) = gatts_hook no_mbufs (write (1 ∷ 2 ∷ [])) a_sys in
    (code ≡ 17)
    × ((process_incoming btp written).0 ≡ ok true)
    × ((process_incoming btp written).1.world ≡ resize 512 [] ++ 101 ∷ [])
    × (gatts_hook no_mbufs (write (3 ∷ [])) written ≡ (17, written))
failed_copy-process_incoming_example =
    failed_copy-process_incoming no_mbufs btp a_sys a_connection (1 ∷ 2 ∷ []) (resize 512 [])
      (3 ∷ []) 6 (resize 512 [] ++ 101 ∷ []) refl refl refl refl refl refl

-- The pump has found nothing and waits when the write comes.
abbrev late : List Action
late = incoming ∷ gatts (write (1 ∷ 2 ∷ [])) ∷ []

no_lost_write_example : (after platform btp a_sys late).sys.ctx.notify_process_incoming ≡ true
unfolding await_run await_act act gatts_hook process_incoming incoming_act
no_lost_write_example = no_lost_write platform btp (λ payload. tt) late a_sys refl refl refl
