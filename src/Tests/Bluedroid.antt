-- ===== src/Tests/Bluedroid.antt =====
-- The peripheral of ble/bluedroid.rs over a world that is the list of the calls made.
use esp_idf_matter.Base.{ℕ, ◌≤◌, true, false, none, some, List, [], ◌∷◌, ◌≡◌, refl, Exec, ok, arith}
use esp_idf_matter.Error.{EspError}
use esp_idf_matter.Ble.Btp.{Btp}
use esp_idf_matter.Ble.Bluedroid.State.{Connection, Context, Sys}
use esp_idf_matter.Ble.Bluedroid.Platform.{
  Platform, WriteRequest, success, service_registered, characteristic_added, descriptor_added,
  peer_connected, write, confirm, mtu,
}
use esp_idf_matter.Ble.Bluedroid.Gatts.{handle_write, on_gatts_event}
use esp_idf_matter.Ble.Bluedroid.Pumps.{process_incoming}
use esp_idf_matter.Ble.Bluedroid.System.{
  Config, Action, restart, incoming, outgoing, gatts, act, watched_run,
}
use esp_idf_matter.Ble.Bluedroid.Session.{start, session_safe}
use esp_idf_matter.Ble.Bluedroid.Writes.{IsAnswered, write_cccd_lem, write_c1-process_incoming}
use esp_idf_matter.Ble.Bluedroid.Wake.{after, await_run, await_act, no_lost_packet}

-- A call that is noted by a number.
abbrev noting : ℕ → Exec EspError (List ℕ) (Unit {0})
noting n w = (ok tt, n ∷ w)

abbrev platform : Platform (List ℕ) (Unit {0})
platform = record {
  esp_fail = 1;
  uuid16 = λ n. n;
  uuid128 = λ n. n;
  matter_ble_service_uuid16 = 0xfff6;
  c1_characteristic_uuid = 11;
  c2_characteristic_uuid = 12;
  c1_max_len = 512;
  c2_max_len = 512;
  permission_read = 1;
  permission_write = 16;
  property_write = 8;
  property_indicate = 32;
  auto_response_by_app = 0;
  fill_response = λ handle auth offset value r. (ok tt, r);
  set_device_name = λ name. noting 1;
  set_raw_adv_conf = λ bytes. noting 2;
  start_advertising = noting 3;
  stop_advertising = noting 4;
  set_conn_params_conf = λ a i j k l. noting 5;
  create_service = λ i u n b k. noting 6;
  start_service = λ h. noting 7;
  add_characteristic = λ h c. noting 8;
  add_descriptor = λ h d. noting 9;
  indicate = λ i c h d. noting 10;
  send_response = λ i c t st r. noting 11;
}

-- An engine that notes what it is given and always sends one byte.
abbrev btp : Btp (List ℕ)
btp = record {
  reset = λ w. 100 ∷ w;
  process_incoming = λ size peer bytes w. (ok tt, 101 ∷ w);
  process_outgoing = λ size (buffer, w). (ok 1, (7 ∷ [], 102 ∷ w));
}

abbrev conf : Config
conf = record { app_id = 1; service_name = []; adv_data = [] }

abbrev a_write : ℕ → List ℕ → WriteRequest
a_write handle value = record {
  conn_id = 3;
  trans_id = 5;
  addr = 9;
  handle = handle;
  offset = 0;
  need_rsp = true;
  is_prep = false;
  value = value;
}

-- A peer connects, subscribes and writes; the pumps run.
abbrev acts : List Action
acts =
    gatts 4 (service_registered success 1)
    ∷ gatts 4 (characteristic_added success 21 20 11)
    ∷ gatts 4 (characteristic_added success 22 20 12)
    ∷ gatts 4 (descriptor_added success 23 20 0x2902)
    ∷ gatts 4 (peer_connected 3 9)
    ∷ gatts 4 (mtu 3 247)
    ∷ gatts 4 (write (a_write 21 (1 ∷ 2 ∷ [])))
    ∷ incoming
    ∷ outgoing
    ∷ gatts 4 (confirm success)
    ∷ restart
    ∷ []

session_safe_example :
    ((watched_run platform btp conf (start platform btp conf [] tt) acts).world.stale_use ≡ false)
    × ((watched_run platform btp conf (start platform btp conf [] tt) acts).world.in_flight ≤ 1)
session_safe_example = session_safe platform btp conf acts [] tt (omega arith)

abbrev a_connection : Connection
a_connection = record { peer = 9; conn_id = 3; subscribed = false; mtu = some 247 }

abbrev a_context : Context (Unit {0})
a_context = record {
  state = record {
    gatt_if = some 4;
    service_handle = some 20;
    c1_handle = some 21;
    c2_handle = some 22;
    c2_cccd_handle = some 23;
    connection = some a_connection;
    conn_gen = 1;
    btp_gen = none;
    in_data = [];
    in_trans = 0;
    out_data = [];
    out_nack = false;
    response = tt;
  };
  notify_process_incoming = false;
  notify_process_outgoing = false;
}

abbrev a_sys : Sys (List ℕ) (Unit {0})
a_sys = record { ctx = a_context; world = [] }

abbrev a_subscription : WriteRequest
a_subscription = record (a_write 23 (2 ∷ 0 ∷ [])) { need_rsp = true }

write_cccd_lem_example :
    let (result, s') = handle_write platform 4 a_subscription a_sys in
    (s'.ctx.connection ≡ some (record a_connection { subscribed = true }))
    × (s'.ctx.notify_process_outgoing ≡ true)
    × (s'.ctx.in_data ≡ [])
    × IsAnswered platform 4 a_subscription true a_context result [] s'.world
write_cccd_lem_example =
    write_cccd_lem platform a_sys a_connection a_subscription 4 2 0 refl refl refl refl refl

write_c1-process_incoming_example :
    let (processed, s') =
      process_incoming platform btp (handle_write platform 4 (a_write 21 (1 ∷ 2 ∷ [])) a_sys).1 in
    ((handle_write platform 4 (a_write 21 (1 ∷ 2 ∷ [])) a_sys).1.world ≡ [])
    × (processed ≡ ok true)
    × (s'.world ≡ 11 ∷ 101 ∷ 100 ∷ [])
    × (s'.ctx.in_data ≡ [])
write_c1-process_incoming_example =
    write_c1-process_incoming platform btp a_sys a_connection (a_write 21 (1 ∷ 2 ∷ [])) 4
      (101 ∷ 100 ∷ []) (11 ∷ 101 ∷ 100 ∷ []) refl refl refl refl refl (omega arith) (omega arith)
      refl refl

-- The pump has found nothing and waits when the write comes.
abbrev late : List Action
late = incoming ∷ gatts 4 (write (a_write 21 (1 ∷ 2 ∷ []))) ∷ []

late_waits : (after platform btp conf a_sys late).waiting ≡ true
unfolding await_run await_act process_incoming
late_waits = refl

no_lost_packet_example : (after platform btp conf a_sys late).sys.ctx.notify_process_incoming ≡ true
unfolding await_run await_act act on_gatts_event process_incoming
no_lost_packet_example = no_lost_packet platform btp conf late a_sys late_waits refl refl
