-- ===== src/Ble/Bluedroid/System.antt =====
-- The peripheral of ble/bluedroid.rs as a whole: the events and the rounds of the two pumps, in any
-- order, and instruments that record what the pumps do to the BTP engine.
use esp_idf_matter.Base.{ℕ, false, List, [], ◌∷◌, is_some, if◌then◌else◌}
use esp_idf_matter.Ble.Btp.{Btp}
use esp_idf_matter.Ble.Watch.{Watched, beside, count_ok, watch_btp}
use esp_idf_matter.Ble.Bluedroid.State.{Sys, reset}
use esp_idf_matter.Ble.Bluedroid.Platform.{
  Platform, GapEvent, GattsEvent, peer_connected, confirm, success,
}
use esp_idf_matter.Ble.Bluedroid.Gatts.{on_gap_event, on_gatts_event}
use esp_idf_matter.Ble.Bluedroid.Pumps.{process_incoming, process_outgoing}

-- What `run` is given.
pub record Config : Type 0 where
  pub app_id : ℕ
  pub service_name : List ℕ
  pub adv_data : List ℕ

-- One thing that happens to the peripheral; `restart` is its creation anew over the same context.
pub data Action : Type 0 where
  restart incoming outgoing : Action
  gap : GapEvent → Action
  gatts : ℕ → GattsEvent → Action

module _ {W R : Type 0} (p : Platform W R) (btp : Btp W) (conf : Config) where
  unfoldable pub act : Action → Sys W R → Sys W R
  act restart s = record s { ctx = reset s.ctx }
  act incoming s = (process_incoming p btp s).1
  act outgoing s = (process_outgoing p btp s).1
  act (gap e) s = (on_gap_event p e s).1
  act (gatts gatt_if e) s =
      (on_gatts_event p conf.app_id conf.service_name conf.adv_data gatt_if e s).1

module _ {W R : Type 0} where
  unfoldable pub watch_platform : Platform W R → Platform (Watched W) R
  watch_platform p = record {
    esp_fail = p.esp_fail;
    uuid16 = p.uuid16;
    uuid128 = p.uuid128;
    matter_ble_service_uuid16 = p.matter_ble_service_uuid16;
    c1_characteristic_uuid = p.c1_characteristic_uuid;
    c2_characteristic_uuid = p.c2_characteristic_uuid;
    c1_max_len = p.c1_max_len;
    c2_max_len = p.c2_max_len;
    permission_read = p.permission_read;
    permission_write = p.permission_write;
    property_write = p.property_write;
    property_indicate = p.property_indicate;
    auto_response_by_app = p.auto_response_by_app;
    fill_response = p.fill_response;
    set_device_name = λ n. beside (p.set_device_name n);
    set_raw_adv_conf = λ d. beside (p.set_raw_adv_conf d);
    start_advertising = beside p.start_advertising;
    stop_advertising = beside p.stop_advertising;
    set_conn_params_conf = λ a i j k l. beside (p.set_conn_params_conf a i j k l);
    create_service = λ i u n b k. beside (p.create_service i u n b k);
    start_service = λ h. beside (p.start_service h);
    add_characteristic = λ h c. beside (p.add_characteristic h c);
    add_descriptor = λ h d. beside (p.add_descriptor h d);
    indicate = λ i c h d w.
        let (r, inner) = p.indicate i c h d w.inner in
        (r, record w { inner = inner; in_flight = count_ok r w.in_flight });
    send_response = λ i c t st r. beside (p.send_response i c t st r);
  }

module _ {W R : Type 0} (p : Platform W R) (btp : Btp W) (conf : Config) where
  abbrev pub outdated : Sys (Watched W) R → Sys (Watched W) R
  outdated s = record s { world = record s.world { fresh = false; in_flight = 0 } }

  abbrev pub confirmed : Sys (Watched W) R → Sys (Watched W) R
  confirmed s = record s { world = record s.world { in_flight = 0 } }

  -- An action under the instruments: a new connection, or a new peripheral, outdates the session
  -- and what was in flight; a confirmation ends the indication in flight.
  unfoldable pub watched_act : Action → Sys (Watched W) R → Sys (Watched W) R
  watched_act restart s = outdated (act (watch_platform p) (watch_btp btp) conf restart s)
  watched_act (gatts gatt_if (peer_connected conn_id addr)) s =
      let s' =
        act (watch_platform p) (watch_btp btp) conf (gatts gatt_if (peer_connected conn_id addr))
          s in
      if is_some s.ctx.connection then s' else outdated s'
  watched_act (gatts gatt_if (confirm success)) s =
      confirmed (act (watch_platform p) (watch_btp btp) conf (gatts gatt_if (confirm success)) s)
  watched_act a s = act (watch_platform p) (watch_btp btp) conf a s

  unfoldable pub watched_run : Sys (Watched W) R → List Action → Sys (Watched W) R
  watched_run s [] = s
  watched_run s (a ∷ rest) = watched_run (watched_act a s) rest
