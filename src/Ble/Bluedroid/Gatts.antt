-- ===== src/Ble/Bluedroid/Gatts.antt =====
-- ble/bluedroid.rs: `GattEventContext`, the handlers of the GAP and GATT server events.
use esp_idf_matter.Base.{
  ℕ, Bool, true, none, some, List, [], ◌∷◌, length, leb, ◌==◌, if◌then◌else◌, Exec, not, ok, err,
  panic, pure, raise, skip, ◌>>=◌, ◌>>◌,
}
use esp_idf_matter.Error.{EspError}
use esp_idf_matter.Ble.Bluedroid.State.{Sys, call, locked, on_state}
use esp_idf_matter.Ble.Bluedroid.Platform.{
  Status, success, failed, Platform, GapEvent, raw_advertising_configured, WriteRequest, GattsEvent,
  service_registered, service_created, characteristic_added, descriptor_added, service_deleted,
  service_unregistered, mtu, peer_connected, peer_disconnected, write, confirm,
}
use esp_idf_matter.Ble.Bluedroid.Changes.{
  forget_characteristics, forget_service, note_cccd, note_characteristic, note_mtu, open_connection,
  close_connection, note_write, note_confirm,
}

abbrev pub Handler : Type 0 → Type 0 → Type 0 → Type 0
Handler W R A = Exec EspError (Sys W R) A

module _ {W R : Type 0} where
  -- `service_adv_data.iter().collect::<Vec<_, 32>>()` panics where the data does not fit.
  unfoldable pub collect_adv_data : List ℕ → Handler W R (List ℕ)
  collect_adv_data bytes s = if leb (length bytes) 32 then (ok bytes, s) else (panic, s)

module _ {W R : Type 0} (p : Platform W R) where
  unfoldable pub check_bt_status : Status → Handler W R (Unit {0})
  check_bt_status success = skip
  check_bt_status (failed code) = raise p.esp_fail

  unfoldable pub check_gatt_status : Status → Handler W R (Unit {0})
  check_gatt_status success = skip
  check_gatt_status (failed code) = raise p.esp_fail

  unfoldable pub on_gap_event : GapEvent → Handler W R (Unit {0})
  unfolding check_bt_status
  on_gap_event (raw_advertising_configured status) = do
    check_bt_status status
    call p.start_advertising
  on_gap_event (GapEvent.other kind) = skip

  unfoldable pub create_service : ℕ → List ℕ → List ℕ → Handler W R (Unit {0})
  unfolding collect_adv_data
  create_service gatt_if service_name service_adv_data = do
    locked (on_state (λ s. record s { gatt_if = some gatt_if }))
    call (p.set_device_name service_name)
    bytes ← collect_adv_data service_adv_data
    call (p.set_raw_adv_conf bytes)
    call (p.create_service gatt_if (p.uuid16 p.matter_ble_service_uuid16) 0 true 8)

  unfoldable pub delete_service : ℕ → Handler W R (Unit {0})
  unfolding forget_characteristics
  delete_service service_handle = locked (on_state (forget_characteristics service_handle))

  unfoldable pub unregister_service : ℕ → Handler W R (Unit {0})
  unfolding forget_service
  unregister_service service_handle = locked (on_state (forget_service service_handle))

  unfoldable pub add_characteristics : ℕ → Handler W R (Unit {0})
  add_characteristics service_handle = do
    call (
        p.add_characteristic service_handle (record {
          uuid = p.uuid128 p.c1_characteristic_uuid;
          permissions = p.permission_write ∷ [];
          properties = p.property_write ∷ [];
          max_len = p.c1_max_len;
          auto_rsp = p.auto_response_by_app;
        }))
    call (
        p.add_characteristic service_handle (record {
          uuid = p.uuid128 p.c2_characteristic_uuid;
          permissions = p.permission_write ∷ p.permission_read ∷ [];
          properties = p.property_indicate ∷ [];
          max_len = p.c2_max_len;
          auto_rsp = p.auto_response_by_app;
        }))

  unfoldable pub configure_and_start_service : ℕ → Handler W R (Unit {0})
  unfolding add_characteristics
  configure_and_start_service service_handle = do
    locked (on_state (λ s. record s { service_handle = some service_handle }))
    call (p.start_service service_handle)
    add_characteristics service_handle

  unfoldable pub register_characteristic : ℕ → ℕ → ℕ → Handler W R (Unit {0})
  unfolding note_characteristic
  register_characteristic service_handle attr_handle char_uuid = do
    c2 ← locked (
        note_characteristic (char_uuid == p.uuid128 p.c1_characteristic_uuid)
          (char_uuid == p.uuid128 p.c2_characteristic_uuid) service_handle attr_handle)
    if c2
        then call (
            p.add_descriptor service_handle (record {
              uuid = p.uuid16 0x2902;
              permissions = p.permission_read ∷ p.permission_write ∷ [];
            }))
        else skip

  unfoldable pub register_cccd_descriptor : ℕ → ℕ → ℕ → Handler W R (Unit {0})
  unfolding note_cccd
  register_cccd_descriptor service_handle attr_handle descr_uuid =
      locked (on_state (note_cccd (descr_uuid == p.uuid16 0x2902) service_handle attr_handle))

  unfoldable pub register_conn_mtu : ℕ → ℕ → Handler W R (Unit {0})
  unfolding note_mtu
  register_conn_mtu conn_id value = locked (on_state (note_mtu conn_id value))

  unfoldable pub create_conn : ℕ → ℕ → Handler W R Bool
  unfolding open_connection
  create_conn conn_id addr = do
    done ← locked (open_connection conn_id addr)
    if done then call (p.set_conn_params_conf addr 10 20 0 400) else skip
    pure done

  unfoldable pub delete_conn : ℕ → Handler W R Bool
  unfolding close_connection
  delete_conn addr = locked (close_connection addr)

  -- The response to a prepared write echoes the value; it is built in the context.
  unfoldable pub prepare_response : WriteRequest → Handler W R R
  prepare_response r s =
      let (filled, response) = p.fill_response r.handle 0 r.offset r.value s.ctx.response in
      let s' : Sys W R = record s {
        ctx = record s.ctx { state = record s.ctx.state { response = response } };
      } in
      (elim filled [ ok _ ↦ ok response | err _ ↦ err p.esp_fail | panic ↦ panic ], s')

  unfoldable pub send_write_response : ℕ → WriteRequest → Handler W R (Unit {0})
  unfolding prepare_response
  send_write_response gatt_if r =
      if not r.need_rsp
      then skip
      else if r.is_prep
      then (do
        response ← prepare_response r
        call (p.send_response gatt_if r.conn_id r.trans_id success (some response)))
      else call (p.send_response gatt_if r.conn_id r.trans_id success none)

  unfoldable pub handle_write : ℕ → WriteRequest → Handler W R (Unit {0})
  unfolding note_write send_write_response
  handle_write gatt_if r = do
    respond ← locked (note_write r)
    if respond then send_write_response gatt_if r else skip

  unfoldable pub handle_confirm : Status → Handler W R (Unit {0})
  unfolding check_gatt_status note_confirm
  handle_confirm status = do check_gatt_status status; locked (λ c. (note_confirm c, tt))

  -- The application's id, the service's name and the advertising data come from `run`.
  unfoldable pub on_gatts_event : ℕ → List ℕ → List ℕ → ℕ → GattsEvent → Handler W R (Unit {0})
  unfolding check_gatt_status create_service delete_service unregister_service
      configure_and_start_service register_characteristic register_cccd_descriptor register_conn_mtu
      create_conn delete_conn handle_write handle_confirm
  on_gatts_event own_app_id service_name service_adv_data gatt_if
        (service_registered status app_id) =
      do
        check_gatt_status status
        if own_app_id == app_id then create_service gatt_if service_name service_adv_data else skip
  on_gatts_event own_app_id service_name service_adv_data gatt_if
        (service_created status service_handle) =
      do check_gatt_status status; configure_and_start_service service_handle
  on_gatts_event own_app_id service_name service_adv_data gatt_if
        (characteristic_added status attr_handle service_handle char_uuid) =
      do check_gatt_status status; register_characteristic service_handle attr_handle char_uuid
  on_gatts_event own_app_id service_name service_adv_data gatt_if
        (descriptor_added status attr_handle service_handle descr_uuid) =
      do check_gatt_status status; register_cccd_descriptor service_handle attr_handle descr_uuid
  on_gatts_event own_app_id service_name service_adv_data gatt_if
        (service_deleted status service_handle) =
      do check_gatt_status status; delete_service service_handle
  on_gatts_event own_app_id service_name service_adv_data gatt_if
        (service_unregistered status service_handle) =
      do check_gatt_status status; unregister_service service_handle
  on_gatts_event own_app_id service_name service_adv_data gatt_if (mtu conn_id value) =
      register_conn_mtu conn_id value
  on_gatts_event own_app_id service_name service_adv_data gatt_if (peer_connected conn_id addr) = do
    done ← create_conn conn_id addr
    if done then call p.stop_advertising else skip
  on_gatts_event own_app_id service_name service_adv_data gatt_if (peer_disconnected addr) = do
    done ← delete_conn addr
    if done then call p.start_advertising else skip
  on_gatts_event own_app_id service_name service_adv_data gatt_if (write r) = handle_write gatt_if r
  on_gatts_event own_app_id service_name service_adv_data gatt_if (confirm status) =
      handle_confirm status
  on_gatts_event own_app_id service_name service_adv_data gatt_if (GattsEvent.other kind) = skip
