-- ===== src/Ble/Bluedroid/Wake.antt =====
-- How the incoming pump of ble/bluedroid.rs waits for its signal.
use esp_idf_matter.Base.{
  ℕ, Bool, true, false, not, ◌&&◌, List, [], ◌∷◌, ◌≡◌, is_some, if◌then◌else◌, Result, ok, err,
  panic, arith,
}
use esp_idf_matter.Error.{ErrorCode}
use esp_idf_matter.Ble.Btp.{Btp}
use esp_idf_matter.Ble.Bluedroid.State.{Sys}
use esp_idf_matter.Ble.Bluedroid.Platform.{
  Platform, success, failed, GapEvent, raw_advertising_configured, GattsEvent, service_registered,
  service_created, characteristic_added, descriptor_added, service_deleted, service_unregistered,
  mtu, peer_connected, peer_disconnected, write, confirm,
}
use esp_idf_matter.Ble.Bluedroid.Gatts.{on_gap_event, on_gatts_event}
use esp_idf_matter.Ble.Bluedroid.Pumps.{is_empty, process_incoming, process_outgoing}
use esp_idf_matter.Ble.Bluedroid.System.{
  Config, Action, restart, incoming, outgoing, gap, gatts, act,
}

-- The peripheral with the incoming pump: whether it stands at `wait_signalled`.
pub record Awaiting (W R : Type 0) : Type 0 where
  pub sys : Sys W R
  pub waiting : Bool

-- A round that processed nothing is followed by the wait.
unfoldable pub to_wait : Result ErrorCode Bool → Bool
to_wait (ok processed) = not processed
to_wait (err e) = false
to_wait panic = false

module _ {W R : Type 0} where
  abbrev take_signal : Sys W R → Sys W R
  take_signal s = record s { ctx = record s.ctx { notify_process_incoming = false } }

-- What the incoming pump may not miss: it waits, and yet there is a packet of the peer.
pub record Alert {W R : Type 0} (a : Awaiting W R) : Type 0 where
  pub alert :
      a.waiting ≡ true
      → is_some a.sys.ctx.connection ≡ true
      → is_empty a.sys.ctx.in_data ≡ false
      → a.sys.ctx.notify_process_incoming ≡ true

module _ {W R : Type 0} (p : Platform W R) (btp : Btp W) (conf : Config) where
  incoming_act : Awaiting W R → Awaiting W R
  incoming_act a =
      if a.waiting && not a.sys.ctx.notify_process_incoming
      then a
      else (let (r, s) = process_incoming p btp (if a.waiting then take_signal a.sys else a.sys) in
          record { sys = s; waiting = to_wait r })

  -- The incoming pump goes on only when its signal is set, and takes the signal then.
  unfoldable pub await_act : Action → Awaiting W R → Awaiting W R
  unfolding incoming_act to_wait
  await_act restart a = record { sys = act p btp conf restart a.sys; waiting = false }
  await_act incoming a = incoming_act a
  await_act e a = record a { sys = act p btp conf e a.sys }

  unfoldable pub await_run : Awaiting W R → List Action → Awaiting W R
  await_run a [] = a
  await_run a (e ∷ rest) = await_run (await_act e a) rest

  incoming-Alert : (a : Awaiting W R) → Alert a → Alert (await_act incoming a)
  unfolding await_act process_incoming
  incoming-Alert a h = ground arith

  outgoing-Alert : (a : Awaiting W R) → Alert a → Alert (await_act outgoing a)
  unfolding await_act act process_outgoing
  outgoing-Alert a h = ground arith

  gatts-Alert :
      (i : ℕ) (e : GattsEvent) (a : Awaiting W R) → Alert a → Alert (await_act (gatts i e) a)
  unfolding await_act act on_gatts_event
  gatts-Alert i (service_registered success app_id) a h = ground arith
  gatts-Alert i (service_registered (failed c) app_id) a h = ground arith
  gatts-Alert i (service_created success k) a h = ground arith
  gatts-Alert i (service_created (failed c) k) a h = ground arith
  gatts-Alert i (characteristic_added success x k u) a h = ground arith
  gatts-Alert i (characteristic_added (failed c) x k u) a h = ground arith
  gatts-Alert i (descriptor_added success x k u) a h = ground arith
  gatts-Alert i (descriptor_added (failed c) x k u) a h = ground arith
  gatts-Alert i (service_deleted success k) a h = ground arith
  gatts-Alert i (service_deleted (failed c) k) a h = ground arith
  gatts-Alert i (service_unregistered success k) a h = ground arith
  gatts-Alert i (service_unregistered (failed c) k) a h = ground arith
  gatts-Alert i (confirm success) a h = ground arith
  gatts-Alert i (confirm (failed c)) a h = ground arith
  gatts-Alert i (mtu c v) a h = ground arith
  gatts-Alert i (peer_connected c x) a h = ground arith
  gatts-Alert i (peer_disconnected x) a h = ground arith
  gatts-Alert i (write r) a h = ground arith
  gatts-Alert i (GattsEvent.other k) a h = ground arith

  gap-Alert : (e : GapEvent) (a : Awaiting W R) → Alert a → Alert (await_act (gap e) a)
  unfolding await_act act on_gap_event
  gap-Alert (raw_advertising_configured success) a h = ground arith
  gap-Alert (raw_advertising_configured (failed code)) a h = ground arith
  gap-Alert (GapEvent.other kind) a h = ground arith

  await_act-Alert : (e : Action) (a : Awaiting W R) → Alert a → Alert (await_act e a)
  await_act-Alert restart a h = unfold await_act in ground arith
  await_act-Alert incoming a h = incoming-Alert a h
  await_act-Alert outgoing a h = outgoing-Alert a h
  await_act-Alert (gap e) a h = gap-Alert e a h
  await_act-Alert (gatts i e) a h = gatts-Alert i e a h

  await_run-Alert : (acts : List Action) (a : Awaiting W R) → Alert a → Alert (await_run a acts)
  unfolding await_run
  await_run-Alert [] a h = h
  await_run-Alert (e ∷ acts) a h = await_run-Alert acts (await_act e a) (await_act-Alert e a h)

  -- The peripheral in the state `s`, its pumps just started, after the actions.
  abbrev pub after : Sys W R → List Action → Awaiting W R
  after s acts = await_run (record { sys = s; waiting = false }) acts

  -- No wake-up is lost: after any events, rounds of the pumps and restarts, in any order, if the
  -- incoming pump waits for its signal while a packet is in the buffer and a peer is connected,
  -- then its signal is set, so that its next round runs.
  pub no_lost_packet :
      (acts : List Action) (s : Sys W R)
      → (after s acts).waiting ≡ true
      → is_some (after s acts).sys.ctx.connection ≡ true
      → is_empty (after s acts).sys.ctx.in_data ≡ false
      → (after s acts).sys.ctx.notify_process_incoming ≡ true
  no_lost_packet acts s =
      (await_run-Alert acts (record { sys = s; waiting = false }) (ground arith)).alert
