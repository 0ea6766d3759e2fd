-- ===== src/Ble/Nimble/Wake.antt =====
-- How the pumps of ble/nimble.rs wait for their signals.
use esp_idf_matter.Base.{
  ℕ, Bool, true, false, not, ◌&&◌, List, [], ◌∷◌, ◌≡◌, is_some, if◌then◌else◌, IsOk, resize, Result,
  ok, err, panic, arith,
}
use esp_idf_matter.Error.{ErrorCode}
use esp_idf_matter.Ble.Btp.{Btp, max_mtu_size}
use esp_idf_matter.Ble.Nimble.State.{Sys}
use esp_idf_matter.Ble.Nimble.Platform.{
  Platform, HostEvent, sync, GapEvent, connected, connect_failed, disconnect, mtu, GattsEvent,
  register_characteristic, register_other, write, read, subscription_changed, notify_complete,
}
use esp_idf_matter.Ble.Nimble.Hooks.{is_empty, host_hook, gap_hook, gatts_hook}
use esp_idf_matter.Ble.Nimble.Frame.{process_outgoing_done}
use esp_idf_matter.Ble.Nimble.Pumps.{drop_peripheral, process_incoming, process_outgoing}
use esp_idf_matter.Ble.Nimble.System.{
  Action, create, drop, incoming, outgoing, launch, host, gap, gatts, act,
}

-- The peripheral with its pumps: whether each stands at its wait.
pub record Awaiting (W : Type 0) : Type 0 where
  pub sys : Sys W
  pub waiting_incoming : Bool
  pub waiting_outgoing : Bool

-- A round that processed nothing is followed by the wait.
unfoldable pub to_wait : Result ErrorCode Bool → Bool
to_wait (ok processed) = not processed
to_wait (err e) = false
to_wait panic = false

-- What the pumps may not miss while they wait: a packet of a connected peer, and a request to
-- advertise.
pub record Alert {W : Type 0} (a : Awaiting W) : Type 0 where
  pub packet :
      a.waiting_incoming ≡ true
      → is_some a.sys.ctx.connection ≡ true
      → is_empty a.sys.ctx.in_data ≡ false
      → a.sys.ctx.notify_process_incoming ≡ true
  pub advertising :
      a.waiting_outgoing ≡ true
      → a.sys.ctx.need_advertise ≡ true
      → a.sys.ctx.notify_process_outgoing ≡ true

module _ {W : Type 0} where
  abbrev take_incoming : Sys W → Sys W
  take_incoming s = record s { ctx = record s.ctx { notify_process_incoming = false } }

  abbrev woken_outgoing : Awaiting W → Sys W
  woken_outgoing a =
      if a.waiting_outgoing
      then record a.sys { ctx = record a.sys.ctx { notify_process_outgoing = false } }
      else a.sys

module _ {W : Type 0} (p : Platform W) (btp : Btp W) where
  unfoldable pub incoming_act : Awaiting W → Awaiting W
  unfolding to_wait
  incoming_act a =
      if a.waiting_incoming && not a.sys.ctx.notify_process_incoming
      then a
      else (let (r, s) =
            process_incoming btp (if a.waiting_incoming then take_incoming a.sys else a.sys) in
          record a { sys = s; waiting_incoming = to_wait r })

  -- The outgoing pump also goes on when the engine has something to send; its signal is taken then
  -- too, which is the worse case for a pump that may not miss it.
  unfoldable pub outgoing_act : Awaiting W → Awaiting W
  outgoing_act a =
      let (r, s) = process_outgoing p btp (woken_outgoing a) in
      record a { sys = s; waiting_outgoing = to_wait r }

  -- A pump goes on from its wait when its signal is set, and takes the signal then. A peripheral
  -- made or launched anew has pumps that do not wait yet.
  unfoldable pub await_act : Action → Awaiting W → Awaiting W
  await_act create a = record {
    sys = act p btp create a.sys;
    waiting_incoming = false;
    waiting_outgoing = false;
  }
  await_act (launch name adv_data) a = record {
    sys = act p btp (launch name adv_data) a.sys;
    waiting_incoming = false;
    waiting_outgoing = false;
  }
  await_act incoming a = incoming_act a
  await_act outgoing a = outgoing_act a
  await_act e a = record a { sys = act p btp e a.sys }

  unfoldable pub await_run : Awaiting W → List Action → Awaiting W
  await_run a [] = a
  await_run a (e ∷ rest) = await_run (await_act e a) rest

  incoming-Alert : (a : Awaiting W) → Alert a → Alert (incoming_act a)
  unfolding incoming_act process_incoming
  incoming-Alert a h = ground arith

  outgoing-Alert : (a : Awaiting W) → Alert a → Alert (outgoing_act a)
  unfolding outgoing_act
  outgoing-Alert a h = ground (arith, process_outgoing_done p btp (woken_outgoing a))

  -- The peripheral in the state `s`, its pumps just started, after the actions.
  abbrev pub after : Sys W → List Action → Awaiting W
  after s acts =
      await_run (record { sys = s; waiting_incoming = false; waiting_outgoing = false }) acts

-- `data.read` copies every payload out; ATT limits a payload to the 512 bytes of the buffer.
abbrev pub AlwaysReads : {W : Type 0} → Platform W → Type 0
AlwaysReads p = (payload : List ℕ) → IsOk (p.read_data payload (resize max_mtu_size [])).0

module _ {W : Type 0} (p : Platform W) (btp : Btp W) (reads : AlwaysReads p) where
  gap-Alert : (e : GapEvent) (a : Awaiting W) → Alert a → Alert (await_act p btp (gap e) a)
  unfolding await_act act gap_hook
  gap-Alert (connected k) a h = ground arith
  gap-Alert (connect_failed k code) a h = ground arith
  gap-Alert (disconnect reason) a h = ground arith
  gap-Alert (mtu k v) a h = ground arith
  gap-Alert (GapEvent.other kind) a h = ground arith

  gatts-Alert : (e : GattsEvent) (a : Awaiting W) → Alert a → Alert (await_act p btp (gatts e) a)
  unfolding await_act act gatts_hook
  gatts-Alert (register_characteristic u k) a h = ground arith
  gatts-Alert (register_other k) a h = ground arith
  gatts-Alert (write d) a h = ground (arith, reads d)
  gatts-Alert (read x) a h = ground arith
  gatts-Alert (subscription_changed k x b) a h = ground arith
  gatts-Alert (notify_complete d) a h = ground arith

  await_act-Alert : (e : Action) (a : Awaiting W) → Alert a → Alert (await_act p btp e a)
  await_act-Alert create a h = unfold await_act in ground arith
  await_act-Alert drop a h = unfold await_act act drop_peripheral in ground arith
  await_act-Alert incoming a h = unfold await_act in incoming-Alert p btp a h
  await_act-Alert outgoing a h = unfold await_act in outgoing-Alert p btp a h
  await_act-Alert (launch name adv) a h = unfold await_act in ground arith
  await_act-Alert (host sync) a h = unfold await_act act host_hook in ground arith
  await_act-Alert (host (HostEvent.other kind)) a h = unfold await_act act host_hook in ground arith
  await_act-Alert (gap e) a h = gap-Alert e a h
  await_act-Alert (gatts e) a h = gatts-Alert e a h

  await_run-Alert : (acts : List Action) (a : Awaiting W) → Alert a → Alert (await_run p btp a acts)
  unfolding await_run
  await_run-Alert [] a h = h
  await_run-Alert (e ∷ acts) a h =
      await_run-Alert acts (await_act p btp e a) (await_act-Alert e a h)

  -- No packet is missed, provided that every payload can be copied out: after any events, rounds of
  -- the pumps, launches and drops, in any order, if the incoming pump waits while a packet is in
  -- the buffer and a peer is connected, then its signal is set.
  pub no_lost_write :
      (acts : List Action) (s : Sys W)
      → (after p btp s acts).waiting_incoming ≡ true
      → is_some (after p btp s acts).sys.ctx.connection ≡ true
      → is_empty (after p btp s acts).sys.ctx.in_data ≡ false
      → (after p btp s acts).sys.ctx.notify_process_incoming ≡ true
  no_lost_write acts s =
      (await_run-Alert acts (record { sys = s; waiting_incoming = false; waiting_outgoing = false })
        (ground arith)).packet

  -- No request to advertise is missed, provided that every payload can be copied out: after any
  -- events, rounds of the pumps, launches and drops, in any order, if the outgoing pump waits while
  -- advertising is requested, then its signal is set.
  pub no_lost_advertising :
      (acts : List Action) (s : Sys W)
      → (after p btp s acts).waiting_outgoing ≡ true
      → (after p btp s acts).sys.ctx.need_advertise ≡ true
      → (after p btp s acts).sys.ctx.notify_process_outgoing ≡ true
  no_lost_advertising acts s =
      (await_run-Alert acts (record { sys = s; waiting_incoming = false; waiting_outgoing = false })
        (ground arith)).advertising
