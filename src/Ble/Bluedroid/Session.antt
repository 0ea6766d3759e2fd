-- ===== src/Ble/Bluedroid/Session.antt =====
-- Which BTP session the pumps of ble/bluedroid.rs use.
use esp_idf_matter.Base.{
  ℕ, suc, ◌+◌, ◌≤◌, ◌<◌, true, false, Option, none, some, List, [], ◌∷◌, ◌≡◌, is_some, is_some_of,
  length, arith,
}
use esp_idf_matter.Ble.Btp.{Btp, usize_mod, max_mtu_size}
use esp_idf_matter.Ble.Watch.{Watched, watch_btp}
use esp_idf_matter.Ble.Bluedroid.State.{Context_new, Sys, reset}
use esp_idf_matter.Ble.Bluedroid.Platform.{
  Platform, success, failed, GapEvent, raw_advertising_configured, GattsEvent, service_registered,
  service_created, characteristic_added, descriptor_added, service_deleted, service_unregistered,
  mtu, peer_connected, peer_disconnected, write, confirm,
}
use esp_idf_matter.Ble.Bluedroid.Gatts.{on_gap_event, on_gatts_event}
use esp_idf_matter.Ble.Bluedroid.Pumps.{process_incoming, process_outgoing}
use esp_idf_matter.Ble.Bluedroid.System.{
  Config, Action, restart, incoming, outgoing, gap, gatts, act, watch_platform, watched_act,
  watched_run,
}

-- The generation of the BTP session, or 0.
abbrev pub gen : Option ℕ → ℕ
gen none = 0
gen (some g) = g

-- What holds after `n` actions.
pub record Inv {W R : Type 0} (n : ℕ) (s : Sys (Watched W) R) : Type 0 where
  pub clean : s.world.stale_use ≡ false
  pub current :
      is_some s.ctx.connection ≡ true
      → is_some_of s.ctx.btp_gen s.ctx.conn_gen ≡ true
      → s.world.fresh ≡ true
  pub behind : gen s.ctx.btp_gen ≤ s.ctx.conn_gen
  pub counted : s.ctx.conn_gen ≤ n
  pub single : s.world.in_flight ≤ 1
  pub marked : s.ctx.out_nack ≡ false → s.world.in_flight ≡ 0
  pub fits : length s.ctx.in_data ≤ max_mtu_size

module _ {W R : Type 0} (p : Platform W R) (btp : Btp W) (conf : Config) where
  gap-Inv :
      (e : GapEvent) (n : ℕ) (s : Sys (Watched W) R)
      → Inv n s
      → Inv n (act (watch_platform p) (watch_btp btp) conf (gap e) s)
  unfolding act on_gap_event watch_platform
  gap-Inv (raw_advertising_configured success) n s h = ground arith
  gap-Inv (raw_advertising_configured (failed code)) n s h = ground arith
  gap-Inv (GapEvent.other kind) n s h = ground arith

  incoming-Inv :
      (n : ℕ) (s : Sys (Watched W) R)
      → Inv n s
      → Inv n (act (watch_platform p) (watch_btp btp) conf incoming s)
  unfolding act process_incoming watch_platform watch_btp
  incoming-Inv n s h = ground arith

  outgoing-Inv :
      (n : ℕ) (s : Sys (Watched W) R)
      → Inv n s
      → Inv n (act (watch_platform p) (watch_btp btp) conf outgoing s)
  unfolding act process_outgoing watch_platform watch_btp
  outgoing-Inv n s h = ground arith

  gatts-Inv :
      (i : ℕ) (e : GattsEvent) (n : ℕ) (s : Sys (Watched W) R)
      → suc n < usize_mod
      → Inv n s
      → Inv (suc n) (watched_act p btp conf (gatts i e) s)
  unfolding watched_act act on_gatts_event watch_platform
  gatts-Inv i (service_registered success app_id) n s b h = ground arith
  gatts-Inv i (service_registered (failed c) app_id) n s b h = ground arith
  gatts-Inv i (service_created success k) n s b h = ground arith
  gatts-Inv i (service_created (failed c) k) n s b h = ground arith
  gatts-Inv i (characteristic_added success a k u) n s b h = ground arith
  gatts-Inv i (characteristic_added (failed c) a k u) n s b h = ground arith
  gatts-Inv i (descriptor_added success a k u) n s b h = ground arith
  gatts-Inv i (descriptor_added (failed c) a k u) n s b h = ground arith
  gatts-Inv i (service_deleted success k) n s b h = ground arith
  gatts-Inv i (service_deleted (failed c) k) n s b h = ground arith
  gatts-Inv i (service_unregistered success k) n s b h = ground arith
  gatts-Inv i (service_unregistered (failed c) k) n s b h = ground arith
  gatts-Inv i (mtu c v) n s b h = ground arith
  gatts-Inv i (peer_connected c a) n s b h = ground arith
  gatts-Inv i (peer_disconnected a) n s b h = ground arith
  gatts-Inv i (write r) n s b h = ground arith
  gatts-Inv i (confirm success) n s b h = ground arith
  gatts-Inv i (confirm (failed c)) n s b h = ground arith
  gatts-Inv i (GattsEvent.other k) n s b h = ground arith

  watched_act-Inv :
      (a : Action) (n : ℕ) (s : Sys (Watched W) R)
      → suc n < usize_mod
      → Inv n s
      → Inv (suc n) (watched_act p btp conf a s)
  unfolding watched_act
  watched_act-Inv restart n s b h = unfold act reset in ground arith
  watched_act-Inv incoming n s b h = ground (arith, incoming-Inv n s h)
  watched_act-Inv outgoing n s b h = ground (arith, outgoing-Inv n s h)
  watched_act-Inv (gap e) n s b h = ground (arith, gap-Inv e n s h)
  watched_act-Inv (gatts i e) n s b h = gatts-Inv i e n s b h

  watched_run-Inv :
      (acts : List Action) (n : ℕ) (s : Sys (Watched W) R)
      → n + length acts < usize_mod
      → Inv n s
      → Inv (n + length acts) (watched_run p btp conf s acts)
  unfolding watched_run
  watched_run-Inv [] n s b h = let e : n + 0 ≡ n = omega arith in rw e h
  watched_run-Inv (a ∷ acts) n s b h =
      let e : n + suc (length acts) ≡ suc n + length acts = omega arith in
      rw e (
        watched_run-Inv acts (suc n) (watched_act p btp conf a s) (omega arith)
          (watched_act-Inv a n s (omega arith) h))

  -- The peripheral just created, its world `w`.
  abbrev pub start : W → R → Sys (Watched W) R
  start w r = record {
    ctx = Context_new r;
    world = record { inner = w; fresh = false; stale_use = false; in_flight = 0 };
  }

  start-Inv : (w : W) (r : R) → Inv 0 (start w r)
  unfolding Context_new
  start-Inv w r = ground arith

  -- Over fewer than 2 ^ 32 events, rounds of the two pumps and restarts, in any order, and whatever
  -- the drivers and the BTP engine return, the pumps hand no packet to the BTP engine, and take
  -- none from it, unless it was reset since the latest connection was made; and of the indications
  -- sent on a connection at most one is not confirmed.
  pub session_safe :
      (acts : List Action) (w : W) (r : R)
      → length acts < usize_mod
      → ((watched_run p btp conf (start w r) acts).world.stale_use ≡ false)
        × ((watched_run p btp conf (start w r) acts).world.in_flight ≤ 1)
  session_safe acts w r b =
      let h = watched_run-Inv acts 0 (start w r) (omega arith) (start-Inv w r) in
      (h.clean, h.single)
