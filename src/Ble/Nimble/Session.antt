-- ===== src/Ble/Nimble/Session.antt =====
-- Which BTP session the pumps of ble/nimble.rs use, and how many indications they send.
use esp_idf_matter.Base.{
  ℕ, suc, ◌+◌, ◌≤◌, ◌<◌, true, false, Option, none, some, List, [], ◌∷◌, ◌≡◌, is_some, is_some_of,
  length, take, not, ◌&&◌, Option-cases, inl, inr, Result, ok, err, panic, continue, arith,
}
use esp_idf_matter.Error.{ErrorCode}
use esp_idf_matter.Ble.Btp.{Btp, usize_mod}
use esp_idf_matter.Ble.Watch.{Watched, watch_btp}
use esp_idf_matter.Ble.Nimble.State.{Connection, Context, Context_new, Sys, reset}
use esp_idf_matter.Ble.Nimble.Platform.{
  Completion, Platform, HostEvent, sync, GapEvent, connected, connect_failed, disconnect, mtu,
  GattsEvent, register_characteristic, register_other, write, read, subscription_changed,
  notify_complete,
}
use esp_idf_matter.Ble.Nimble.Hooks.{host_hook, gap_hook, gatts_hook, note_completion}
use esp_idf_matter.Ble.Nimble.Pumps.{
  drop_peripheral, start_peripheral, complete, send_packet, send_nonempty, sync_btp, fetch_packet,
  outgoing_session, readvertise, outgoing_conn, outgoing_from, process_incoming, process_outgoing,
}
use esp_idf_matter.Ble.Nimble.System.{
  Action, create, drop, incoming, outgoing, launch, host, gap, gatts, act, any_done, watch_platform,
  watched_act, watched_run,
}

-- The generation of the BTP session, or 0.
abbrev pub gen : Option ℕ → ℕ
gen none = 0
gen (some g) = g

-- What holds after `n` actions.
pub record Inv {W : Type 0} (n : ℕ) (s : Sys (Watched W)) : Type 0 where
  pub clean : s.world.stale_use ≡ false
  pub current :
      is_some s.ctx.connection ≡ true
      → is_some_of s.ctx.btp_gen s.ctx.conn_gen ≡ true
      → s.world.fresh ≡ true
  pub behind : gen s.ctx.btp_gen ≤ s.ctx.conn_gen
  pub counted : s.ctx.conn_gen ≤ n
  pub single : s.world.in_flight ≤ 1
  pub marked : s.ctx.out_nack ≡ false → s.world.in_flight ≡ 0

module _ {W : Type 0} (p : Platform W) (btp : Btp W) where
  create-Inv : (n : ℕ) (s : Sys (Watched W)) → Inv n s → Inv n (watched_act p btp create s)
  unfolding watched_act act reset
  create-Inv n s h = ground arith

  launch-Inv :
      (name adv : List ℕ) (n : ℕ) (s : Sys (Watched W))
      → Inv n s
      → Inv n (watched_act p btp (launch name adv) s)
  unfolding watched_act act start_peripheral watch_platform
  launch-Inv name adv n s h = ground arith

  host-Inv :
      (e : HostEvent) (n : ℕ) (s : Sys (Watched W)) → Inv n s → Inv n (watched_act p btp (host e) s)
  unfolding watched_act act host_hook watch_platform
  host-Inv sync n s h = ground arith
  host-Inv (HostEvent.other kind) n s h = ground arith

  gap-Inv :
      (e : GapEvent) (n : ℕ) (s : Sys (Watched W))
      → suc n < usize_mod
      → Inv n s
      → Inv (suc n) (watched_act p btp (gap e) s)
  unfolding watched_act act gap_hook watch_platform
  gap-Inv (connected k) n s b h = ground arith
  gap-Inv (connect_failed k code) n s b h = ground arith
  gap-Inv (disconnect reason) n s b h = ground arith
  gap-Inv (mtu k v) n s b h = ground arith
  gap-Inv (GapEvent.other kind) n s b h = ground arith

  gatts-Inv :
      (e : GattsEvent) (n : ℕ) (s : Sys (Watched W))
      → Inv n s
      → Inv n (watched_act p btp (gatts e) s)
  unfolding watched_act act gatts_hook watch_platform
  gatts-Inv (register_characteristic u k) n s h = ground arith
  gatts-Inv (register_other k) n s h = ground arith
  gatts-Inv (write d) n s h = ground arith
  gatts-Inv (read a) n s h = ground arith
  gatts-Inv (subscription_changed k a b) n s h = ground arith
  gatts-Inv (notify_complete d) n s h = ground arith

  incoming-Inv : (n : ℕ) (s : Sys (Watched W)) → Inv n s → Inv n (watched_act p btp incoming s)
  unfolding watched_act act process_incoming watch_btp
  incoming-Inv n s h = ground arith

  -- The completions from within `indicate` clear `out_nack` if one of them counts.
  complete_lem :
      (ds : List Completion) (c : Context)
      → ((complete p ds c).state ≡ c.state)
        × ((complete p ds c).out_nack ≡ (c.out_nack && not (any_done p.hs_edone ds)))
  unfolding complete note_completion
  complete_lem [] c = ground arith
  complete_lem (d ∷ ds) c = ground (arith, complete_lem ds (note_completion p d c))

  send_packet-Inv :
      (k len n : ℕ) (s : Sys (Watched W))
      → s.ctx.out_nack ≡ false
      → Inv n s
      → Inv n (send_packet (watch_platform p) (watch_btp btp) k len s).1
  unfolding send_packet watch_platform
  send_packet-Inv k len n s e h = ground (
    arith,
    complete_lem (p.indicate k s.c2_val_handle (take len s.ctx.out_data) s.world.inner).1.0
        (record s.ctx { out_nack = true }),
  )

  sync_btp-Inv :
      (n : ℕ) (s : Sys (Watched W))
      → is_some s.ctx.connection ≡ true
      → Inv n s
      → Inv n (sync_btp (watch_btp btp) s) × ((sync_btp (watch_btp btp) s).world.fresh ≡ true)
  unfolding sync_btp watch_btp
  sync_btp-Inv n s e h = ground arith

  fetch_packet-Inv :
      (size : Option ℕ) (n : ℕ) (s : Sys (Watched W))
      → s.world.fresh ≡ true
      → Inv n s
      → Inv n (fetch_packet (watch_btp btp) size s).1
        × ((fetch_packet (watch_btp btp) size s).1.ctx.out_nack ≡ s.ctx.out_nack)
  unfolding fetch_packet watch_btp
  fetch_packet-Inv size n s e h = ground arith

  send_nonempty-Inv :
      (k n : ℕ) (r : Result ErrorCode ℕ) (s : Sys (Watched W))
      → s.ctx.out_nack ≡ false
      → Inv n s
      → Inv n (continue r (send_nonempty (watch_platform p) (watch_btp btp) k) s).1
  unfolding send_nonempty
  send_nonempty-Inv k n (ok len) s e h = ground (arith, send_packet-Inv k len n s e h)
  send_nonempty-Inv k n (err code) s e h = h
  send_nonempty-Inv k n panic s e h = h

  outgoing_session-Inv :
      (conn : Connection) (n : ℕ) (s : Sys (Watched W))
      → s.world.fresh ≡ true
      → Inv n s
      → Inv n (outgoing_session (watch_platform p) (watch_btp btp) conn s).1
  unfolding outgoing_session
  outgoing_session-Inv conn n s e h =
      let fetched = fetch_packet (watch_btp btp) conn.mtu s in
      ground (
        arith,
        fetch_packet-Inv conn.mtu n s e h,
        send_nonempty-Inv conn.conn_handle n fetched.0 fetched.1,
      )

  readvertise-Inv :
      (n : ℕ) (s : Sys (Watched W)) → Inv n s → Inv n (readvertise (watch_platform p) s)
  unfolding readvertise watch_platform
  readvertise-Inv n s h = ground arith

  outgoing_conn-Inv :
      (conn : Connection) (n : ℕ) (s : Sys (Watched W))
      → is_some s.ctx.connection ≡ true
      → Inv n s
      → Inv n (outgoing_conn (watch_platform p) (watch_btp btp) conn s).1
  unfolding outgoing_conn
  outgoing_conn-Inv conn n s e h =
      let (k, f) = sync_btp-Inv n s e h in
      ground (arith, outgoing_session-Inv conn n (sync_btp (watch_btp btp) s) f k)

  outgoing_from-Inv :
      (n : ℕ) (s : Sys (Watched W))
      → Inv n s
      → Inv n (outgoing_from (watch_platform p) (watch_btp btp) s).1
  unfolding outgoing_from
  outgoing_from-Inv n s h = elim (Option-cases s.ctx.connection) [
    | inl e ↦ rw (e, outgoing_from) h
    | inr (conn, e) ↦ rw (e, outgoing_from) (outgoing_conn-Inv conn n s (ground arith) h)
  ]

  outgoing-Inv : (n : ℕ) (s : Sys (Watched W)) → Inv n s → Inv n (watched_act p btp outgoing s)
  unfolding watched_act act process_outgoing
  outgoing-Inv n s h =
      outgoing_from-Inv n (readvertise (watch_platform p) s) (readvertise-Inv n s h)

  weaken : (n : ℕ) (s : Sys (Watched W)) → Inv n s → Inv (suc n) s
  weaken n s h = ground arith

  drop-Inv : (n : ℕ) (s : Sys (Watched W)) → Inv n s → Inv n (watched_act p btp drop s)
  unfolding watched_act act drop_peripheral
  drop-Inv n s h = ground arith

  watched_act-Inv :
      (a : Action) (n : ℕ) (s : Sys (Watched W))
      → suc n < usize_mod
      → Inv n s
      → Inv (suc n) (watched_act p btp a s)
  watched_act-Inv create n s b h = weaken n _ (create-Inv n s h)
  watched_act-Inv drop n s b h = weaken n _ (drop-Inv n s h)
  watched_act-Inv incoming n s b h = weaken n _ (incoming-Inv n s h)
  watched_act-Inv outgoing n s b h = weaken n _ (outgoing-Inv n s h)
  watched_act-Inv (launch name adv) n s b h = weaken n _ (launch-Inv name adv n s h)
  watched_act-Inv (host e) n s b h = weaken n _ (host-Inv e n s h)
  watched_act-Inv (gap e) n s b h = gap-Inv e n s b h
  watched_act-Inv (gatts e) n s b h = weaken n _ (gatts-Inv e n s h)

  watched_run-Inv :
      (acts : List Action) (n : ℕ) (s : Sys (Watched W))
      → n + length acts < usize_mod
      → Inv n s
      → Inv (n + length acts) (watched_run p btp s acts)
  unfolding watched_run
  watched_run-Inv [] n s b h = let e : n + 0 ≡ n = omega arith in rw e h
  watched_run-Inv (a ∷ acts) n s b h =
      let e : n + suc (length acts) ≡ suc n + length acts = omega arith in
      rw e (
        watched_run-Inv acts (suc n) (watched_act p btp a s) (omega arith)
          (watched_act-Inv a n s (omega arith) h))

  -- A context just made, with the statics at their initial values, in the world `w`.
  abbrev pub start : W → Sys (Watched W)
  start w = record {
    ctx = Context_new;
    published = false;
    c2_val_handle = 0;
    world = record { inner = w; fresh = false; stale_use = false; in_flight = 0 };
  }

  start-Inv : (w : W) → Inv 0 (start w)
  unfolding Context_new
  start-Inv w = ground arith

  -- Over fewer than 2 ^ 32 events, rounds of the two pumps, launches and drops, in any order, and
  -- whatever the driver and the BTP engine return, the pumps hand no packet to the BTP engine, and
  -- take none from it, unless it was reset since the latest connection was made; and at most one
  -- indication is in flight, also where completions are delivered from within `indicate`.
  pub session_and_flow_safe :
      (acts : List Action) (w : W)
      → length acts < usize_mod
      → ((watched_run p btp (start w) acts).world.stale_use ≡ false)
        × ((watched_run p btp (start w) acts).world.in_flight ≤ 1)
  session_and_flow_safe acts w b =
      let h = watched_run-Inv acts 0 (start w) (omega arith) (start-Inv w) in (h.clean, h.single)
