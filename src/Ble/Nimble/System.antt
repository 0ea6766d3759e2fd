-- ===== src/Ble/Nimble/System.antt =====
-- The peripheral of ble/nimble.rs as a whole: the hooks and the rounds of the two pumps, in any
-- order, and under the instruments.
use esp_idf_matter.Base.{ℕ, Bool, false, not, ◌&&◌, ◌||◌, List, [], ◌∷◌, ◌==◌, if◌then◌else◌}
use esp_idf_matter.Ble.Btp.{Btp}
use esp_idf_matter.Ble.Watch.{Watched, beside, count_ok, watch_btp}
use esp_idf_matter.Ble.Nimble.State.{Sys, reset, on_ctx}
use esp_idf_matter.Ble.Nimble.Platform.{
  Completion, Platform, HostEvent, GapEvent, connected, disconnect, GattsEvent, notify_complete,
}
use esp_idf_matter.Ble.Nimble.Hooks.{host_hook, gap_hook, gatts_hook}
use esp_idf_matter.Ble.Nimble.Pumps.{
  drop_peripheral, start_peripheral, process_incoming, process_outgoing,
}

-- One thing that happens to the peripheral. `create` resets the context, `launch` is the part of
-- `run` before the pumps, with the service's name and the advertising data.
pub data Action : Type 0 where
  create drop incoming outgoing : Action
  launch : List ℕ → List ℕ → Action
  host : HostEvent → Action
  gap : GapEvent → Action
  gatts : GattsEvent → Action

module _ {W : Type 0} (p : Platform W) (btp : Btp W) where
  unfoldable pub act : Action → Sys W → Sys W
  act create s = on_ctx reset s
  act drop s = drop_peripheral s
  act (launch name adv_data) s = (start_peripheral p name adv_data s).1
  act incoming s = (process_incoming btp s).1
  act outgoing s = (process_outgoing p btp s).1
  act (host e) s = host_hook p e s
  act (gap e) s = (gap_hook p e s).1
  act (gatts e) s = (gatts_hook p e s).1

-- A completion that ends the indication in flight.
abbrev pub is_done : ℕ → Completion → Bool
is_done edone done = done.indication && ((done.status == edone) || not (done.status == 0))

abbrev pub any_done : ℕ → List Completion → Bool
any_done edone [] = false
any_done edone (done ∷ rest) = is_done edone done || any_done edone rest

module _ {W : Type 0} where
  unfoldable pub watch_platform : Platform W → Platform (Watched W)
  watch_platform p = record {
    c2_uuid = p.c2_uuid;
    att_err_insufficient_res = p.att_err_insufficient_res;
    hs_edone = p.hs_edone;
    conn_mode_und = p.conn_mode_und;
    disc_mode_gen = p.disc_mode_gen;
    own_addr_public = p.own_addr_public;
    set_device_name = λ n. beside (p.set_device_name n);
    start = beside p.start;
    ensure_addr = λ b. beside (p.ensure_addr b);
    adv_set_data = λ d. beside (p.adv_set_data d);
    adv_start = λ i j k. beside (p.adv_start i j k);
    conn_find = λ h. beside (p.conn_find h);
    att_mtu = λ h. beside (p.att_mtu h);
    read_data = p.read_data;
    indicate = λ h k d w.
        let (r, (completions, inner)) = p.indicate h k d w.inner in
        (
          r,
          (
            completions,
            record w {
              inner = inner;
              in_flight = if any_done p.hs_edone completions then 0 else count_ok r w.in_flight;
            },
          ),
        );
  }

module _ {W : Type 0} (p : Platform W) (btp : Btp W) where
  abbrev pub outdated : Sys (Watched W) → Sys (Watched W)
  outdated s = record s { world = record s.world { fresh = false; in_flight = 0 } }

  abbrev pub settled : Sys (Watched W) → Sys (Watched W)
  settled s = record s { world = record s.world { in_flight = 0 } }

  -- The instruments' part of an action: a new peripheral, and a connection that a running one
  -- makes, outdate the session and what was in flight; a disconnection and a completion end the
  -- latter.
  abbrev pub observe : Action → Bool → Sys (Watched W) → Sys (Watched W)
  observe create running s = outdated s
  observe (gap (connected conn_handle)) running s = if running then outdated s else s
  observe (gap (disconnect reason)) running s = if running then settled s else s
  observe (gatts (notify_complete done)) running s =
      if running && is_done p.hs_edone done then settled s else s
  observe a running s = s

  unfoldable pub watched_act : Action → Sys (Watched W) → Sys (Watched W)
  watched_act a s = observe a s.published (act (watch_platform p) (watch_btp btp) a s)

  unfoldable pub watched_run : Sys (Watched W) → List Action → Sys (Watched W)
  watched_run s [] = s
  watched_run s (a ∷ rest) = watched_run (watched_act a s) rest
