-- ===== src/Netif/Notif.antt =====
-- netif.rs: `EspMatterNetif::wait_changed` and `wait_any_conf_change`.
use esp_idf_matter.Base.{
  ℕ, zero, suc, Bool, true, false, Option, none, some, List, Exec, Result, ok, err, panic, ◌>>=◌,
  ◌>>◌,
}
use esp_idf_matter.Error.{EspError}
use esp_idf_matter.Netif.Info.{InterfaceTypeEnum}
use esp_idf_matter.Netif.Conf.{EspNetif, Loaded, load}

-- `EspNetifAccess`: the interface, and whether the L2 protocol is connected once it can be reached;
-- and the system event loop.
pub record Access (W : Type 0) : Type 0 where
  pub netif : EspNetif W
  pub hw_addr : W → Option (List ℕ)
  pub access : Exec EspError W Bool
  pub subscribe_ip_events : Exec EspError W (Unit {0})
  -- Until the first event or the end of a timer of so many seconds.
  pub wait_event_or_timer : ℕ → W → W

abbrev pub timeout_period_secs : ℕ
timeout_period_secs = 5

module _ {W : Type 0} (a : Access W) where
  unfoldable pub wait_any_conf_change : Exec EspError W (Unit {0})
  wait_any_conf_change = do
    a.subscribe_ip_events
    (λ w. (ok tt, a.wait_event_or_timer timeout_period_secs w))

module _ {W : Type 0} (a : Access W) (netif_type : InterfaceTypeEnum) where
  -- One query of the interface: whether the cache changed. An error counts as no change.
  unfoldable pub refresh : Exec EspError (Loaded W) Bool
  refresh s =
      let hw_addr = a.hw_addr s.world in
      (do
        l2_connected ← (λ t. let (r, w) = a.access t.world in (r, record t { world = w }))
        load a.netif l2_connected netif_type hw_addr)
        s

  abbrev pub idle : Loaded W → Loaded W
  idle s = record s { world = (wait_any_conf_change a s.world).1 }

  -- What a query means for the loop: a change ends it, a panic too, else it goes on.
  unfoldable pub conclude :
      Result EspError Bool
      → Loaded W
      → Option (Result EspError (Unit {0}) × Loaded W)
      → Option (Result EspError (Unit {0}) × Loaded W)
  conclude (ok true) s later = some (ok tt, s)
  conclude (ok false) s later = later
  conclude (err e) s later = later
  conclude panic s later = some (panic, s)

  -- `wait_changed` over at most so many rounds; `none` when it still waits after them.
  unfoldable pub wait_changed : ℕ → Loaded W → Option (Result EspError (Unit {0}) × Loaded W)
  unfolding conclude
  wait_changed zero s = none
  wait_changed (suc rounds) s =
      let (r, s') = refresh s in let later = wait_changed rounds (idle s') in conclude r s' later
