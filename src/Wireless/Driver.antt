-- ===== src/Wireless/Driver.antt =====
-- wireless/thread.rs, `EspMatterThread` as `ThreadDriver`: how the Thread stack is brought up for a
-- task and put to rest after it. The making of the driver and its calls are parameters.
pub mod Order
use esp_idf_matter.Base.{
  ℕ, Bool, true, false, Option, none, some, List, [], ◌∷◌, Exec, Result, ok, err, panic, skip,
  ◌>>=◌, ◌>>◌,
}
use esp_idf_matter.Error.{EspError, ErrorCode}
use esp_idf_matter.Wireless.Icd.{EspThread, IcdNetParams, net, configure_sed}

pub record Driver (W : Type 0) : Type 0 where
  -- `EspThread::new`.
  pub new : Exec EspError W (Unit {0})
  pub set_tod : List ℕ → Exec EspError W (Unit {0})
  pub enable_ipv6 : Bool → Exec EspError W (Unit {0})
  pub srp_autostart : Exec EspError W (Unit {0})
  pub srp_stop : Exec EspError W (Unit {0})
  pub start : Exec EspError W (Unit {0})
  pub enable_thread : Bool → Exec EspError W (Unit {0})
  -- The setters that `configure_sed` calls.
  pub settings : EspThread W

module _ {W : Type 0} (esp : Driver W) where
  unfoldable pub configure : Option IcdNetParams → Exec ErrorCode W (Unit {0})
  unfolding configure_sed
  configure none = skip
  configure (some icd) = configure_sed esp.settings icd

  -- `run` up to the start of the task.
  unfoldable pub bring_up : Option IcdNetParams → Exec ErrorCode W (Unit {0})
  unfolding configure
  bring_up icd = do
    net esp.new
    net (esp.set_tod [])
    configure icd
    net (esp.enable_ipv6 true)
    net esp.srp_autostart
    net esp.start

  -- `ThreadQuiesce`'s drop.
  unfoldable pub quiesce : W → W
  quiesce w = (esp.enable_ipv6 false (esp.srp_stop (esp.enable_thread false w).1).1).1

  -- The guard is there once the stack is up, so that it drops after the task.
  unfoldable pub guarded :
      (W → Option (Result ErrorCode (Unit {0})) × W)
      → Result ErrorCode (Unit {0})
      → W
      → Option (Result ErrorCode (Unit {0})) × W
  unfolding quiesce
  guarded task (ok x) w = let (outcome, w') = task w in (outcome, quiesce w')
  guarded task (err e) w = (some (err e), w)
  guarded task panic w = (some panic, w)

  -- `run`: the task and the loop of `run_icd` beside it, which end with a result or are dropped.
  unfoldable pub run :
      Option IcdNetParams
      → (W → Option (Result ErrorCode (Unit {0})) × W)
      → W
      → Option (Result ErrorCode (Unit {0})) × W
  unfolding bring_up guarded
  run icd task w = let (r, w') = bring_up icd w in guarded task r w'
