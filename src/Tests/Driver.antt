-- ===== src/Tests/Driver.antt =====
-- The Thread driver of wireless/thread.rs over a world without content.
use esp_idf_matter.Base.{ℕ, true, Option, none, ◌∷◌, Exec, Result, ok, err}
use esp_idf_matter.Error.{EspError, ErrorCode}
use esp_idf_matter.Wireless.Driver.{Driver}
use esp_idf_matter.Wireless.Driver.Order.{Call, Logged}

abbrev fine : Exec EspError ℕ (Unit {0})
fine w = (ok tt, w)

abbrev driver : Driver ℕ
driver = record {
  new = fine;
  set_tod = λ bytes. fine;
  enable_ipv6 = λ b. fine;
  srp_autostart = fine;
  srp_stop = λ w. (err 3, w);
  start = fine;
  enable_thread = λ b. fine;
  settings = record {
    set_link_mode = λ a b c. fine;
    set_poll_period = λ v. fine;
    set_child_supervision_check_timeout = λ v. fine;
    set_child_timeout = λ v. fine;
  };
}

-- A task that joins a network and is dropped.
abbrev joins : Logged ℕ → Option (Result ErrorCode (Unit {0})) × Logged ℕ
joins s = (none, record s { calls = Call.enable_thread true ∷ s.calls })
