-- ===== src/Wireless/Driver/Order.antt =====
-- The order in which wireless/thread.rs brings the Thread stack up and puts it to rest.
use esp_idf_matter.Base.{
  ℕ, Bool, true, false, List, [], ◌∷◌, ◌++◌, ◌≡◌, Exec, Result, ok, not, ◌||◌, is_ok,
}
use esp_idf_matter.Error.{ErrorCode}
use esp_idf_matter.Wireless.Driver.{Driver}

-- The calls that matter here.
pub data Call : Type 0 where
  set_tod : List ℕ → Call
  enable_ipv6 enable_thread : Bool → Call
  srp_autostart srp_stop start : Call

-- The world with the calls so far, the last one first, and whether a call has failed.
pub record Logged (W : Type 0) : Type 0 where
  pub world : W
  pub calls : List Call
  pub is_failed : Bool

module _ {E W A : Type 0} where
  abbrev pub noted : List Call → Exec E W A → Exec E (Logged W) A
  noted call m s =
      let (r, w) = m s.world in
      (r, record { world = w; calls = call ++ s.calls; is_failed = s.is_failed || not (is_ok r) })

  abbrev pub silent : Exec E W A → Exec E (Logged W) A
  silent = noted []

module _ {W : Type 0} where
  unfoldable pub logged : Driver W → Driver (Logged W)
  logged esp = record {
    new = silent esp.new;
    set_tod = λ bytes. noted (Call.set_tod bytes ∷ []) (esp.set_tod bytes);
    enable_ipv6 = λ b. noted (Call.enable_ipv6 b ∷ []) (esp.enable_ipv6 b);
    srp_autostart = noted (Call.srp_autostart ∷ []) esp.srp_autostart;
    srp_stop = noted (Call.srp_stop ∷ []) esp.srp_stop;
    start = noted (Call.start ∷ []) esp.start;
    enable_thread = λ b. noted (Call.enable_thread b ∷ []) (esp.enable_thread b);
    settings = record {
      set_link_mode = λ a b c. silent (esp.settings.set_link_mode a b c);
      set_poll_period = λ v. silent (esp.settings.set_poll_period v);
      set_child_supervision_check_timeout =
          λ v. silent (esp.settings.set_child_supervision_check_timeout v);
      set_child_timeout = λ v. silent (esp.settings.set_child_timeout v);
    };
  }

abbrev pub at_rest : List Call
at_rest = Call.enable_ipv6 false ∷ Call.srp_stop ∷ Call.enable_thread false ∷ []

-- The whole way up: the dataset is dropped first, then IPv6, SRP and the stack are started.
abbrev pub all_up : List Call
all_up = Call.start ∷ Call.srp_autostart ∷ Call.enable_ipv6 true ∷ Call.set_tod [] ∷ []

-- Whether the calls are a part of the way up, from its begin.
unfoldable pub is_way_up : List Call → Bool
is_way_up [] = true
is_way_up (Call.set_tod [] ∷ []) = true
is_way_up (Call.enable_ipv6 true ∷ Call.set_tod [] ∷ []) = true
is_way_up (Call.srp_autostart ∷ Call.enable_ipv6 true ∷ Call.set_tod [] ∷ []) = true
is_way_up (Call.start ∷ Call.srp_autostart ∷ Call.enable_ipv6 true ∷ Call.set_tod [] ∷ []) = true
is_way_up _ = false

module _ {W : Type 0} (esp : Driver W) where
  abbrev pub unused : W → Logged W
  unused w = record { world = w; calls = []; is_failed = false }

  -- Where the way up ends: at its end without a failure, or at the first failure.
  IsUp : Result ErrorCode (Unit {0}) → Logged W → Type 0
  IsUp (ok t) s = (s.calls ≡ all_up) × (s.is_failed ≡ false)
  IsUp r s = (is_way_up s.calls ≡ true) × (s.is_failed ≡ true)
