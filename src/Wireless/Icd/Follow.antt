-- ===== src/Wireless/Icd/Follow.antt =====
-- How `run_icd` follows the parameters of the ICD.
use esp_idf_matter.Base.{
  ℕ, ◌+◌, ◌≡◌, ◌⊎◌, Option, none, some, List, [], ◌∷◌, if◌then◌else◌, ok, err, Exec,
}
use esp_idf_matter.Error.{EspError}
use esp_idf_matter.Wireless.Icd.{
  IcdNetParams, is_applied, child_timeout_s, child_supervision_check_timeout_s,
}

-- What OpenThread holds: the three settings that the ICD programs, and how often it set the last.
pub record Settings : Type 0 where
  pub poll_period : ℕ
  pub check_timeout : ℕ
  pub child_timeout : ℕ
  pub programmed : ℕ

-- A call that takes its effect, or fails.
abbrev pub Sets :
    {W : Type 0} → (W → Settings) → Exec EspError W (Unit {0}) → (Settings → Settings) → Type 0
Sets view m update =
    (w : _)
    → (((m w).0 ≡ ok tt) × (view (m w).1 ≡ update (view w))) ⊎ ((e : EspError) × ((m w).0 ≡ err e))

-- The settings that follow from parameters.
abbrev pub settings_of : IcdNetParams → ℕ → Settings
settings_of params n = record {
  poll_period = params.poll_interval_ms;
  check_timeout = child_supervision_check_timeout_s params.poll_interval_ms;
  child_timeout = child_timeout_s params.max_poll_interval_ms;
  programmed = n;
}

abbrev pub Synced : Option IcdNetParams → Settings → Type 0
Synced none s = Unit
Synced (some params) s = s ≡ settings_of params s.programmed

-- How often the parameters change.
abbrev pub changes : Option IcdNetParams → List IcdNetParams → ℕ
changes applied [] = 0
changes applied (params ∷ later) =
    (if is_applied applied params then 0 else 1) + changes (some params) later

abbrev pub last : IcdNetParams → List IcdNetParams → IcdNetParams
last params [] = params
last params (next ∷ later) = last next later
