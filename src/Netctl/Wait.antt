-- ===== src/Netctl/Wait.antt =====
-- When `wait_changed` of thread.rs and of wifi.rs ends.
use esp_idf_matter.Base.{
  ℕ, zero, suc, ◌<◌, ◌≡◌, refl, Bool, true, false, not, ◌&&◌, Exec, none, some, Result, ok, arith,
}
use esp_idf_matter.Error.{EspError}
use esp_idf_matter.Netctl.Flag.{Ctl, fetch_operational, wait_changed}

abbrev is_same : Result EspError Bool → Bool
is_same (ok false) = true
is_same _ = false

module _ {W : Type 0} (fetch : Exec EspError W Bool) (wait : W → W) where
  abbrev waited : Ctl W → Ctl W
  waited s = record s { world = wait s.world }

  -- The state after so many queries, each with its wait.
  unfoldable pub after_queries : ℕ → Ctl W → Ctl W
  after_queries zero s = s
  after_queries (suc n) s = after_queries n (waited (fetch_operational fetch wait s).1)

  -- Whether that many queries find no change.
  unfoldable pub is_quiet_for : ℕ → Ctl W → Bool
  is_quiet_for zero s = true
  is_quiet_for (suc n) s =
      is_same (fetch_operational fetch wait s).0
      && is_quiet_for n (waited (fetch_operational fetch wait s).1)

  -- A query changes the flag exactly when it says so.
  fetch_flag :
      (s : Ctl W)
      → ((fetch_operational fetch wait s).0 ≡ ok true
          → (fetch_operational fetch wait s).1.operational ≡ not s.operational)
        × (is_same (fetch_operational fetch wait s).0 ≡ true
            → (fetch_operational fetch wait s).1.operational ≡ s.operational)
  unfolding fetch_operational
  fetch_flag s = ground arith

  wait_step :
      (n : ℕ) (s : Ctl W)
      → is_same (fetch_operational fetch wait s).0 ≡ true
      → wait_changed fetch wait (suc n) s
        ≡ wait_changed fetch wait n (waited (fetch_operational fetch wait s).1)
  unfolding wait_changed
  wait_step n s h = ground arith

  wait_end :
      (n : ℕ) (s : Ctl W)
      → (fetch_operational fetch wait s).0 ≡ ok true
      → wait_changed fetch wait (suc n) s ≡ some (ok tt, (fetch_operational fetch wait s).1)
  unfolding wait_changed
  wait_end n s h = ground arith

  -- `wait_changed` ends with the first query that finds the operational state changed, given the
  -- queries to reach it, and the flag is then the opposite of what it was.
  pub wait_changed_ends :
      (n queries : ℕ) (s : Ctl W)
      → n < queries
      → is_quiet_for n s ≡ true
      → (fetch_operational fetch wait (after_queries n s)).0 ≡ ok true
      → let s' = (fetch_operational fetch wait (after_queries n s)).1 in
        (wait_changed fetch wait queries s ≡ some (ok tt, s'))
        × (s'.operational ≡ not s.operational)
  unfolding is_quiet_for after_queries
  wait_changed_ends n zero s enough quiet change = absurd (omega arith)
  wait_changed_ends zero (suc queries) s enough quiet change =
      (wait_end queries s change, (fetch_flag s).0 change)
  wait_changed_ends (suc n) (suc queries) s enough quiet change =
      let flag = fetch_flag s in
      let step = wait_step queries s in
      let later =
        wait_changed_ends n queries (waited (fetch_operational fetch wait s).1) (omega arith)
          (ground arith) change in
      ground arith

  -- It goes on while no query finds a change.
  pub wait_changed_waits :
      (queries : ℕ) (s : Ctl W)
      → is_quiet_for queries s ≡ true
      → wait_changed fetch wait queries s ≡ none
  unfolding is_quiet_for wait_changed
  wait_changed_waits zero s quiet = refl
  wait_changed_waits (suc queries) s quiet =
      ground (arith, wait_changed_waits queries (waited (fetch_operational fetch wait s).1))
