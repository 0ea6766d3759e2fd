-- ===== src/Button/Held.antt =====
-- The waits for the BOOT button against the level of its pin over time.
use esp_idf_matter.Base.{
  ℕ, zero, suc, ◌+◌, ◌-◌, ◌*◌, ◌≤◌, Bool, true, not, ◌&&◌, some, ◌≡◌, ◌<◌, ◌↔◌, ◌⊎◌, inl, inr, refl,
  Result, ok, err, panic, NoPanic, leave, Rounds, Rounds-repeat, repeat-Rounds, arith,
}
use esp_idf_matter.Error.{EspError, ErrorCode, to_net_error}
use esp_idf_matter.Button.{
  Pin, reset_secs, check_held, if_low, reset_round, pin_low_round, wait_reset, wait_pin_low,
}

-- Whether the level is low for so many milliseconds from a time on.
unfoldable pub is_low_for : (ℕ → Bool) → ℕ → ℕ → Bool
is_low_for level start zero = true
is_low_for level start (suc n) = not (level start) && is_low_for level (suc start) n

-- The pin was low without a break for the last three seconds.
abbrev pub HeldUntil : (ℕ → Bool) → ℕ → Type 0
HeldUntil level end =
    (start : ℕ) × (n : ℕ) × (start + n ≡ end) × (3000 ≤ n) × (is_low_for level start n ≡ true)

module _ {W : Type 0} (pin : Pin W) (now : W → ℕ) (level : ℕ → Bool)
    (no_panic : (w : W) → NoPanic (pin.wait_for_low w).0)
    (lasts : (secs : ℕ) (w : W)
      → (pin.high_or_after_secs secs w).0 ≡ true
      → let w' = (pin.high_or_after_secs secs w).1 in
        (now w + secs * 1000 ≤ now w') × (is_low_for level (now w) (now w' - now w) ≡ true)) where
  -- From that state on the button is held through the debounce and the time after it.
  abbrev pub IsPress : W → Result ErrorCode (Unit {0}) → W → Type 0
  IsPress w r w' =
      (pin.is_low (pin.after_millis 50 w) ≡ true)
      × (pin.high_or_after_secs reset_secs (pin.after_millis 50 w) ≡ (true, w'))
      × (r ≡ ok tt)
      × HeldUntil level (now w')

  -- A round that ends the wait.
  abbrev pub IsLast : W → Result ErrorCode (Unit {0}) → W → Type 0
  IsLast w r w' =
      ((e : EspError) × (pin.wait_for_low w ≡ (err e, w'))
        × (r ≡ err ErrorCode.no_network_interface))
      ⊎ ((u : W) × (pin.wait_for_low w ≡ (ok tt, u)) × IsPress u r w')

  check_held-IsPress :
      (w w' : W) (r : Result ErrorCode (Unit {0})) → check_held pin w ≡ leave r w' → IsPress w r w'
  unfolding check_held
  check_held-IsPress w w' r e =
      let w1 = pin.after_millis 50 w in
      (
        ground arith,
        ground arith,
        ground arith,
        (
          now w1,
          now w' - now w1,
          ground (arith, lasts 3 w1),
          ground (arith, lasts 3 w1),
          ground (arith, lasts 3 w1),
        ),
      )

  IsPress-check_held :
      (w w' : W) (r : Result ErrorCode (Unit {0})) → IsPress w r w' → check_held pin w ≡ leave r w'
  unfolding check_held
  IsPress-check_held w w' r (low, held, fine, until) = ground arith

  if_low-IsLast :
      (x : Result EspError (Unit {0}) × W) (w w' : W) (r : Result ErrorCode (Unit {0}))
      → pin.wait_for_low w ≡ x
      → NoPanic x.0
      → if_low pin x ≡ leave r w'
      → IsLast w r w'
  unfolding if_low to_net_error
  if_low-IsLast (ok x, u) w w' r a h e = inr (u, a, check_held-IsPress u w' r e)
  if_low-IsLast (err x, u) w w' r a h e = inl (x, ground arith, ground arith)
  if_low-IsLast (panic, u) w w' r a h e = absurd h

  IsLast-if_low :
      (w w' : W) (r : Result ErrorCode (Unit {0}))
      → IsLast w r w'
      → if_low pin (pin.wait_for_low w) ≡ leave r w'
  unfolding if_low to_net_error
  IsLast-if_low w w' r (inl (e, a, b)) = ground arith
  IsLast-if_low w w' r (inr (u, a, b)) = rw a (IsPress-check_held u w' r b)

  -- Where a timer of some seconds that comes before a rise of the pin shows that the pin was low
  -- for that long: within some rounds `wait_reset` ends exactly where one of them fails to wait,
  -- with a network error then, or finds the button held through the debounce and three seconds
  -- more, without a break; it resolves then.
  pub wait_reset_lem :
      (rounds : ℕ) (w w' : W) (r : Result ErrorCode (Unit {0}))
      → (wait_reset pin rounds w ≡ some (r, w'))
        ↔ ((n : ℕ) × (t : W) × (n < rounds) × Rounds (reset_round pin) n w t × IsLast t r w')
  unfolding wait_reset reset_round
  wait_reset_lem rounds w w' r = (
    λ ended.
        let (n, t, m, rs, f) = Rounds-repeat (reset_round pin) rounds w w' r ended in
        (n, t, m, rs, if_low-IsLast (pin.wait_for_low t) t w' r refl (no_panic t) f),
    λ (n, t, m, rs, last).
        repeat-Rounds (reset_round pin) n rounds w t w' r m rs (IsLast-if_low t w' r last),
  )

  -- `wait_pin_low` ends only after a hold, whatever the waits for the pin return.
  wait_pin_low-HeldUntil :
      (rounds : ℕ) (w w' : W) (r : Result ErrorCode (Unit {0}))
      → wait_pin_low pin rounds w ≡ some (r, w')
      → (r ≡ ok tt) × HeldUntil level (now w')
  unfolding wait_pin_low pin_low_round
  wait_pin_low-HeldUntil rounds w w' r ended =
      let (n, t, m, rs, f) = Rounds-repeat (pin_low_round pin) rounds w w' r ended in
      let (low, timer, fine, held) = check_held-IsPress (pin.wait_for_low t).1 w' r f in
      (fine, held)
