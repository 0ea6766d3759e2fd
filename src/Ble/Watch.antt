-- ===== src/Ble/Watch.antt =====
-- Instruments over the BTP engine, which record what the pumps do to it. They serve the theorems
-- about both peripherals and are no part of the code.
use esp_idf_matter.Base.{ℕ, suc, Bool, true, not, ◌||◌, Exec, Result, ok, err, panic}
use esp_idf_matter.Ble.Btp.{Btp}

-- The world with two flags, whether the BTP session was reset since the last connection was made,
-- and whether the engine was ever used when it was not, and with the number of indications that
-- were sent on the connection and not confirmed.
pub record Watched (W : Type 0) : Type 0 where
  pub inner : W
  pub fresh : Bool
  pub stale_use : Bool
  pub in_flight : ℕ

module _ {W E A : Type 0} where
  abbrev pub beside : Exec E W A → Exec E (Watched W) A
  beside m w = let (r, inner) = m w.inner in (r, record w { inner = inner })

module _ {E A : Type 0} where
  abbrev pub count_ok : Result E A → ℕ → ℕ
  count_ok (ok a) n = suc n
  count_ok (err e) n = n
  count_ok panic n = n

module _ {W : Type 0} where
  abbrev pub used : Watched W → Watched W
  used w = record w { stale_use = w.stale_use || not w.fresh }

  unfoldable pub watch_btp : Btp W → Btp (Watched W)
  watch_btp b = record {
    reset = λ w. record w { inner = b.reset w.inner; fresh = true };
    process_incoming = λ mtu peer bytes w. beside (b.process_incoming mtu peer bytes) (used w);
    process_outgoing = λ mtu (buffer, w).
        let (r, (buffer', inner)) = b.process_outgoing mtu (buffer, w.inner) in
        (r, (buffer', record (used w) { inner = inner }));
  }
