-- ===== src/Ble/Central/Setup.antt =====
-- The order in which the central of ble/nimble.rs sets a session up.
use esp_idf_matter.Base.{ℕ, Bool, true, false, ◌&&◌, ◌==◌, bytes_eq, ◌≡◌, List, [], ◌∷◌}
use esp_idf_matter.Ble.Btp.{Btp}
use esp_idf_matter.Ble.Central.State.{State}
use esp_idf_matter.Ble.Central.Platform.{Platform}
use esp_idf_matter.Ble.Central.Run.{Phase, peer_addr_type}
use esp_idf_matter.Ble.Central.System.{Client}
use esp_idf_matter.Ble.Central.Log.{Call, Logged}

-- Whether the calls, the last one first, end with those of a set-up that reached each phase. Those
-- before the run are not looked at.
module _ (own addr : ℕ) where
  -- The host was started.
  unfoldable pub started : List Call → Bool
  started (Call.start ∷ calls) = true
  started _ = false

  -- Then a connection to the address was asked for.
  unfoldable pub connecting : List Call → Bool
  unfolding started
  connecting (Call.connect o t a ∷ Call.ensure_addr false ∷ calls) =
      (o == own) && (t == peer_addr_type) && (a == addr) && started calls
  connecting _ = false

  -- Then the services of the connection.
  unfoldable pub searching : ℕ → List Call → Bool
  unfolding connecting
  searching conn (Call.discover_services k ∷ calls) = (k == conn) && connecting calls
  searching conn _ = false

  -- Then the characteristics.
  unfoldable pub exploring : ℕ → List Call → Bool
  unfolding searching
  exploring conn (Call.discover_characteristics k first last ∷ calls) =
      (k == conn) && searching conn calls
  exploring conn _ = false

  -- Then the indications.
  unfoldable pub subscribing : ℕ → List Call → Bool
  unfolding exploring
  subscribing conn (Call.write k attr payload ∷ calls) =
      (k == conn) && bytes_eq payload (2 ∷ 0 ∷ []) && exploring conn calls
  subscribing conn _ = false

  -- Then the engine was made the initiator, and packets were written to the write characteristic,
  -- and nothing else.
  unfoldable pub running : ℕ → ℕ → List Call → Bool
  unfolding subscribing
  running conn c1_val (Call.set_initiator true ∷ calls) = subscribing conn calls
  running conn c1_val (Call.write k attr payload ∷ calls) =
      (k == conn) && (attr == c1_val) && running conn c1_val calls
  running conn c1_val _ = false

  unfoldable pub reached : Phase → List Call → Bool
  unfolding started connecting searching exploring subscribing running
  reached Phase.sync_wait calls = started calls
  reached Phase.synced_now calls = started calls
  reached Phase.conn_wait calls = connecting calls
  reached Phase.connected_now calls = connecting calls
  reached (Phase.services_wait conn) calls = searching conn calls
  reached (Phase.services_now conn) calls = searching conn calls
  reached (Phase.chars_wait conn) calls = exploring conn calls
  reached (Phase.chars_now conn) calls = exploring conn calls
  reached (Phase.subscribe_wait conn c1_val) calls = subscribing conn calls
  reached (Phase.subscribe_now conn c1_val) calls = subscribing conn calls
  reached (Phase.pumping conn c1_val) calls = running conn c1_val calls
  reached (Phase.ended r) calls = true

module _ {W : Type 0} (p : Platform W) (btp : Btp W) where
  abbrev Orderly : Client (Logged W) → Type 0
  Orderly c = reached p.own_addr_public c.addr c.phase c.world.1 ≡ true
