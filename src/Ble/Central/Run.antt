-- ===== src/Ble/Central/Run.antt =====
-- ble/nimble.rs, `central`: `EspBtpGattClient::run`. The task stands at one of its phases: before a
-- `wait_state`, or before the code between two of them. Hooks run between any two phases.
use esp_idf_matter.Base.{
  ℕ, Bool, true, false, ◌||◌, Option, none, some, [], ◌∷◌, is_some, if◌then◌else◌, Result, ok, err,
  panic, pure, map_err, ◌>>=◌, ◌>>◌,
}
use esp_idf_matter.Error.{ErrorCode, no_network_interface}
use esp_idf_matter.Ble.Nimble.Pumps.{to_matter_err}
use esp_idf_matter.Ble.Central.State.{State, Sys, on_state}
use esp_idf_matter.Ble.Central.Platform.{Platform}
use esp_idf_matter.Ble.Central.Hooks.{cccd_of}
use esp_idf_matter.Ble.Central.Pumps.{Task, ble}

pub data Phase : Type 0 where
  sync_wait synced_now conn_wait connected_now : Phase
  services_wait services_now chars_wait chars_now : (conn : ℕ) → Phase
  subscribe_wait subscribe_now : (conn c1_val : ℕ) → Phase
  pumping : (conn c1_val : ℕ) → Phase
  ended : Result ErrorCode (Unit {0}) → Phase

abbrev pub peer_addr_type : ℕ
peer_addr_type = 0

-- What each `wait_state` waits for, `none` at the other phases.
unfoldable pub condition : Phase → Option (State → Bool)
condition Phase.sync_wait = some (λ s. s.synced)
condition Phase.conn_wait = some (λ s. is_some s.conn_handle || s.failed)
condition (Phase.services_wait conn) = some (λ s. s.services_done || s.failed)
condition (Phase.chars_wait conn) = some (λ s. s.chars_done || s.failed)
condition (Phase.subscribe_wait conn c1_val) = some (λ s. s.subscribed || s.failed)
condition _ = none

-- The phase after a `wait_state`.
unfoldable pub passed : Phase → Phase
passed Phase.sync_wait = Phase.synced_now
passed Phase.conn_wait = Phase.connected_now
passed (Phase.services_wait conn) = Phase.services_now conn
passed (Phase.chars_wait conn) = Phase.chars_now conn
passed (Phase.subscribe_wait conn c1_val) = Phase.subscribe_now conn c1_val
passed phase = phase

-- An error ends the task.
unfoldable pub settle : Result ErrorCode Phase → Phase
settle (ok phase) = phase
settle (err e) = Phase.ended (err e)
settle panic = Phase.ended panic

module _ {A : Type 0} where
  -- `ok_or_else` with the error that the set-up fails with.
  unfoldable pub found : Option A → Result ErrorCode A
  found none = err no_network_interface
  found (some a) = ok a

module _ {W : Type 0} (p : Platform W) where
  -- `run` up to its first wait.
  unfoldable pub begin_run : ℕ → Task W Phase
  begin_run addr s =
      (do
        (λ t. let (r, w) = p.start t.world in (map_err to_matter_err r, record t { world = w }))
        pure Phase.sync_wait)
        (record s { ctx = on_state (λ st. record st { peer = addr }) s.ctx; published = true })

  unfoldable pub connect_peer : ℕ → Task W Phase
  connect_peer addr = do
    ble (p.ensure_addr false)
    ble (p.connect p.own_addr_public peer_addr_type addr)
    pure Phase.conn_wait

  unfoldable pub discover_services : Task W Phase
  unfolding found
  discover_services s =
      (do
        conn ← (λ t. (found s.ctx.conn_handle, t))
        ble (p.discover_services conn)
        pure (Phase.services_wait conn))
        s

  unfoldable pub discover_characteristics : ℕ → Task W Phase
  unfolding found
  discover_characteristics conn s =
      (do
        range ← (λ t. (found s.ctx.matter_range, t))
        ble (p.discover_characteristics conn range.0 range.1)
        pure (Phase.chars_wait conn))
        s

  unfoldable pub subscribe : ℕ → Task W Phase
  unfolding found cccd_of
  subscribe conn s =
      (do
        c1_val ← (λ t. (found s.ctx.c1_val, t))
        c2_val ← (λ t. (found s.ctx.c2_val, t))
        ble (p.write conn (cccd_of c2_val) (2 ∷ 0 ∷ []))
        pure (Phase.subscribe_wait conn c1_val))
        s

  unfoldable pub start_btp : ℕ → ℕ → Task W Phase
  start_btp conn c1_val s =
      if s.ctx.failed
      then (err no_network_interface, s)
      else (ok (Phase.pumping conn c1_val), record s { world = p.set_initiator true s.world })

  -- The code that follows a wait, up to the next one. The address is the one `run` was given.
  unfoldable pub proceed : ℕ → Phase → Task W Phase
  unfolding connect_peer discover_services discover_characteristics subscribe start_btp
  proceed addr Phase.synced_now = connect_peer addr
  proceed addr Phase.connected_now = discover_services
  proceed addr (Phase.services_now conn) = discover_characteristics conn
  proceed addr (Phase.chars_now conn) = subscribe conn
  proceed addr (Phase.subscribe_now conn c1_val) = start_btp conn c1_val
  proceed addr phase = pure phase

module _ {W : Type 0} where
  -- `EspBtpGattClient`'s drop.
  unfoldable pub drop_client : Sys W → Sys W
  drop_client s = record s { published = false }
