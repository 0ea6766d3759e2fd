-- ===== src/Ble/Bluedroid/State.antt =====
-- ble/bluedroid.rs: `Connection`, `State` and `EspBtpGattContext`. `R` is the type of
-- `GattResponse`. A signal is its latch: `true` while it holds a notification.
use esp_idf_matter.Base.{ℕ, ◌+◌, ◌%◌, Bool, true, false, Option, none, List, [], Exec, ok}
use esp_idf_matter.Ble.Btp.{usize_mod}

pub record Connection : Type 0 where
  pub peer : ℕ
  pub conn_id : ℕ
  pub subscribed : Bool
  pub mtu : Option ℕ

pub record State (R : Type 0) : Type 0 where
  pub gatt_if : Option ℕ
  pub service_handle : Option ℕ
  pub c1_handle : Option ℕ
  pub c2_handle : Option ℕ
  pub c2_cccd_handle : Option ℕ
  pub connection : Option Connection
  pub conn_gen : ℕ
  pub btp_gen : Option ℕ
  pub in_data : List ℕ
  pub in_trans : ℕ
  pub out_data : List ℕ
  pub out_nack : Bool
  pub response : R

pub record Context (R : Type 0) : Type 0 where
  pub state : State R
  pub open state use *
  pub notify_process_incoming : Bool
  pub notify_process_outgoing : Bool

module _ {R : Type 0} where
  -- `GattResponse::new()` is the argument.
  unfoldable pub State_new : R → State R
  State_new response = record {
    gatt_if = none;
    service_handle = none;
    c1_handle = none;
    c2_handle = none;
    c2_cccd_handle = none;
    connection = none;
    conn_gen = 0;
    btp_gen = none;
    in_data = [];
    in_trans = 0;
    out_data = [];
    out_nack = false;
    response = response;
  }

  unfoldable pub Context_new : R → Context R
  unfolding State_new
  Context_new response = record {
    state = State_new response;
    notify_process_incoming = false;
    notify_process_outgoing = false;
  }

  -- `EspBtpGattContext::reset`, which leaves the two generations and the buffers for output.
  unfoldable pub reset : Context R → Context R
  reset c = record {
    state = record c.state {
      gatt_if = none;
      service_handle = none;
      c1_handle = none;
      c2_handle = none;
      c2_cccd_handle = none;
      connection = none;
      in_data = [];
      in_trans = 0;
      out_nack = false;
    };
    notify_process_incoming = false;
    notify_process_outgoing = false;
  }

  abbrev pub signal_incoming : Context R → Context R
  signal_incoming c = record c { notify_process_incoming = true }

  abbrev pub signal_outgoing : Context R → Context R
  signal_outgoing c = record c { notify_process_outgoing = true }

-- The context with all that is outside this crate.
pub record Sys (W R : Type 0) : Type 0 where
  pub ctx : Context R
  pub open ctx use *
  pub world : W

-- `usize` addition of one; a release build wraps.
abbrev pub next_gen : ℕ → ℕ
next_gen n = (n + 1) % usize_mod

module _ {E W R A : Type 0} where
  -- A call of a platform function.
  abbrev pub call : Exec E W A → Exec E (Sys W R) A
  call m s = let (r, w) = m s.world in (r, record s { world = w })

  -- A closure run under the lock of the state.
  abbrev pub locked : (Context R → Context R × A) → Exec E (Sys W R) A
  locked f s = let (c, a) = f s.ctx in (ok a, record s { ctx = c })

module _ {R : Type 0} where
  abbrev pub on_state : (State R → State R) → Context R → Context R × Unit {0}
  on_state f c = (record c { state = f c.state }, tt)
