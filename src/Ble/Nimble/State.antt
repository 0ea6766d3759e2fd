-- ===== src/Ble/Nimble/State.antt =====
-- ble/nimble.rs: `Connection`, `State`, `EspBtpGattContext`, and the two statics of the file.
-- A signal is its latch: `true` while it holds a notification.
use esp_idf_matter.Base.{ℕ, ◌+◌, ◌%◌, Bool, true, false, Option, none, List, [], Exec}
use esp_idf_matter.Ble.Btp.{usize_mod}

pub record Connection : Type 0 where
  pub peer : ℕ
  pub conn_handle : ℕ
  pub subscribed : Bool
  pub mtu : Option ℕ

pub record State : Type 0 where
  pub connection : Option Connection
  pub conn_gen : ℕ
  pub btp_gen : Option ℕ
  pub in_data : List ℕ
  pub out_data : List ℕ
  pub need_advertise : Bool
  pub adv_data : List ℕ

pub record Context : Type 0 where
  pub state : State
  pub open state use *
  pub out_nack : Bool
  pub notify_process_incoming : Bool
  pub notify_process_outgoing : Bool

unfoldable pub State_new : State
State_new = record {
  connection = none;
  conn_gen = 0;
  btp_gen = none;
  in_data = [];
  out_data = [];
  need_advertise = false;
  adv_data = [];
}

unfoldable pub Context_new : Context
unfolding State_new
Context_new = record {
  state = State_new;
  out_nack = false;
  notify_process_incoming = false;
  notify_process_outgoing = false;
}

-- `EspBtpGattContext::reset`, which leaves `conn_gen` and `need_advertise`.
unfoldable pub reset : Context → Context
reset c = record {
  state = record c.state {
    connection = none;
    btp_gen = none;
    in_data = [];
    out_data = [];
    adv_data = [];
  };
  out_nack = false;
  notify_process_incoming = false;
  notify_process_outgoing = false;
}

abbrev pub signal_incoming : Context → Context
signal_incoming c = record c { notify_process_incoming = true }

abbrev pub signal_outgoing : Context → Context
signal_outgoing c = record c { notify_process_outgoing = true }

-- The context, the statics `CONTEXT` (whether it points to the context) and `C2_VAL_HANDLE`, and
-- all that is outside this crate.
pub record Sys (W : Type 0) : Type 0 where
  pub ctx : Context
  pub open ctx use *
  pub published : Bool
  pub c2_val_handle : ℕ
  pub world : W

-- `wrapping_add(1)`.
abbrev pub next_gen : ℕ → ℕ
next_gen n = (n + 1) % usize_mod

module _ {W : Type 0} where
  abbrev pub on_ctx : (Context → Context) → Sys W → Sys W
  on_ctx f s = record s { ctx = f s.ctx }

  abbrev pub on_state : (State → State) → Sys W → Sys W
  on_state f s = record s { ctx = record s.ctx { state = f s.ctx.state } }

module _ {E W A : Type 0} where
  -- A call of a platform function.
  abbrev pub call : Exec E W A → Exec E (Sys W) A
  call m s = let (r, w) = m s.world in (r, record s { world = w })
