-- ===== src/Ble/Central/State.antt =====
-- ble/nimble.rs, `central`: `State`, `EspBtpGattClientContext` and the static of the module. A
-- signal is its latch: `true` while it holds a notification. A `BtAddr` is a number.
use esp_idf_matter.Base.{ℕ, Bool, false, Option, none, List, []}

pub record State : Type 0 where
  pub synced : Bool
  pub conn_handle : Option ℕ
  pub failed : Bool
  pub mtu : Option ℕ
  pub peer : ℕ
  pub matter_range : Option (ℕ × ℕ)
  pub services_done : Bool
  pub c1_val : Option ℕ
  pub c2_val : Option ℕ
  pub chars_done : Bool
  pub subscribed : Bool
  pub in_data : List ℕ
  pub out_data : List ℕ
  pub out_inflight : Bool

pub record Context : Type 0 where
  pub state : State
  pub open state use *
  pub notify_progress : Bool
  pub notify_in : Bool
  pub notify_out : Bool

-- `State::new`, and `State::init`, which makes the same value in place.
unfoldable pub State_new : State
State_new = record {
  synced = false;
  conn_handle = none;
  failed = false;
  mtu = none;
  peer = 0;
  matter_range = none;
  services_done = false;
  c1_val = none;
  c2_val = none;
  chars_done = false;
  subscribed = false;
  in_data = [];
  out_data = [];
  out_inflight = false;
}

unfoldable pub Context_new : Context
unfolding State_new
Context_new = record {
  state = State_new;
  notify_progress = false;
  notify_in = false;
  notify_out = false;
}

-- `EspBtpGattClientContext::reset`.
unfoldable pub reset : Context → Context
unfolding State_new
reset c = record {
  state = State_new;
  notify_progress = false;
  notify_in = false;
  notify_out = false;
}

-- The context, the static `CLIENT_CONTEXT` (whether it points to the context), and all that is
-- outside this crate.
pub record Sys (W : Type 0) : Type 0 where
  pub ctx : Context
  pub open ctx use *
  pub published : Bool
  pub world : W

abbrev pub on_state : (State → State) → Context → Context
on_state f c = record c { state = f c.state }
