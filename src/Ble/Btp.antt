-- ===== src/Ble/Btp.antt =====
-- The BTP engine of `rs-matter`, as the pumps of ble/bluedroid.rs and ble/nimble.rs use it: a
-- parameter of the models, over a type `W` of states of everything outside this crate.
use esp_idf_matter.Base.{ℕ, ◌^◌, Option, List, Exec}
use esp_idf_matter.Error.{ErrorCode}

pub record Btp (W : Type 0) : Type 0 where
  pub reset : W → W
  -- The MTU of the connection, if negotiated, the address of the peer, and the packet.
  pub process_incoming : Option ℕ → ℕ → List ℕ → Exec ErrorCode W (Unit {0})
  -- The MTU; the buffer to fill is part of the state; the result is the packet's length, or 0.
  pub process_outgoing : Option ℕ → Exec ErrorCode (List ℕ × W) ℕ

abbrev pub max_mtu_size : ℕ
max_mtu_size = 512

-- `usize` of the ESP32 chips.
abbrev pub usize_mod : ℕ
usize_mod = 2 ^ 32
