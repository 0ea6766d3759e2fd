-- ===== src/Ble/Bluedroid/Changes.antt =====
-- ble/bluedroid.rs: the state changes that the handlers of `GattEventContext` make under
-- the lock.
use esp_idf_matter.Base.{
  ℕ, ◌+◌, ◌*◌, Bool, true, false, not, ◌&&◌, Option, none, some, List, [], ◌∷◌, length, leb, ◌==◌,
  is_some_of, if◌then◌else◌,
}
use esp_idf_matter.Ble.Btp.{max_mtu_size}
use esp_idf_matter.Ble.Bluedroid.State.{
  Connection, State, Context, signal_incoming, signal_outgoing, next_gen,
}
use esp_idf_matter.Ble.Bluedroid.Platform.{WriteRequest}

-- `u16::from_le_bytes` of a value of two bytes.
unfoldable pub two_bytes : List ℕ → Option ℕ
two_bytes (a ∷ b ∷ []) = some (a + 256 * b)
two_bytes _ = none

-- The MTU goes to the connection with the given id.
unfoldable pub set_mtu : ℕ → ℕ → Option Connection → Option Connection
set_mtu conn_id mtu none = none
set_mtu conn_id mtu (some conn) =
    if conn.conn_id == conn_id then some (record conn { mtu = some mtu }) else some conn

module _ {R : Type 0} where
  -- The state changes of the handlers, made under the lock.
  unfoldable pub forget_characteristics : ℕ → State R → State R
  forget_characteristics service_handle s =
      if is_some_of s.service_handle service_handle
      then record s { c1_handle = none; c2_handle = none; c2_cccd_handle = none }
      else s

  unfoldable pub forget_service : ℕ → State R → State R
  forget_service service_handle s =
      if is_some_of s.service_handle service_handle
      then record s { gatt_if = none; service_handle = none }
      else s

  unfoldable pub note_cccd : Bool → ℕ → ℕ → State R → State R
  note_cccd is_cccd service_handle attr_handle s =
      if is_cccd && is_some_of s.service_handle service_handle
      then record s { c2_cccd_handle = some attr_handle }
      else s

  -- Tells whether the characteristic is the one for indications.
  unfoldable pub note_characteristic : Bool → Bool → ℕ → ℕ → Context R → Context R × Bool
  note_characteristic is_c1 is_c2 service_handle attr_handle c =
      if not (is_some_of c.service_handle service_handle)
      then (c, false)
      else if is_c1
      then (record c { state = record c.state { c1_handle = some attr_handle } }, false)
      else if is_c2
      then (record c { state = record c.state { c2_handle = some attr_handle } }, true)
      else (c, false)

  unfoldable pub note_mtu : ℕ → ℕ → State R → State R
  unfolding set_mtu
  note_mtu conn_id mtu s = record s { connection = set_mtu conn_id mtu s.connection }

  unfoldable pub open_connection : ℕ → ℕ → Context R → Context R × Bool
  open_connection conn_id addr c = elim c.connection [
    | none ↦ (
      signal_incoming (record c {
        state = record c.state {
          connection =
              some (record { peer = addr; conn_id = conn_id; subscribed = false; mtu = none });
          conn_gen = next_gen c.conn_gen;
          in_data = [];
          out_nack = false;
        };
      }),
      true,
    )
    | some conn ↦ (c, false)
  ]

  unfoldable pub close_connection : ℕ → Context R → Context R × Bool
  close_connection addr c = elim c.connection [
    | none ↦ (c, false)
    | some conn ↦
        if conn.peer == addr
        then (
          signal_incoming (record c {
            state = record c.state { connection = none; conn_gen = next_gen c.conn_gen };
          }),
          true,
        )
        else (c, false)
  ]

  abbrev set_subscribed : Connection → Bool → Context R → Context R
  set_subscribed conn b c = record c {
    state = record c.state { connection = some (record conn { subscribed = b }) };
  }

  -- A write of the CCCD of the indication characteristic: 2 subscribes to indications, anything
  -- else unsubscribes. Tells whether to respond.
  unfoldable pub write_cccd : Connection → ℕ → Option ℕ → Context R → Context R × Bool
  write_cccd conn offset none c = (c, false)
  write_cccd conn offset (some value) c =
      if not (offset == 0)
      then (c, false)
      else if value == 2
      then if conn.subscribed
        then (c, false)
        else (signal_outgoing (signal_incoming (set_subscribed conn true c)), true)
      else if conn.subscribed
      then (signal_incoming (set_subscribed conn false c), true)
      else (c, false)

  -- A write of the write characteristic: the packet waits in `in_data` for the incoming pump, which
  -- responds.
  unfoldable pub write_c1 : ℕ → List ℕ → Context R → Context R
  write_c1 trans_id value c = signal_incoming (record c {
    state = record c.state {
      in_trans = trans_id;
      in_data = if leb (length value) max_mtu_size then value else [];
    };
  })

  write_conn : WriteRequest → Context R → Connection → Context R × Bool
  unfolding write_cccd write_c1 two_bytes
  write_conn r c conn =
      if not (conn.conn_id == r.conn_id)
      then (c, false)
      else if is_some_of c.c2_cccd_handle r.handle
      then write_cccd conn r.offset (two_bytes r.value) c
      else if is_some_of c.c1_handle r.handle && (r.offset == 0)
      then (write_c1 r.trans_id r.value c, false)
      else (c, false)

  -- The locked part of `write`.
  unfoldable pub note_write : WriteRequest → Context R → Context R × Bool
  unfolding write_conn
  note_write r c = elim c.connection [ none ↦ (c, false) | some conn ↦ write_conn r c conn ]

  unfoldable pub note_confirm : Context R → Context R
  note_confirm c = signal_outgoing (record c { state = record c.state { out_nack = false } })
