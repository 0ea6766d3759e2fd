-- ===== src/Ble/Nimble/Table.antt =====
-- ble/nimble.rs: the static GATT service table, and the creation of the peripheral over it. The
-- driver of `esp-idf-svc` is a parameter.
use esp_idf_matter.Base.{ℕ, Bool, true, false, List, [], ◌∷◌, map, Exec, ◌≡◌, refl}
use esp_idf_matter.Error.{EspError}
use esp_idf_matter.Ble.Nimble.State.{Sys, reset, on_ctx, call}

-- The UUIDs of the service and of its three characteristics.
pub record Uuids : Type 0 where
  pub svc_uuid : ℕ
  pub c1_uuid : ℕ
  pub c2_uuid : ℕ
  pub c3_uuid : ℕ

pub data Operation : Type 0 where
  write indicate read : Operation

pub record Service : Type 0 where
  pub uuid : ℕ
  pub chrs : List (ℕ × Operation)

unfoldable pub services : Uuids → List Service
services u =
    record {
      uuid = u.svc_uuid;
      chrs =
          (u.c1_uuid, Operation.write)
          ∷ (u.c2_uuid, Operation.indicate)
          ∷ (u.c3_uuid, Operation.read)
          ∷ [];
    }
    ∷ []

module _ {W : Type 0} (u : Uuids)
    (new_with_services : List Service → Exec EspError W (Unit {0})) where
  -- `EspBtpGattPeripheral::new`; the reset does not fail.
  unfoldable pub new_peripheral : Exec EspError (Sys W) (Unit {0})
  unfolding services
  new_peripheral s = call (new_with_services (services u)) (on_ctx reset s)

is_write : Operation → Bool
is_write Operation.write = true
is_write Operation.indicate = false
is_write Operation.read = false

writable : List (ℕ × Operation) → List ℕ
writable [] = []
writable ((uuid, op) ∷ rest) = elim (is_write op) [
  | true ↦ uuid ∷ writable rest
  | false ↦ writable rest
]

-- The peer can write to the first characteristic only, so that the hook need not look at the handle
-- of a write.
writable_services : (u : Uuids) → map (λ s. writable s.chrs) (services u) ≡ (u.c1_uuid ∷ []) ∷ []
unfolding services writable is_write
writable_services u = refl
