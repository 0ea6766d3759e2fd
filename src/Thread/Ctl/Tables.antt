-- ===== src/Thread/Ctl/Tables.antt =====
-- thread.rs, `EspMatterThreadCtl` as `ThreadDiag`: the reports through a visitor, and those of the
-- datasets.
use esp_idf_matter.Base.{
  ℕ, zero, suc, ◌+◌, ◌*◌, ◌/◌, ◌%◌, ◌^◌, ◌≡◌, refl, Option, none, some, List, [], ◌∷◌, map, Exec,
  Result, ok, err, panic, if◌then◌else◌,
}
use esp_idf_matter.Error.{EspError, ErrorCode, to_net_error}
use esp_idf_matter.Netctl.Visit.{for_each, visit_while_ok, visit_while_ok-for_each}
use esp_idf_matter.Thread.Dataset.{dataset_timestamp, security_policy_flags}
use esp_idf_matter.Thread.Ctl.Scan
use esp_idf_matter.Thread.Ctl.Diag.{
  DatasetDiag, NeighborInfo, NeighborTable, RouterInfo, ThreadReads, read_then, if_commissioned,
}

unfoldable pub neighbor_entry : NeighborInfo → NeighborTable
neighbor_entry info = record {
  ext_address = info.ext_address;
  age = info.age;
  rloc16 = info.rloc16;
  link_frame_counter = info.link_frame_counter;
  mle_frame_counter = info.mle_frame_counter;
  lqi = info.link_quality_in;
  average_rssi = info.average_rssi;
  last_rssi = info.last_rssi;
  frame_error_rate = info.frame_error_rate;
  message_error_rate = info.message_error_rate;
  rx_on_when_idle = info.rx_on_when_idle;
  full_thread_device = info.full_thread_device;
  full_network_data = info.full_network_data;
  is_child = info.is_child;
}

-- `u32::reverse_bits`, a bit at a time, and `u32::to_be_bytes`.
unfoldable pub reverse_from : ℕ → ℕ → ℕ → ℕ
reverse_from zero mask reversed = reversed
reverse_from (suc bits) mask reversed = reverse_from bits (mask / 2) (reversed * 2 + mask % 2)

abbrev pub to_be_bytes : ℕ → List ℕ
to_be_bytes v = v / 2 ^ 24 % 256 ∷ v / 2 ^ 16 % 256 ∷ v / 2 ^ 8 % 256 ∷ v % 256 ∷ []

module _ {V : Type 0} where
  abbrev and_then :
      {A : Type 0}
      → Result EspError A
      → (A → Exec ErrorCode V (Unit {0}))
      → Exec ErrorCode V (Unit {0})
  and_then (ok a) f v = f a v
  and_then (err e) f v = (err (to_net_error e), v)
  and_then panic f v = (panic, v)

  abbrev report_option :
      {A : Type 0}
      → Result ErrorCode (Option A)
      → (Option A → Exec ErrorCode V (Unit {0}))
      → Exec ErrorCode V (Unit {0})
  report_option (ok a) f v = f a v
  report_option (err e) f v = (err e, v)
  report_option panic f v = (panic, v)

  -- The visitor's result, unless reading the table failed.
  unfoldable pub table_result :
      Result EspError (Unit {0}) → Result ErrorCode (Unit {0}) × V → Result ErrorCode (Unit {0}) × V
  table_result (ok x) visited = visited
  table_result (err e) (panic, v) = (panic, v)
  table_result (err e) (ok x, v) = (err (to_net_error e), v)
  table_result (err e) (err code, v) = (err (to_net_error e), v)
  table_result panic (r, v) = (panic, v)

abbrev prefixed : Option (List ℕ) → Option (List ℕ)
prefixed none = none
prefixed (some prefix) = some (64 ∷ prefix)

unfoldable pub page0_mask : Option DatasetDiag → Option (List ℕ)
unfolding reverse_from
page0_mask none = none
page0_mask (some diag) = elim diag.channel_mask [
  | none ↦ none
  | some mask ↦ some (to_be_bytes (reverse_from 32 mask 0))
]

module _ {V : Type 0} (esp : ThreadReads) where
  unfoldable pub network_name :
      (Option (List ℕ) → Exec ErrorCode V (Unit {0})) → Exec ErrorCode V (Unit {0})
  network_name f = and_then esp.is_commissioned (λ commissioned.
      if commissioned then and_then esp.network_name (λ name. f (some name)) else f none)

  unfoldable pub mesh_local_prefix :
      (Option (List ℕ) → Exec ErrorCode V (Unit {0})) → Exec ErrorCode V (Unit {0})
  unfolding if_commissioned
  mesh_local_prefix f =
      report_option (if_commissioned esp esp.mesh_local_prefix) (λ prefix. f (prefixed prefix))

  unfoldable pub neighbor_table :
      (NeighborTable → Exec ErrorCode V (Unit {0})) → Exec ErrorCode V (Unit {0})
  unfolding visit_while_ok table_result neighbor_entry
  neighbor_table f v =
      let (infos, outcome) = esp.neighbor_table in
      table_result outcome (visit_while_ok f (ok tt) (map neighbor_entry infos) v)

  unfoldable pub route_table :
      (RouterInfo → Exec ErrorCode V (Unit {0})) → Exec ErrorCode V (Unit {0})
  unfolding visit_while_ok table_result
  route_table f v =
      let (infos, outcome) = esp.route_table in
      table_result outcome (visit_while_ok f (ok tt) infos v)

  unfoldable pub channel_page0_mask :
      (Option (List ℕ) → Exec ErrorCode V (Unit {0})) → Exec ErrorCode V (Unit {0})
  unfolding page0_mask
  channel_page0_mask f = and_then esp.active_dataset_diag (λ diag. f (page0_mask diag))

  -- The tables are reported in order up to the visitor's first error, and with it, unless reading
  -- the table fails, which is reported then.
  pub tables_report :
      (f : NeighborTable → Exec ErrorCode V (Unit {0}))
      (g : RouterInfo → Exec ErrorCode V (Unit {0})) (v : V)
      → (neighbor_table f v
          ≡ table_result esp.neighbor_table.1
              (for_each f (map neighbor_entry esp.neighbor_table.0) v))
        × (route_table g v ≡ table_result esp.route_table.1 (for_each g esp.route_table.0 v))
  unfolding neighbor_table route_table
  tables_report f g v = (
    rw (visit_while_ok-for_each f (map neighbor_entry esp.neighbor_table.0) v) refl,
    rw (visit_while_ok-for_each g esp.route_table.0 v) refl,
  )

abbrev field : {A B : Type 0} → (A → Option B) → Option A → Option B
field get none = none
field get (some diag) = get diag

abbrev map_option : {A B : Type 0} → (A → B) → Option A → Option B
map_option f none = none
map_option f (some a) = some (f a)

module _ (esp : ThreadReads) where
  unfoldable pub security_policy : Result ErrorCode (Option (ℕ × ℕ))
  unfolding security_policy_flags
  security_policy = read_then esp.active_dataset_diag (λ diag. ok (
      map_option (λ (rotation_time, policy). (rotation_time, security_policy_flags policy))
        (field (λ d. d.security_policy) diag)))

  unfoldable pub active_timestamp : Result ErrorCode (Option ℕ)
  unfolding dataset_timestamp
  active_timestamp =
      read_then esp.active_dataset_diag
        (λ diag. ok (map_option dataset_timestamp (field (λ d. d.active_timestamp) diag)))

  unfoldable pub pending_timestamp : Result ErrorCode (Option ℕ)
  unfolding dataset_timestamp
  pending_timestamp =
      read_then esp.pending_dataset_diag
        (λ diag. ok (map_option dataset_timestamp (field (λ d. d.pending_timestamp) diag)))

  unfoldable pub delay : Result ErrorCode (Option ℕ)
  delay = read_then esp.pending_dataset_diag (λ diag. ok (field (λ d. d.delay) diag))

  -- `EspNetifAccess::hw_addr`.
  unfoldable pub hw_addr : Option (List ℕ)
  hw_addr = bytes_of_address esp.ext_address
    where
      bytes_of_address : Result EspError ℕ → Option (List ℕ)
      bytes_of_address (ok address) = some (Scan.to_be_bytes address)
      bytes_of_address (err e) = none
      bytes_of_address panic = none
