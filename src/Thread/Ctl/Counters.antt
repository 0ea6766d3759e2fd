-- ===== src/Thread/Ctl/Counters.antt =====
-- thread.rs, `EspMatterThreadCtl` as `ThreadDiag`: the counters, and the components of the dataset.
use esp_idf_matter.Base.{ℕ, Bool, Option, none, some, Exec, Result, ok, err, panic}
use esp_idf_matter.Error.{EspError, ErrorCode, to_net_error}

-- The counters of OpenThread and those of Matter.
pub record EspMacCounters : Type 0 where
  pub tx_total : ℕ
  pub tx_unicast : ℕ
  pub tx_broadcast : ℕ
  pub tx_ack_requested : ℕ
  pub tx_acked : ℕ
  pub tx_no_ack_requested : ℕ
  pub tx_data : ℕ
  pub tx_data_poll : ℕ
  pub tx_beacon : ℕ
  pub tx_beacon_request : ℕ
  pub tx_other : ℕ
  pub tx_retry : ℕ
  pub tx_direct_max_retry_expiry : ℕ
  pub tx_indirect_max_retry_expiry : ℕ
  pub tx_err_cca : ℕ
  pub tx_err_abort : ℕ
  pub tx_err_busy_channel : ℕ
  pub rx_total : ℕ
  pub rx_unicast : ℕ
  pub rx_broadcast : ℕ
  pub rx_data : ℕ
  pub rx_data_poll : ℕ
  pub rx_beacon : ℕ
  pub rx_beacon_request : ℕ
  pub rx_other : ℕ
  pub rx_address_filtered : ℕ
  pub rx_dest_addr_filtered : ℕ
  pub rx_duplicated : ℕ
  pub rx_err_no_frame : ℕ
  pub rx_err_unknown_neighbor : ℕ
  pub rx_err_invalid_src_addr : ℕ
  pub rx_err_sec : ℕ
  pub rx_err_fcs : ℕ
  pub rx_err_other : ℕ

pub record MacCounters : Type 0 where
  pub tx_total_count : ℕ
  pub tx_unicast_count : ℕ
  pub tx_broadcast_count : ℕ
  pub tx_ack_requested_count : ℕ
  pub tx_acked_count : ℕ
  pub tx_no_ack_requested_count : ℕ
  pub tx_data_count : ℕ
  pub tx_data_poll_count : ℕ
  pub tx_beacon_count : ℕ
  pub tx_beacon_request_count : ℕ
  pub tx_other_count : ℕ
  pub tx_retry_count : ℕ
  pub tx_direct_max_retry_expiry_count : Option ℕ
  pub tx_indirect_max_retry_expiry_count : Option ℕ
  pub tx_err_cca_count : ℕ
  pub tx_err_abort_count : ℕ
  pub tx_err_busy_channel_count : ℕ
  pub rx_total_count : ℕ
  pub rx_unicast_count : ℕ
  pub rx_broadcast_count : ℕ
  pub rx_data_count : ℕ
  pub rx_data_poll_count : ℕ
  pub rx_beacon_count : ℕ
  pub rx_beacon_request_count : ℕ
  pub rx_other_count : ℕ
  pub rx_address_filtered_count : ℕ
  pub rx_dest_addr_filtered_count : ℕ
  pub rx_duplicated_count : ℕ
  pub rx_err_no_frame_count : ℕ
  pub rx_err_unknown_neighbor_count : ℕ
  pub rx_err_invalid_src_addr_count : ℕ
  pub rx_err_sec_count : ℕ
  pub rx_err_fcs_count : ℕ
  pub rx_err_other_count : ℕ

pub record EspMleCounters : Type 0 where
  pub detached_role : ℕ
  pub child_role : ℕ
  pub router_role : ℕ
  pub leader_role : ℕ
  pub attach_attempts : ℕ
  pub partition_id_changes : ℕ
  pub better_partition_attach_attempts : ℕ
  pub parent_changes : ℕ

pub record MleCounters : Type 0 where
  pub detached_role_count : ℕ
  pub child_role_count : ℕ
  pub router_role_count : ℕ
  pub leader_role_count : ℕ
  pub attach_attempt_count : ℕ
  pub partition_id_change_count : ℕ
  pub better_partition_attach_attempt_count : ℕ
  pub parent_change_count : ℕ

pub record EspDatasetComponents : Type 0 where
  pub active_timestamp_present : Bool
  pub pending_timestamp_present : Bool
  pub network_key_present : Bool
  pub network_name_present : Bool
  pub extended_pan_id_present : Bool
  pub mesh_local_prefix_present : Bool
  pub delay_present : Bool
  pub pan_id_present : Bool
  pub channel_present : Bool
  pub pskc_present : Bool
  pub security_policy_present : Bool
  pub channel_mask_present : Bool

pub record OperationalDatasetComponents : Type 0 where
  pub active_timestamp_present : Bool
  pub pending_timestamp_present : Bool
  pub master_key_present : Bool
  pub network_name_present : Bool
  pub extended_pan_id_present : Bool
  pub mesh_local_prefix_present : Bool
  pub delay_present : Bool
  pub pan_id_present : Bool
  pub channel_present : Bool
  pub pskc_present : Bool
  pub security_policy_present : Bool
  pub channel_mask_present : Bool

unfoldable pub mac_counters_of : EspMacCounters → MacCounters
mac_counters_of c = record {
  tx_total_count = c.tx_total;
  tx_unicast_count = c.tx_unicast;
  tx_broadcast_count = c.tx_broadcast;
  tx_ack_requested_count = c.tx_ack_requested;
  tx_acked_count = c.tx_acked;
  tx_no_ack_requested_count = c.tx_no_ack_requested;
  tx_data_count = c.tx_data;
  tx_data_poll_count = c.tx_data_poll;
  tx_beacon_count = c.tx_beacon;
  tx_beacon_request_count = c.tx_beacon_request;
  tx_other_count = c.tx_other;
  tx_retry_count = c.tx_retry;
  tx_direct_max_retry_expiry_count = some c.tx_direct_max_retry_expiry;
  tx_indirect_max_retry_expiry_count = some c.tx_indirect_max_retry_expiry;
  tx_err_cca_count = c.tx_err_cca;
  tx_err_abort_count = c.tx_err_abort;
  tx_err_busy_channel_count = c.tx_err_busy_channel;
  rx_total_count = c.rx_total;
  rx_unicast_count = c.rx_unicast;
  rx_broadcast_count = c.rx_broadcast;
  rx_data_count = c.rx_data;
  rx_data_poll_count = c.rx_data_poll;
  rx_beacon_count = c.rx_beacon;
  rx_beacon_request_count = c.rx_beacon_request;
  rx_other_count = c.rx_other;
  rx_address_filtered_count = c.rx_address_filtered;
  rx_dest_addr_filtered_count = c.rx_dest_addr_filtered;
  rx_duplicated_count = c.rx_duplicated;
  rx_err_no_frame_count = c.rx_err_no_frame;
  rx_err_unknown_neighbor_count = c.rx_err_unknown_neighbor;
  rx_err_invalid_src_addr_count = c.rx_err_invalid_src_addr;
  rx_err_sec_count = c.rx_err_sec;
  rx_err_fcs_count = c.rx_err_fcs;
  rx_err_other_count = c.rx_err_other;
}

unfoldable pub mle_counters_of : EspMleCounters → MleCounters
mle_counters_of c = record {
  detached_role_count = c.detached_role;
  child_role_count = c.child_role;
  router_role_count = c.router_role;
  leader_role_count = c.leader_role;
  attach_attempt_count = c.attach_attempts;
  partition_id_change_count = c.partition_id_changes;
  better_partition_attach_attempt_count = c.better_partition_attach_attempts;
  parent_change_count = c.parent_changes;
}

unfoldable pub components_of : EspDatasetComponents → OperationalDatasetComponents
components_of c = record {
  active_timestamp_present = c.active_timestamp_present;
  pending_timestamp_present = c.pending_timestamp_present;
  master_key_present = c.network_key_present;
  network_name_present = c.network_name_present;
  extended_pan_id_present = c.extended_pan_id_present;
  mesh_local_prefix_present = c.mesh_local_prefix_present;
  delay_present = c.delay_present;
  pan_id_present = c.pan_id_present;
  channel_present = c.channel_present;
  pskc_present = c.pskc_present;
  security_policy_present = c.security_policy_present;
  channel_mask_present = c.channel_mask_present;
}

-- The reads of `EspThread`; of an active dataset, the flags of its components.
pub record CounterReads : Type 0 where
  pub mac_counters : Result EspError EspMacCounters
  pub mle_counters : Result EspError EspMleCounters
  pub active_dataset_components : Result EspError (Option EspDatasetComponents)

module _ {V A B : Type 0} (f : Option B → Exec ErrorCode V (Unit {0})) (convert : A → B) where
  report_read : Result EspError A → Exec ErrorCode V (Unit {0})
  report_read (ok a) v = f (some (convert a)) v
  report_read (err e) v = (err (to_net_error e), v)
  report_read panic v = (panic, v)

  report_option : Result EspError (Option A) → Exec ErrorCode V (Unit {0})
  report_option (ok (some a)) v = f (some (convert a)) v
  report_option (ok none) v = f none v
  report_option (err e) v = (err (to_net_error e), v)
  report_option panic v = (panic, v)

module _ {V : Type 0} (esp : CounterReads) where
  unfoldable pub mac_counters :
      (Option MacCounters → Exec ErrorCode V (Unit {0})) → Exec ErrorCode V (Unit {0})
  unfolding report_read mac_counters_of
  mac_counters f = report_read f mac_counters_of esp.mac_counters

  unfoldable pub mle_counters :
      (Option MleCounters → Exec ErrorCode V (Unit {0})) → Exec ErrorCode V (Unit {0})
  unfolding report_read mle_counters_of
  mle_counters f = report_read f mle_counters_of esp.mle_counters

  unfoldable pub operational_dataset_components :
      (Option OperationalDatasetComponents → Exec ErrorCode V (Unit {0}))
      → Exec ErrorCode V (Unit {0})
  unfolding report_option components_of
  operational_dataset_components f = report_option f components_of esp.active_dataset_components
