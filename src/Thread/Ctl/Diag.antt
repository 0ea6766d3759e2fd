-- ===== src/Thread/Ctl/Diag.antt =====
-- thread.rs, `EspMatterThreadCtl` as `ThreadDiag`: what the Thread diagnostics report. The reads of
-- OpenThread are parameters.
use esp_idf_matter.Base.{
  ℕ, Bool, true, false, Option, none, some, List, if◌then◌else◌, Result, ok, err, panic, map_err,
}
use esp_idf_matter.Error.{EspError, ErrorCode, to_net_error}
use esp_idf_matter.Thread.Ctl.{Role}
use esp_idf_matter.Thread.Dataset.{Timestamp, SecurityPolicy}

-- `RoutingRoleEnum` of `rs-matter`.
pub data RoutingRoleEnum : Type 0 where
  unspecified unassigned sleepy_end_device end_device reed router leader : RoutingRoleEnum

-- `DatasetDiag` of OpenThread, without the flags of its components.
pub record DatasetDiag : Type 0 where
  pub active_timestamp : Option Timestamp
  pub pending_timestamp : Option Timestamp
  pub delay : Option ℕ
  pub channel_mask : Option ℕ
  -- With its rotation time.
  pub security_policy : Option (ℕ × SecurityPolicy)

pub record NeighborInfo : Type 0 where
  pub ext_address : ℕ
  pub age : ℕ
  pub rloc16 : ℕ
  pub link_frame_counter : ℕ
  pub mle_frame_counter : ℕ
  pub link_quality_in : ℕ
  pub average_rssi : ℕ
  pub last_rssi : ℕ
  pub frame_error_rate : ℕ
  pub message_error_rate : ℕ
  pub rx_on_when_idle : Bool
  pub full_thread_device : Bool
  pub full_network_data : Bool
  pub is_child : Bool

pub record NeighborTable : Type 0 where
  pub ext_address : ℕ
  pub age : ℕ
  pub rloc16 : ℕ
  pub link_frame_counter : ℕ
  pub mle_frame_counter : ℕ
  pub lqi : ℕ
  pub average_rssi : ℕ
  pub last_rssi : ℕ
  pub frame_error_rate : ℕ
  pub message_error_rate : ℕ
  pub rx_on_when_idle : Bool
  pub full_thread_device : Bool
  pub full_network_data : Bool
  pub is_child : Bool

-- `RouteTable` has the fields of `RouterInfo`.
pub record RouterInfo : Type 0 where
  pub ext_address : ℕ
  pub rloc16 : ℕ
  pub router_id : ℕ
  pub next_hop : ℕ
  pub path_cost : ℕ
  pub lqi_in : ℕ
  pub lqi_out : ℕ
  pub age : ℕ
  pub allocated : Bool
  pub link_established : Bool

-- The reads of `EspThread`. The two tables call back for every entry and then say how that went.
pub record ThreadReads : Type 0 where
  pub is_commissioned : Result EspError Bool
  pub role : Result EspError Role
  pub rx_on_when_idle : Result EspError Bool
  -- Whether the build has `esp_idf_openthread_ftd`.
  pub openthread_ftd : Bool
  pub router_eligible : Result EspError Bool
  pub channel : Result EspError ℕ
  pub pan_id : Result EspError ℕ
  pub extended_pan_id : Result EspError ℕ
  -- It calls back with the name.
  pub network_name : Result EspError (List ℕ)
  pub mesh_local_prefix : Result EspError (List ℕ)
  pub partition_id : Result EspError ℕ
  pub leader_weight : Result EspError ℕ
  pub net_data_version : Result EspError ℕ
  pub net_data_stable_version : Result EspError ℕ
  pub leader_router_id : Result EspError ℕ
  pub ext_address : Result EspError ℕ
  pub rloc16 : Result EspError ℕ
  pub neighbor_table : List NeighborInfo × Result EspError (Unit {0})
  pub route_table : List RouterInfo × Result EspError (Unit {0})
  pub active_dataset_diag : Result EspError (Option DatasetDiag)
  pub pending_dataset_diag : Result EspError (Option DatasetDiag)

module _ {A B : Type 0} where
  -- `?` of a read.
  abbrev pub read_then : Result EspError A → (A → Result ErrorCode B) → Result ErrorCode B
  read_then (ok a) f = f a
  read_then (err e) f = err (to_net_error e)
  read_then panic f = panic

module _ {E A : Type 0} where
  abbrev pub as_some : Result E A → Result E (Option A)
  as_some (ok a) = ok (some a)
  as_some (err e) = err e
  as_some panic = panic

module _ (esp : ThreadReads) where
  unfoldable pub if_commissioned : {A : Type 0} → Result EspError A → Result ErrorCode (Option A)
  if_commissioned read =
      read_then esp.is_commissioned
        (λ commissioned. if commissioned then as_some (map_err to_net_error read) else ok none)

  ftd_role : Result EspError Bool → Result EspError RoutingRoleEnum
  ftd_role (ok true) = ok RoutingRoleEnum.reed
  ftd_role (ok false) = ok RoutingRoleEnum.end_device
  ftd_role (err e) = err e
  ftd_role panic = panic

  awake_role : Result EspError Bool → Result EspError RoutingRoleEnum
  unfolding ftd_role
  awake_role (ok false) = ok RoutingRoleEnum.sleepy_end_device
  awake_role (ok true) =
      if esp.openthread_ftd then ftd_role esp.router_eligible else ok RoutingRoleEnum.end_device
  awake_role (err e) = err e
  awake_role panic = panic

  unfoldable pub child_routing_role : Result EspError RoutingRoleEnum
  unfolding awake_role
  child_routing_role = awake_role esp.rx_on_when_idle

  unfoldable pub role_of : Role → Result ErrorCode RoutingRoleEnum
  unfolding child_routing_role
  role_of Role.disabled = ok RoutingRoleEnum.unspecified
  role_of Role.detached = ok RoutingRoleEnum.unassigned
  role_of Role.child = map_err to_net_error child_routing_role
  role_of Role.router = ok RoutingRoleEnum.router
  role_of Role.leader = ok RoutingRoleEnum.leader

  unfoldable pub routing_role : Result ErrorCode (Option RoutingRoleEnum)
  unfolding role_of
  routing_role = read_then esp.role (λ role. as_some (role_of role))

  unfoldable pub channel : Result ErrorCode (Option ℕ)
  unfolding if_commissioned
  channel = if_commissioned esp.channel

  unfoldable pub pan_id : Result ErrorCode (Option ℕ)
  unfolding if_commissioned
  pan_id = if_commissioned esp.pan_id

  unfoldable pub extended_pan_id : Result ErrorCode (Option ℕ)
  unfolding if_commissioned
  extended_pan_id = if_commissioned esp.extended_pan_id

  unfoldable pub partition_id : Result ErrorCode (Option ℕ)
  unfolding if_commissioned
  partition_id = if_commissioned esp.partition_id

  unfoldable pub weighting : Result ErrorCode (Option ℕ)
  unfolding if_commissioned
  weighting = if_commissioned esp.leader_weight

  unfoldable pub data_version : Result ErrorCode (Option ℕ)
  unfolding if_commissioned
  data_version = if_commissioned esp.net_data_version

  unfoldable pub stable_data_version : Result ErrorCode (Option ℕ)
  unfolding if_commissioned
  stable_data_version = if_commissioned esp.net_data_stable_version

  unfoldable pub leader_router_id : Result ErrorCode (Option ℕ)
  unfolding if_commissioned
  leader_router_id = if_commissioned esp.leader_router_id

  unfoldable pub ext_address : Result ErrorCode (Option ℕ)
  unfolding if_commissioned
  ext_address = if_commissioned esp.ext_address

  unfoldable pub rloc_16 : Result ErrorCode (Option ℕ)
  unfolding if_commissioned
  rloc_16 = if_commissioned esp.rloc16
