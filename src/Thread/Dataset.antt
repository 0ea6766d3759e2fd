-- ===== src/Thread/Dataset.antt =====
-- thread.rs: the dataset fields that the Thread diagnostics report, packed into a `u64` and a
-- `u16`.
pub mod Packing
use esp_idf_matter.Base.{
  ℕ, zero, suc, ◌+◌, ◌*◌, ◌%◌, ◌^◌, bit_and, bit_or, Bool, true, false, List, [], ◌∷◌,
}

-- `bool as u64`.
abbrev pub bit_of : Bool → ℕ
bit_of true = 1
bit_of false = 0

-- `Timestamp` of OpenThread: a `u64` and a `u16`.
pub record Timestamp : Type 0 where
  pub seconds : ℕ
  pub ticks : ℕ
  pub authoritative : Bool

-- The shifts of a `u64` drop what passes the 64th bit.
unfoldable pub dataset_timestamp : Timestamp → ℕ
dataset_timestamp timestamp =
    bit_or (bit_or (timestamp.seconds * 2 ^ 16 % 2 ^ 64) (timestamp.ticks * 2 ^ 1 % 2 ^ 64))
      (bit_of timestamp.authoritative)

pub record SecurityPolicy : Type 0 where
  pub obtain_network_key_enabled : Bool
  pub native_commissioning_enabled : Bool
  pub routers_enabled : Bool
  pub external_commissioning_enabled : Bool
  pub commercial_commissioning_enabled : Bool
  pub autonomous_enrollment_enabled : Bool
  pub network_key_provisioning_enabled : Bool
  pub toble_link_enabled : Bool
  pub non_ccm_routers_enabled : Bool
  pub version_threshold_for_routing : ℕ

-- The array of the flags, lowest bit first.
abbrev pub flags_of : SecurityPolicy → List Bool
flags_of policy =
    policy.obtain_network_key_enabled ∷ policy.native_commissioning_enabled ∷ policy.routers_enabled
    ∷ policy.external_commissioning_enabled ∷ policy.commercial_commissioning_enabled
    ∷ policy.autonomous_enrollment_enabled ∷ policy.network_key_provisioning_enabled
    ∷ policy.toble_link_enabled ∷ policy.non_ccm_routers_enabled ∷ []

-- The `enumerate` and `fold`, from a bit on; a shift of a `u16` drops what passes the 16th bit.
unfoldable pub fold_flags : ℕ → ℕ → List Bool → ℕ
fold_flags bit flags [] = flags
fold_flags bit flags (set ∷ rest) =
    fold_flags (suc bit) (bit_or flags (bit_of set * 2 ^ bit % 2 ^ 16)) rest

unfoldable pub security_policy_flags : SecurityPolicy → ℕ
unfolding fold_flags
security_policy_flags policy =
    bit_or (fold_flags 0 0 (flags_of policy))
      (bit_and policy.version_threshold_for_routing 7 * 2 ^ 9 % 2 ^ 16)
