-- ===== src/Thread/Dataset/Packing.antt =====
-- The fields of the packed values of thread.rs.
use esp_idf_matter.Base.{
  ℕ, suc, ◌+◌, ◌*◌, ◌/◌, ◌%◌, ◌^◌, ◌≤◌, ◌<◌, bit_or, bit_or_disjoint, bit_or_disjoint_above,
  bit_and_seven, Bool, true, false, List, [], ◌∷◌, length, ◌≡◌, ap, arith,
}
use native.Mathlib.Nat.{pow-suc, pow-le-pow_right}
use esp_idf_matter.Thread.Dataset.{
  bit_of, Timestamp, dataset_timestamp, SecurityPolicy, flags_of, fold_flags, security_policy_flags,
}

-- Of a timestamp with seconds below 2^48 and ticks below 2^15, the packed value gives back every
-- field: the seconds above 16 bits, the ticks in the 15 bits below, and the authoritative bit last.
dataset_timestamp_lem :
    (t : Timestamp)
    → t.seconds < 2 ^ 48
    → t.ticks < 2 ^ 15
    → (dataset_timestamp t / 2 ^ 16 ≡ t.seconds)
      × (dataset_timestamp t / 2 % 2 ^ 15 ≡ t.ticks)
      × (dataset_timestamp t % 2 ≡ bit_of t.authoritative)
unfolding dataset_timestamp
dataset_timestamp_lem t hs ht = ground (
  arith,
  bit_or_disjoint 16 t.seconds (t.ticks * 2) (omega arith),
  bit_or_disjoint 1 (t.seconds * 2 ^ 15 + t.ticks) (bit_of t.authoritative),
)

-- The value of a list of flags, lowest bit first.
abbrev pub value_of : List Bool → ℕ
value_of [] = 0
value_of (set ∷ rest) = bit_of set + 2 * value_of rest

value_of-lt : (flags : List Bool) → value_of flags < 2 ^ length flags
value_of-lt [] = omega arith
value_of-lt (true ∷ rest) = omega (arith, value_of-lt rest, pow-suc 2 (length rest))
value_of-lt (false ∷ rest) = omega (arith, value_of-lt rest, pow-suc 2 (length rest))

set_bit :
    (bit flags : ℕ) (set : Bool)
    → flags < 2 ^ bit
    → 2 ^ bit ≤ 32768
    → bit_or flags (bit_of set * 2 ^ bit % 65536) ≡ flags + bit_of set * 2 ^ bit
set_bit bit flags true h k = ground (arith, bit_or_disjoint_above bit flags 1 h)
set_bit bit flags false h k = ground (arith, bit_or_disjoint_above bit flags 0 h)

next : (bit flags : ℕ) (set : Bool) → flags < 2 ^ bit → flags + bit_of set * 2 ^ bit < 2 ^ suc bit
next bit flags true h = omega (arith, pow-suc 2 bit)
next bit flags false h = omega (arith, pow-suc 2 bit)

-- A bit of a `u16`.
two-pow-le : (bit : ℕ) → bit < 16 → 2 ^ bit ≤ 32768
two-pow-le bit h = pow-le-pow_right {n = 2} (omega arith) {i = bit} {j = 15} (omega arith)

fold_flags_lem :
    (bit flags : ℕ) (rest : List Bool)
    → flags < 2 ^ bit
    → bit + length rest ≤ 16
    → fold_flags bit flags rest ≡ flags + value_of rest * 2 ^ bit
unfolding fold_flags
fold_flags_lem bit flags [] h k = omega arith
fold_flags_lem bit flags (set ∷ rest) h k = ground (
  arith,
  set_bit bit flags set h (two-pow-le bit (omega arith)),
  pow-suc 2 bit,
  fold_flags_lem (suc bit) (flags + bit_of set * 2 ^ bit) rest (next bit flags set h) (omega arith),
  ap (λ (t : ℕ). value_of rest * t) (pow-suc 2 bit),
)

-- The packed flags are the nine of the policy, lowest bit first, below three bits that hold the
-- version threshold modulo 8, for any threshold of a byte.
security_policy_flags_lem :
    (policy : SecurityPolicy)
    → policy.version_threshold_for_routing < 256
    → (security_policy_flags policy % 2 ^ 9 ≡ value_of (flags_of policy))
      × (security_policy_flags policy / 2 ^ 9 ≡ policy.version_threshold_for_routing % 8)
unfolding security_policy_flags
security_policy_flags_lem policy h = ground (
  arith,
  fold_flags_lem 0 0 (flags_of policy) (omega arith) (omega arith),
  value_of-lt (flags_of policy),
  bit_and_seven policy.version_threshold_for_routing h,
  bit_or_disjoint_above 9 (value_of (flags_of policy)) (policy.version_threshold_for_routing % 8)
      (value_of-lt (flags_of policy)),
)

-- The packed timestamp gives back seconds below 2^48, ticks below 2^15 and the authoritative bit;
-- and the packed policy, with the threshold of a byte, is its nine flags, lowest bit first, below
-- the version threshold modulo 8.
pub packed_fields :
    (t : Timestamp) (policy : SecurityPolicy)
    → t.seconds < 2 ^ 48
    → t.ticks < 2 ^ 15
    → policy.version_threshold_for_routing < 256
    → (dataset_timestamp t / 2 ^ 16 ≡ t.seconds)
      × (dataset_timestamp t / 2 % 2 ^ 15 ≡ t.ticks)
      × (dataset_timestamp t % 2 ≡ bit_of t.authoritative)
      × (security_policy_flags policy % 2 ^ 9 ≡ value_of (flags_of policy))
      × (security_policy_flags policy / 2 ^ 9 ≡ policy.version_threshold_for_routing % 8)
packed_fields t policy hs ht h =
    let (seconds, ticks, authoritative) = dataset_timestamp_lem t hs ht in
    let (flags, threshold) = security_policy_flags_lem policy h in
    (seconds, ticks, authoritative, flags, threshold)
