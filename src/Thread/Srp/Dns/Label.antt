-- ===== src/Thread/Srp/Dns/Label.antt =====
-- The label under which thread.rs resolves a service, read back.
use esp_idf_matter.Base.{
  ℕ, zero, suc, ◌+◌, ◌-◌, ◌*◌, ◌/◌, ◌%◌, ◌^◌, ◌≤◌, ◌<◌, ◌==◌, ltb, if◌then◌else◌, Option, none,
  some, List, [], ◌∷◌, ◌++◌, length, length-append, take, drop, ◌≡◌, refl, sym, ap, ◌∙◌, arith,
}
use esp_idf_matter.Thread.Srp.Host.{hex_digit_upper}
use esp_idf_matter.Thread.Srp.Dns.{MatterRemoteService, hex_digits, write_to, label}
use mathlib.Core.List.{append_assoc, append-nil}

hex_value : ℕ → ℕ
hex_value c = if ltb c 58 then c - 48 else c - 55

-- The number of hexadecimal digits, behind what was read before.
hex_number : ℕ → List ℕ → ℕ
hex_number n [] = n
hex_number n (c ∷ rest) = hex_number (n * 16 + hex_value c) rest

-- 16 digits stand for a service to commission, and 16 after 16 and a dash for an operational one.
pub read_label : List ℕ → Option MatterRemoteService
read_label s =
    if length s == 16
    then some (MatterRemoteService.commissionable (hex_number 0 s))
    else if length s == 33
    then some
        (MatterRemoteService.operational (hex_number 0 (take 16 s)) (hex_number 0 (drop 17 s)))
    else none

-- The numbers are those of a `u64`.
abbrev pub IsU64 : MatterRemoteService → Type 0
IsU64 (MatterRemoteService.operational c n) = (c < 2 ^ 64) × (n < 2 ^ 64)
IsU64 (MatterRemoteService.commissionable id) = id < 2 ^ 64

length-hex_digits : (k n : ℕ) → length (hex_digits k n) ≡ k
unfolding hex_digits
length-hex_digits zero n = refl
length-hex_digits (suc k) n = ground (
  arith,
  length-append (hex_digits k (n / 16)) (hex_digit_upper (n % 16) ∷ []),
  length-hex_digits k (n / 16),
)

hex_value-hex_digit_upper : (d : ℕ) → d < 16 → hex_value (hex_digit_upper d) ≡ d
unfolding hex_value hex_digit_upper
hex_value-hex_digit_upper d h = ground arith

pow_suc : (k : ℕ) → 16 ^ suc k ≡ 16 ^ k * 16
pow_suc k = grind arith

place_lem : (m p n : ℕ) → (m * p + n / 16) * 16 + n % 16 ≡ m * (p * 16) + n
place_lem m p n = grind arith

hex_number-hex_digits :
    (k n m : ℕ) (rest : List ℕ)
    → n < 16 ^ k
    → hex_number m (hex_digits k n ++ rest) ≡ hex_number (m * 16 ^ k + n) rest
unfolding hex_digits hex_number
hex_number-hex_digits zero n m rest h = ap (λ x. hex_number x rest) (ground arith)
hex_number-hex_digits (suc k) n m rest h =
    let value = hex_value-hex_digit_upper (n % 16) (omega arith) in
    ap (hex_number m) (append_assoc (hex_digits k (n / 16)) (hex_digit_upper (n % 16) ∷ []) rest)
    ∙ hex_number-hex_digits k (n / 16) m (hex_digit_upper (n % 16) ∷ rest)
        (omega (arith, pow_suc k))
    ∙ ap (λ x. hex_number x rest)
        (ap (◌+◌ ((m * 16 ^ k + n / 16) * 16)) value
          ∙ place_lem m (16 ^ k) n
          ∙ ap (λ p. m * p + n) (sym (pow_suc k)))

start : (n : ℕ) → hex_number (0 * 16 ^ 16 + n) [] ≡ n
unfolding hex_number
start n = omega arith

hex_number-hex_digits_16 : (n : ℕ) → n < 2 ^ 64 → hex_number 0 (hex_digits 16 n) ≡ n
hex_number-hex_digits_16 n h =
    ap (hex_number 0) (sym (append-nil (hex_digits 16 n)))
    ∙ hex_number-hex_digits 16 n 0 [] (omega arith)
    ∙ start n

-- The label of a service fits in its 33 bytes, and can be read back: no two services have the same.
pub label_lem :
    (service : MatterRemoteService)
    → IsU64 service
    → (length (label service) ≤ 33) × (read_label (label service) ≡ some service)
unfolding label write_to read_label
label_lem (MatterRemoteService.commissionable id) h = (
  omega arith,
  ap (λ x. some (MatterRemoteService.commissionable x)) (hex_number-hex_digits_16 id h),
)
label_lem (MatterRemoteService.operational c n) (h, k) = (
  omega arith,
  ap (λ x. some (MatterRemoteService.operational x (hex_number 0 (hex_digits 16 n))))
        (hex_number-hex_digits_16 c h)
      ∙ ap (λ x. some (MatterRemoteService.operational c x)) (hex_number-hex_digits_16 n k),
)
