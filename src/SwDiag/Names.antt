-- ===== src/SwDiag/Names.antt =====
-- The names of tasks that sw_diag.rs reports.
use esp_idf_matter.Base.{
  ℕ, suc, ◌+◌, ◌≤◌, ◌<◌, ◌≡◌, ◌⊎◌, inl, inr, refl, sym, ◌∙◌, Bool, true, false, List, [], ◌∷◌, ◌++◌,
  some, take, length, length-append, leb, if◌then◌else◌, arith,
}
use mathlib.Core.List.{append-nil, append_assoc}
use esp_idf_matter.SwDiag.{Char, max_name_len, push_chars, name_prefix}

-- The bytes of a string.
unfoldable pub bytes : List Char → List ℕ
bytes [] = []
bytes (ch ∷ chars) = ch ++ bytes chars

-- A name is cut behind a character, is short enough, and one more character would be too much.
abbrev pub Cut : List ℕ → List Char → List ℕ → Type 0
Cut prefix chars name =
    (n : ℕ) × (name ≡ prefix ++ bytes (take n chars))
    × (length name ≤ max_name_len)
    × ((length chars ≤ n) ⊎ (max_name_len < length (prefix ++ bytes (take (suc n) chars))))

push_more :
    (prefix : List ℕ) (ch : Char) (chars : List Char) (name : List ℕ)
    → Cut (prefix ++ ch) chars name
    → Cut prefix (ch ∷ chars) name
unfolding bytes
push_more prefix ch chars name (n, same, short, inl whole) =
    (suc n, same ∙ append_assoc prefix ch (bytes (take n chars)), short, inl (omega arith))
push_more prefix ch chars name (n, same, short, inr full) = (
  suc n,
  same ∙ append_assoc prefix ch (bytes (take n chars)),
  short,
  inr (rw (sym (append_assoc prefix ch (bytes (take (suc n) chars)))) full),
)

push_none :
    (prefix : List ℕ) (ch : Char) (chars : List Char)
    → length prefix ≤ max_name_len
    → leb (length prefix + length ch) max_name_len ≡ false
    → Cut prefix (ch ∷ chars) prefix
unfolding bytes
push_none prefix ch chars short full = (
  0,
  sym (append-nil prefix),
  short,
  inr (ground (arith, length-append prefix (ch ++ []), length-append {A = ℕ} ch [])),
)

push_chars-Cut :
    (prefix : List ℕ) (chars : List Char)
    → length prefix ≤ max_name_len
    → Cut prefix chars (push_chars prefix chars)
unfolding push_chars
push_chars-Cut prefix [] short =
    (0, unfold bytes in sym (append-nil prefix), short, inl (omega arith))
push_chars-Cut prefix (ch ∷ chars) short =
    pushed (leb (length prefix + length ch) max_name_len) refl
      (λ fits. push_chars-Cut (prefix ++ ch) chars (ground (arith, length-append prefix ch)))
  where
    pushed :
        (fits : Bool)
        → leb (length prefix + length ch) max_name_len ≡ fits
        → (fits ≡ true → Cut (prefix ++ ch) chars (push_chars (prefix ++ ch) chars))
        → Cut prefix (ch ∷ chars) (if fits then push_chars (prefix ++ ch) chars else prefix)
    pushed true e later = push_more prefix ch chars (push_chars (prefix ++ ch) chars) (later refl)
    pushed false e later = push_none prefix ch chars short e

-- The reported name of a task is the longest run of whole characters of its name, from the front,
-- that fits in eight bytes.
pub name_prefix-Cut : (name : List Char) → Cut [] name (name_prefix (some name))
unfolding name_prefix
name_prefix-Cut name = push_chars-Cut [] name (omega arith)
