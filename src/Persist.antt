-- ===== src/Persist.antt =====
-- persist.rs: the key-value store over the NVS partition of ESP-IDF, a parameter.
pub mod Map
use esp_idf_matter.Base.{
  ℕ, ◌+◌, ◌-◌, ◌/◌, ◌%◌, Option, List, [], ◌∷◌, ltb, leb, length, if◌then◌else◌, Exec, Result, ok,
  err, panic, Bool, pure, lift, map_err, ◌>>=◌, ◌>>◌,
}
use esp_idf_matter.Error.{EspError, ErrorCode, to_persist_error}

-- The blobs of a namespace. A blob is read into a buffer of some length.
pub record EspNvs (W : Type 0) : Type 0 where
  pub get_blob : List ℕ → ℕ → Exec EspError W (Option (List ℕ))
  pub set_blob : List ℕ → List ℕ → Exec EspError W (Unit {0})
  -- Whether there was such a blob.
  pub remove : List ℕ → Exec EspError W Bool

-- A lower-case hexadecimal digit.
unfoldable pub hex_digit : ℕ → ℕ
hex_digit d = if ltb d 10 then 48 + d else 87 + d

-- `{key:04x}` of a `u16`, which has at most four digits.
unfoldable pub format_04x : ℕ → List ℕ
unfolding hex_digit
format_04x key =
    hex_digit (key / 4096 % 16)
    ∷ hex_digit (key / 256 % 16)
    ∷ hex_digit (key / 16 % 16)
    ∷ hex_digit (key % 16)
    ∷ []

-- `write!` to a `String<5>`, unwrapped.
unfoldable pub skey : {E : Type 0} → ℕ → Result E (List ℕ)
unfolding format_04x
skey key = if leb (length (format_04x key)) 5 then ok (format_04x key) else panic

module _ {W A : Type 0} where
  -- A call of the partition, its error one of the store.
  abbrev pub persist : Exec EspError W A → Exec ErrorCode W A
  persist m w = let (r, w') = m w in (map_err to_persist_error r, w')

module _ {W : Type 0} (nvs : EspNvs W) where
  unfoldable pub load : ℕ → ℕ → Exec ErrorCode W (Option (List ℕ))
  unfolding skey
  load key buf_len = lift (skey key) >>= λ k. persist (nvs.get_blob k buf_len)

  unfoldable pub store : ℕ → List ℕ → Exec ErrorCode W (Unit {0})
  unfolding skey
  store key bytes = lift (skey key) >>= λ k. persist (nvs.set_blob k bytes)

  unfoldable pub remove : ℕ → Exec ErrorCode W (Unit {0})
  unfolding skey
  remove key = do k ← lift (skey key); persist (nvs.remove k); pure tt
