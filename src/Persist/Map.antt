-- ===== src/Persist/Map.antt =====
-- The store of persist.rs as a map from `u16` keys to blobs.
use esp_idf_matter.Base.{
  ℕ, ◌+◌, ◌*◌, ◌/◌, ◌%◌, ◌≤◌, ◌<◌, ◌≡◌, refl, ap, ◌⊎◌, inl, inr, true, false, ◌&&◌, Option, none,
  some, List, length, ◌==◌, ==_iff, bytes_eq, if◌then◌else◌, Bool-cases, Exec, ok, err, pure, ◌>>◌,
  arith,
}
use esp_idf_matter.Error.{EspError, ErrorCode, to_persist_error}
use esp_idf_matter.Persist.{EspNvs, hex_digit, format_04x, skey, persist, load, store, remove}

hex_digit_eq : (a b : ℕ) → a < 16 → b < 16 → (hex_digit a == hex_digit b) ≡ (a == b)
unfolding hex_digit
hex_digit_eq a b h k = ground arith

differ :
    (x y z u x' y' z' u' : ℕ)
    → (x ≡ x' → y ≡ y' → z ≡ z' → u ≡ u' → ⊥)
    → ((x == x') && ((y == y') && ((z == z') && ((u == u') && true)))) ≡ false
differ x y z u x' y' z' u' h = ground arith

nibbles_sum :
    (a : ℕ) → a < 65536 → a ≡ a / 4096 % 16 * 4096 + a / 256 % 16 * 256 + a / 16 % 16 * 16 + a % 16
nibbles_sum a h = omega arith

distinct :
    (a b : ℕ)
    → a < 65536
    → b < 65536
    → (a == b) ≡ false
    → a / 4096 % 16 ≡ b / 4096 % 16
    → a / 256 % 16 ≡ b / 256 % 16
    → a / 16 % 16 ≡ b / 16 % 16
    → a % 16 ≡ b % 16
    → ⊥
distinct a b h k other e0 e1 e2 e3 =
    let same : a ≡ b = omega (arith, nibbles_sum a h, nibbles_sum b k) in
    ground (arith, (==_iff a b).1 same)

nibbles_eq :
    (a b : ℕ)
    → a < 65536
    → b < 65536
    → ((a / 4096 % 16 == b / 4096 % 16)
        && ((a / 256 % 16 == b / 256 % 16)
            && ((a / 16 % 16 == b / 16 % 16) && ((a % 16 == b % 16) && true))))
      ≡ (a == b)
nibbles_eq a b h k = elim (Bool-cases (a == b)) [
  | inl same ↦ ground (arith, ap (λ (x : ℕ). x % 16) ((==_iff a b).0 same))
  | inr other ↦ ground (
    arith,
    differ (a / 4096 % 16) (a / 256 % 16) (a / 16 % 16) (a % 16) (b / 4096 % 16) (b / 256 % 16)
        (b / 16 % 16) (b % 16) (distinct a b h k other),
  )
]

-- The names of two `u16` keys are the same exactly when the keys are.
format_04x_eq :
    (a b : ℕ) → a < 65536 → b < 65536 → bytes_eq (format_04x a) (format_04x b) ≡ (a == b)
unfolding format_04x
format_04x_eq a b h k =
    let e0 = hex_digit_eq (a / 4096 % 16) (b / 4096 % 16) (omega arith) (omega arith) in
    let e1 = hex_digit_eq (a / 256 % 16) (b / 256 % 16) (omega arith) (omega arith) in
    let e2 = hex_digit_eq (a / 16 % 16) (b / 16 % 16) (omega arith) (omega arith) in
    let e3 = hex_digit_eq (a % 16) (b % 16) (omega arith) (omega arith) in
    rw (e0, e1, e2, e3) (nibbles_eq a b h k)

-- A name fits the string it is written to.
skey_lem : {E : Type 0} (key : ℕ) → skey {E = E} key ≡ ok (format_04x key)
unfolding skey
skey_lem key = refl

module _ {W : Type 0} (nvs : EspNvs W) where
  store_eq :
      (key : ℕ) (bytes : List ℕ) (w : W)
      → store nvs key bytes w ≡ persist (nvs.set_blob (format_04x key) bytes) w
  unfolding store
  store_eq key bytes w = refl

  load_eq :
      (key len : ℕ) (w : W) → load nvs key len w ≡ persist (nvs.get_blob (format_04x key) len) w
  unfolding load
  load_eq key len w = refl

  remove_eq :
      (key : ℕ) (w : W) → remove nvs key w ≡ (persist (nvs.remove (format_04x key)) >> pure tt) w
  unfolding remove
  remove_eq key w = refl

module _ {W : Type 0} (nvs : EspNvs W) (blob : W → List ℕ → Option (List ℕ)) where
  -- The blob of a key.
  abbrev pub at : W → ℕ → Option (List ℕ)
  at w key = blob w (format_04x key)

  -- What the partition promises. A failure says nothing of the blobs.
  abbrev pub Updates : {A : Type 0} → Exec EspError W A → List ℕ → Option (List ℕ) → Type 0
  Updates {A} m k value =
      (w : W)
      → ((a : A) × ((m w).0 ≡ ok a)
          × ((k' : List ℕ) → blob (m w).1 k' ≡ (if bytes_eq k k' then value else blob w k')))
        ⊎ ((e : EspError) × ((m w).0 ≡ err e))

module _ {W : Type 0} (nvs : EspNvs W) (blob : W → List ℕ → Option (List ℕ))
    (sets : (k bytes : List ℕ) → Updates nvs blob (nvs.set_blob k bytes) k (some bytes)) where
  -- `store` of a `u16` key fails with the store's error, or it sets the blob of that key and leaves
  -- the blob of every other key alone.
  store_lem :
      (key key' : ℕ) (bytes : List ℕ) (w : W)
      → key < 65536
      → key' < 65536
      → let (r, w') = store nvs key bytes w in
        ((r ≡ ok tt)
          × (at nvs blob w' key' ≡ (if key == key' then some bytes else at nvs blob w key')))
        ⊎ (r ≡ err ErrorCode.std_io_error)
  unfolding to_persist_error
  store_lem key key' bytes w h h' = elim (sets (format_04x key) bytes w) [
    | inr (e, k) ↦ inr (ground (arith, store_eq nvs key bytes w))
    | inl (a, k, v) ↦ inl (
      ground (arith, store_eq nvs key bytes w),
      ground (arith, store_eq nvs key bytes w, format_04x_eq key key' h h', v (format_04x key')),
    )
  ]

module _ {W : Type 0} (nvs : EspNvs W) (blob : W → List ℕ → Option (List ℕ))
    (removes : (k : List ℕ) → Updates nvs blob (nvs.remove k) k none) where
  -- `remove` of a `u16` key fails with the store's error, or the key has no blob afterwards and
  -- every other key has the one it had.
  remove_lem :
      (key key' : ℕ) (w : W)
      → key < 65536
      → key' < 65536
      → let (r, w') = remove nvs key w in
        ((r ≡ ok tt) × (at nvs blob w' key' ≡ (if key == key' then none else at nvs blob w key')))
        ⊎ (r ≡ err ErrorCode.std_io_error)
  unfolding to_persist_error
  remove_lem key key' w h h' = elim (removes (format_04x key) w) [
    | inr (e, k) ↦ inr (ground (arith, remove_eq nvs key w))
    | inl (a, k, v) ↦ inl (
      ground (arith, remove_eq nvs key w),
      ground (arith, remove_eq nvs key w, format_04x_eq key key' h h', v (format_04x key')),
    )
  ]

module _ {W : Type 0} (nvs : EspNvs W) (blob : W → List ℕ → Option (List ℕ))
    (sets : (k bytes : List ℕ) → Updates nvs blob (nvs.set_blob k bytes) k (some bytes))
    (removes : (k : List ℕ) → Updates nvs blob (nvs.remove k) k none) where
  -- `store` and `remove` of a `u16` key fail with the store's error, or afterwards that key has the
  -- stored blob, or none, and every other key has the blob it had.
  pub store_remove_lem :
      (key key' : ℕ) (bytes : List ℕ) (w : W)
      → key < 65536
      → key' < 65536
      → let (r, w') = store nvs key bytes w in
        let (t, w'') = remove nvs key w in
        (((r ≡ ok tt)
            × (at nvs blob w' key' ≡ (if key == key' then some bytes else at nvs blob w key')))
          ⊎ (r ≡ err ErrorCode.std_io_error))
        × (((t ≡ ok tt)
              × (at nvs blob w'' key' ≡ (if key == key' then none else at nvs blob w key')))
            ⊎ (t ≡ err ErrorCode.std_io_error))
  store_remove_lem key key' bytes w h h' =
      (store_lem nvs blob sets key key' bytes w h h', remove_lem nvs blob removes key key' w h h')

module _ {W : Type 0} (nvs : EspNvs W) (blob : W → List ℕ → Option (List ℕ))
    (sets : (k bytes : List ℕ) → Updates nvs blob (nvs.set_blob k bytes) k (some bytes))
    (gets_blob : (k : List ℕ) (len : ℕ) (w : W) (bytes : List ℕ)
      → blob w k ≡ some bytes
      → length bytes ≤ len
      → (nvs.get_blob k len w).0 ≡ ok (some bytes)) where
  -- What `store` accepted, `load` of the same key gives back into any buffer it fits in.
  pub store-load :
      (key : ℕ) (bytes : List ℕ) (len : ℕ) (w : W)
      → key < 65536
      → length bytes ≤ len
      → (store nvs key bytes w).0 ≡ ok tt
      → (load nvs key len (store nvs key bytes w).1).0 ≡ ok (some bytes)
  store-load key bytes len w h fits stored = elim (store_lem nvs blob sets key key bytes w h h) [
    | inr e ↦ absurd (ground arith)
    | inl (e, v) ↦ ground (
      arith,
      load_eq nvs key len (store nvs key bytes w).1,
      gets_blob (format_04x key) len (store nvs key bytes w).1 bytes,
    )
  ]
