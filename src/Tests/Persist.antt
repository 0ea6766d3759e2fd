-- ===== src/Tests/Persist.antt =====
-- The store of persist.rs over partitions with one blob, or none.
use esp_idf_matter.Base.{
  ℕ, ◌≤◌, true, Option, none, some, List, [], ◌∷◌, ◌≡◌, ◌⊎◌, inl, refl, length, bytes_eq, ◌==◌,
  if◌then◌else◌, Result, ok, err, arith,
}
use esp_idf_matter.Error.{EspError, ErrorCode}
use esp_idf_matter.Persist.{EspNvs, load, store, remove}
use esp_idf_matter.Persist.Map.{at, Updates, store_remove_lem, store-load}

-- The partition is the list of its blobs by name, latest first.
abbrev Blobs : Type 0
Blobs = List (List ℕ × Option (List ℕ))

abbrev blob : Blobs → List ℕ → Option (List ℕ)
blob [] k = none
blob ((k', value) ∷ rest) k = if bytes_eq k' k then value else blob rest k

abbrev of_blob : Option (List ℕ) → ℕ → Result EspError (Option (List ℕ))
of_blob none len = ok none
of_blob (some bytes) len = ok (some bytes)

abbrev nvs : EspNvs Blobs
nvs = record {
  get_blob = λ k len w. (of_blob (blob w k) len, w);
  set_blob = λ k bytes w. (ok tt, (k, some bytes) ∷ w);
  remove = λ k w. (ok true, (k, none) ∷ w);
}

sets : (k bytes : List ℕ) → Updates nvs blob (nvs.set_blob k bytes) k (some bytes)
sets k bytes w = inl (tt, refl, λ k'. refl)

removes : (k : List ℕ) → Updates nvs blob (nvs.remove k) k none
removes k w = inl (true, refl, λ k'. refl)

gets_blob :
    (k : List ℕ) (len : ℕ) (w : Blobs) (bytes : List ℕ)
    → blob w k ≡ some bytes
    → length bytes ≤ len
    → (nvs.get_blob k len w).0 ≡ ok (some bytes)
gets_blob k len w bytes h fits = ground arith

store_remove_lem_example :
    let (r, w') = store nvs 0x1f (7 ∷ []) [] in
    let (t, w'') = remove nvs 0x1f [] in
    (((r ≡ ok tt)
        × (at nvs blob w' 0x20 ≡ (if 0x1f == 0x20 then some (7 ∷ []) else at nvs blob [] 0x20)))
      ⊎ (r ≡ err ErrorCode.std_io_error))
    × (((t ≡ ok tt) × (at nvs blob w'' 0x20 ≡ (if 0x1f == 0x20 then none else at nvs blob [] 0x20)))
        ⊎ (t ≡ err ErrorCode.std_io_error))
store_remove_lem_example =
    store_remove_lem nvs blob sets removes 0x1f 0x20 (7 ∷ []) [] (omega arith) (omega arith)

store-load_example :
    (load nvs 0x1f 16 (store nvs 0x1f (7 ∷ 8 ∷ []) []).1).0 ≡ ok (some (7 ∷ 8 ∷ []))
unfolding store
store-load_example =
    store-load nvs blob sets gets_blob 0x1f (7 ∷ 8 ∷ []) 16 [] (omega arith) (omega arith) refl
