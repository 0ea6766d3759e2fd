-- ===== src/Thread/Ctl/Kept.antt =====
-- What `scan` of thread.rs keeps of the calls of its callback.
use esp_idf_matter.Base.{
  ℕ, zero, suc, ◌<◌, ◌≤◌, ◌-◌, ◌≡◌, refl, ap, sym, ◌∙◌, length-append, Bool, true, false, Option,
  none, some, List, [], ◌∷◌, ◌++◌, length, take, map, All, ltb, if◌then◌else◌, ok, arith,
}
use mathlib.Core.List.{append-nil, append_assoc}
use esp_idf_matter.Thread.Ctl.Scan.{
  ActiveScanResult, OwnedScanResult, from_be_bytes, to_be_bytes, own, owned, note_calls,
}

-- A result as OpenThread gives it: both addresses have eight bytes.
abbrev pub IsResult : Option ActiveScanResult → Type 0
IsResult none = Unit
IsResult (some info) =
    (length info.extended_pan_id ≡ 8)
    × (length info.extended_address ≡ 8)
    × All (λ b. b < 256) info.extended_pan_id

-- Big-endian byte by byte.
bytes_of :
    (a b c d e f g h : ℕ)
    → a < 256
    → b < 256
    → c < 256
    → d < 256
    → e < 256
    → f < 256
    → g < 256
    → h < 256
    → to_be_bytes (from_be_bytes 0 (a ∷ b ∷ c ∷ d ∷ e ∷ f ∷ g ∷ h ∷ []))
      ≡ a ∷ b ∷ c ∷ d ∷ e ∷ f ∷ g ∷ h ∷ []
bytes_of a b c d e f g h la lb lc ld le lf lg lh = ground arith

pub to_be_bytes-from_be_bytes :
    (bytes : List ℕ)
    → length bytes ≡ 8
    → All (λ b. b < 256) bytes
    → to_be_bytes (from_be_bytes 0 bytes) ≡ bytes
to_be_bytes-from_be_bytes (a ∷ b ∷ c ∷ d ∷ e ∷ f ∷ g ∷ h ∷ []) eight
      (la, (lb, (lc, (ld, (le, (lf, (lg, (lh, _)))))))) =
    bytes_of a b c d e f g h la lb lc ld le lf lg lh
to_be_bytes-from_be_bytes [] eight small = absurd (omega arith)
to_be_bytes-from_be_bytes (a ∷ []) eight small = absurd (omega arith)
to_be_bytes-from_be_bytes (a ∷ b ∷ []) eight small = absurd (omega arith)
to_be_bytes-from_be_bytes (a ∷ b ∷ c ∷ []) eight small = absurd (omega arith)
to_be_bytes-from_be_bytes (a ∷ b ∷ c ∷ d ∷ []) eight small = absurd (omega arith)
to_be_bytes-from_be_bytes (a ∷ b ∷ c ∷ d ∷ e ∷ []) eight small = absurd (omega arith)
to_be_bytes-from_be_bytes (a ∷ b ∷ c ∷ d ∷ e ∷ f ∷ []) eight small = absurd (omega arith)
to_be_bytes-from_be_bytes (a ∷ b ∷ c ∷ d ∷ e ∷ f ∷ g ∷ []) eight small = absurd (omega arith)
to_be_bytes-from_be_bytes (a ∷ b ∷ c ∷ d ∷ e ∷ f ∷ g ∷ h ∷ i ∷ rest) eight small =
    absurd (omega arith)

owned_lem :
    {E : Type 0} (info : ActiveScanResult)
    → IsResult (some info)
    → owned {E = E} info ≡ ok (own info)
unfolding owned
owned_lem info h = ground arith

-- What the calls of the callback bring.
unfoldable pub found : List (Option ActiveScanResult) → List ActiveScanResult
found [] = []
found (none ∷ calls) = found calls
found (some info ∷ calls) = info ∷ found calls

-- Up to five results are kept, the first ones.
abbrev pub kept : List OwnedScanResult → List ActiveScanResult → List OwnedScanResult
kept results infos = results ++ map own (take (5 - length results) infos)

-- The results after one more.
abbrev pushed : List OwnedScanResult → ActiveScanResult → List OwnedScanResult
pushed results info = if ltb (length results) 5 then results ++ own info ∷ [] else results

pushed_room :
    (results : List OwnedScanResult) (info : ActiveScanResult)
    → length results ≤ 5
    → length (pushed results info) ≤ 5
pushed_room results info room = ground (arith, length-append results (own info ∷ []))

take_none : {A : Type 0} (n : ℕ) → take {A = A} n [] ≡ []
take_none zero = refl
take_none (suc n) = refl

none_kept : (results : List OwnedScanResult) → kept results [] ≡ results
none_kept results = rw (take_none {A = ActiveScanResult} (5 - length results)) (append-nil results)

take_first :
    {A : Type 0} (n : ℕ) (x : A) (xs : List A) → 0 < n → take n (x ∷ xs) ≡ x ∷ take (n - 1) xs
take_first zero x xs h = absurd (omega arith)
take_first (suc n) x xs h = let back : suc n - 1 ≡ n = omega arith in rw back refl

kept-pushed_at :
    (results : List OwnedScanResult) (info : ActiveScanResult) (infos : List ActiveScanResult)
    (more : Bool)
    → ltb (length results) 5 ≡ more
    → kept (if more then results ++ own info ∷ [] else results) infos ≡ kept results (info ∷ infos)
kept-pushed_at results info infos true e =
    let first = take_first (5 - length results) info infos (ground arith) in
    let shorter : 5 - length (results ++ own info ∷ []) ≡ 5 - length results - 1 =
      omega (arith, length-append results (own info ∷ [])) in
    rw (first, shorter)
      (append_assoc results (own info ∷ []) (map own (take (5 - length results - 1) infos)))
kept-pushed_at results info infos false e =
    let full : 5 - length results ≡ 0 = ground arith in rw full refl

pub IsResult-append :
    (xs ys : List (Option ActiveScanResult))
    → All IsResult xs
    → All IsResult ys
    → All IsResult (xs ++ ys)
IsResult-append [] ys first good = good
IsResult-append (x ∷ xs) ys first good = (first.0, IsResult-append xs ys first.1 good)

module _ {E : Type 0} where
  pub note_calls-kept :
      (calls : List (Option ActiveScanResult)) (results : List OwnedScanResult)
      → All IsResult calls
      → length results ≤ 5
      → note_calls {E = E} calls results ≡ ok (kept results (found calls))
  unfolding note_calls found
  note_calls-kept [] results good room = ap ok (sym (none_kept results))
  note_calls-kept (none ∷ calls) results good room = note_calls-kept calls results good.1 room
  note_calls-kept (some info ∷ calls) results good room =
      let later =
        note_calls-kept calls (pushed results info) good.1 (pushed_room results info room) in
      rw (owned_lem {E = E} info good.0, note_calls)
        (later ∙ ap ok (kept-pushed_at results info (found calls) (ltb (length results) 5) refl))

module _ {E : Type 0} where
  note_calls-append :
      (calls more : List (Option ActiveScanResult)) (results : List OwnedScanResult)
      → All IsResult calls
      → note_calls {E = E} (calls ++ more) results ≡ note_calls more (kept results (found calls))
  unfolding found note_calls
  note_calls-append [] more results good = ap (note_calls more) (sym (none_kept results))
  note_calls-append (none ∷ calls) more results good = note_calls-append calls more results good.1
  note_calls-append (some info ∷ calls) more results good =
      let kept_one = kept-pushed_at results info (found calls) (ltb (length results) 5) refl in
      rw (owned_lem {E = E} info good.0, note_calls)
        (note_calls-append calls more (pushed results info) good.1 ∙ ap (note_calls more) kept_one)

  -- The results after more calls.
  pub note_calls-later :
      (noted calls : List (Option ActiveScanResult))
      → All IsResult noted
      → All IsResult calls
      → note_calls {E = E} calls (kept [] (found noted)) ≡ ok (kept [] (found (noted ++ calls)))
  note_calls-later noted calls first good =
      sym (note_calls-append noted calls [] first)
      ∙ note_calls-kept (noted ++ calls) [] (IsResult-append noted calls first good) (omega arith)
