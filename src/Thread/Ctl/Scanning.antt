-- ===== src/Thread/Ctl/Scanning.antt =====
-- Which networks `scan` of thread.rs reports.
use esp_idf_matter.Base.{
  ℕ, zero, suc, ◌≡◌, refl, ap, sym, Bool, true, false, Option, none, some, List, [], ◌++◌, take,
  map, All, Exec, Result, ok, err, panic, map_err, arith,
}
use esp_idf_matter.Error.{EspError, ErrorCode, NetCtlError, other, to_net_ctl_error}
use mathlib.Core.Path.{subst}
use mathlib.Core.List.{append-nil, append_assoc}
use esp_idf_matter.Netctl.Visit.{for_each}
use esp_idf_matter.Thread.Ctl.Scan.{
  ActiveScanResult, OwnedScanResult, ActiveScan, poll_scan_wait, own, after_poll, poll_scan, scan,
}
use esp_idf_matter.Thread.Ctl.Kept.{
  IsResult, IsResult-append, found, kept, note_calls-kept, note_calls-later,
}
use esp_idf_matter.Thread.Ctl.Asked.{asked, report-asked, found-IsResult, take-IsResult}

module _ {W : Type 0} (esp : ActiveScan W) where
  heard_more :
      List (Option ActiveScanResult)
      → Option (Result NetCtlError (List (Option ActiveScanResult)) × W)
      → Option (Result NetCtlError (List (Option ActiveScanResult)) × W)
  heard_more calls (some (ok more, w)) = some (ok (calls ++ more), w)
  heard_more calls later = later

  heard_after :
      Result EspError Bool
      → W
      → Option (Result NetCtlError (List (Option ActiveScanResult)) × W)
      → Option (Result NetCtlError (List (Option ActiveScanResult)) × W)
  heard_after (ok true) w later = later
  heard_after (ok false) w later = some (ok [], w)
  heard_after (err e) w later = some (err (to_net_ctl_error e), w)
  heard_after panic w later = some (panic, w)

  -- The calls of the callback until a poll finds the scan over, within so many polls.
  unfoldable pub heard : ℕ → W → Option (Result NetCtlError (List (Option ActiveScanResult)) × W)
  unfolding heard_more heard_after
  heard zero w = none
  heard (suc polls) w =
      let (r, w') = esp.is_scan_in_progress w in
      let (calls, w2) = esp.after poll_scan_wait w' in
      let later = heard polls w2 in heard_after r w' (heard_more calls later)

  -- What the loop makes of them, after those noted before.
  abbrev as_results :
      List (Option ActiveScanResult)
      → Option (Result NetCtlError (List (Option ActiveScanResult)) × W)
      → Option (Result NetCtlError (List OwnedScanResult) × W)
  as_results noted none = none
  as_results noted (some (ok calls, w)) = some (ok (kept [] (found (noted ++ calls))), w)
  as_results noted (some (err e, w)) = some (err e, w)
  as_results noted (some (panic, w)) = some (panic, w)

  as_results_more :
      (noted calls : List (Option ActiveScanResult))
      (later : Option (Result NetCtlError (List (Option ActiveScanResult)) × W))
      → as_results (noted ++ calls) later ≡ as_results noted (heard_more calls later)
  unfolding heard_more
  as_results_more noted calls none = refl
  as_results_more noted calls (some (ok more, w)) =
      ap (λ all. some (ok (kept [] (found all)), w)) (append_assoc noted calls more)
  as_results_more noted calls (some (err e, w)) = refl
  as_results_more noted calls (some (panic, w)) = refl

  after_poll-heard_after :
      (r : Result EspError Bool) (noted : List (Option ActiveScanResult)) (w : W)
      (later : Option (Result NetCtlError (List (Option ActiveScanResult)) × W))
      → after_poll esp r (kept [] (found noted)) w (as_results noted later)
        ≡ as_results noted (heard_after r w later)
  unfolding after_poll heard_after
  after_poll-heard_after (ok true) noted w later = refl
  after_poll-heard_after (ok false) noted w later =
      ap (λ all. some (ok (kept [] (found all)), w)) (sym (append-nil noted))
  after_poll-heard_after (err e) noted w later = refl
  after_poll-heard_after panic noted w later = refl

  module _ (good : (ms : ℕ) (w : W) → All IsResult (esp.after ms w).0) where
    poll_scan-heard :
        (polls : ℕ) (noted : List (Option ActiveScanResult)) (w : W)
        → All IsResult noted
        → poll_scan esp polls (ok (kept [] (found noted))) w ≡ as_results noted (heard polls w)
    unfolding heard poll_scan
    poll_scan-heard zero noted w first = refl
    poll_scan-heard (suc polls) noted w first =
        let (r, w') = esp.is_scan_in_progress w in
        let (calls, w2) = esp.after poll_scan_wait w' in
        let here = note_calls-later {E = NetCtlError} noted calls first (good poll_scan_wait w') in
        let later =
          poll_scan-heard polls (noted ++ calls) w2
            (IsResult-append noted calls first (good poll_scan_wait w')) in
        rw (here, later, as_results_more noted calls (heard polls w2))
          (after_poll-heard_after r noted w' (heard_more calls (heard polls w2)))

module _ {W : Type 0} (esp : ActiveScan W) where
  abbrev HeardResults : Option (Result NetCtlError (List (Option ActiveScanResult)) × W) → Type 0
  HeardResults (some (ok calls, w)) = All IsResult calls
  HeardResults _ = Unit

  heard_after-HeardResults :
      (r : Result EspError Bool) (calls : List (Option ActiveScanResult)) (w : W)
      (later : Option (Result NetCtlError (List (Option ActiveScanResult)) × W))
      → All IsResult calls
      → HeardResults later
      → HeardResults (heard_after esp r w (heard_more esp calls later))
  unfolding heard_after heard_more
  heard_after-HeardResults (ok true) calls w none first good = tt
  heard_after-HeardResults (ok true) calls w (some (ok more, w')) first good =
      IsResult-append calls more first good
  heard_after-HeardResults (ok true) calls w (some (err e, w')) first good = tt
  heard_after-HeardResults (ok true) calls w (some (panic, w')) first good = tt
  heard_after-HeardResults (ok false) calls w later first good = tt
  heard_after-HeardResults (err e) calls w later first good = tt
  heard_after-HeardResults panic calls w later first good = tt

  heard-HeardResults :
      (good : (ms : ℕ) (w : W) → All IsResult (esp.after ms w).0) (polls : ℕ) (w : W)
      → HeardResults (heard esp polls w)
  unfolding heard
  heard-HeardResults good zero w = tt
  heard-HeardResults good (suc polls) w =
      let (r, w') = esp.is_scan_in_progress w in
      let (calls, w2) = esp.after poll_scan_wait w' in
      heard_after-HeardResults r calls w' (heard esp polls w2) (good poll_scan_wait w')
        (heard-HeardResults good polls w2)

module _ {W V : Type 0} (esp : ActiveScan W) (f : OwnedScanResult → Exec ErrorCode V (Unit {0}))
    (good : (ms : ℕ) (w : W) → All IsResult (esp.after ms w).0) where
  -- A scan that is started and found over reports, in order and up to the visitor's first error,
  -- the networks that the caller asked for among the first five that OpenThread found, a network by
  -- the eight bytes of its identifier, provided that OpenThread's identifiers and addresses have
  -- eight bytes.
  pub scan_reports :
      (polls : ℕ) (network : Option (List ℕ)) (v : V) (w w1 w2 : W)
      (calls more : List (Option ActiveScanResult))
      → All IsResult calls
      → esp.scan w ≡ (ok tt, (calls, w1))
      → heard esp polls w1 ≡ some (ok more, w2)
      → let (r, v') = for_each f (map own (asked network (take 5 (found (calls ++ more))))) v in
        scan esp f polls network v w ≡ some (map_err other r, (v', w2))
  unfolding scan
  scan_reports polls network v w w1 w2 calls more first started over =
      let noted = note_calls-kept {E = NetCtlError} calls [] first (omega arith) in
      let polled = poll_scan-heard esp good polls calls w1 first in
      let all : All IsResult (calls ++ more) =
        IsResult-append calls more first
          (subst (HeardResults esp) over (heard-HeardResults esp good polls w1)) in
      rw
        (
          started,
          noted,
          polled,
          over,
          report-asked f network (take 5 (found (calls ++ more))) v
              (take-IsResult 5 (found (calls ++ more)) (found-IsResult (calls ++ more) all)),
        )
        refl
