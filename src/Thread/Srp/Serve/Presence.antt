-- ===== src/Thread/Srp/Serve/Presence.antt =====
-- The queries that `run_serve` of thread.rs makes of the DNS client, against what it saw of the
-- SRP server.
use esp_idf_matter.Base.{
  ℕ, Bool, true, false, ◌&&◌, Option, none, some, is_some, List, [], ◌∷◌, ◌≡◌, refl, ◌∙◌,
  if◌then◌else◌, Result, ok, err, panic, arith,
}
use esp_idf_matter.Error.{EspError}
use esp_idf_matter.Thread.Srp.Dns.{
  MatterRemoteService, Instance, ServiceInfo, Dns, label, resolved_type, browsed_name,
  after_resolve, after_browse, deposit_all, is_skipped, found,
}
use esp_idf_matter.Thread.Srp.Serve.{
  Server, Phase, waiting, serving, ended, Act, after_query, wait_round, began, kept, resolve_turn,
  browse_turn, act, run_serve,
}

-- What was seen of the server, and the queries of the DNS client.
pub data Call : Type 0 where
  seen : Bool → Call
  failed asked : Call

abbrev pub Logged : Type 0 → Type 0
Logged W = W × List Call

abbrev pub is_seen : Result EspError (Option (List ℕ)) → Call
is_seen (ok addr) = seen (is_some addr)
is_seen (err e) = failed
is_seen panic = failed

module _ {W : Type 0} where
  abbrev pub quiet : {A : Type 0} → (W → A × W) → Logged W → A × Logged W
  quiet f (w, calls) = let (a, w') = f w in (a, (w', calls))

  unfoldable pub logged_server : Server W → Server (Logged W)
  logged_server server = record {
    srp_server_addr =
        λ (w, calls). let (r, w') = server.srp_server_addr w in (r, (w', is_seen r ∷ calls));
    srp_wait_changed = λ (w, calls). (server.srp_wait_changed w, calls);
  }

module _ {Q W : Type 0} where
  unfoldable pub logged_dns : Dns Q W → Dns Q (Logged W)
  logged_dns dns = record {
    wait_resolve_request = quiet dns.wait_resolve_request;
    wait_browse_request = quiet dns.wait_browse_request;
    instance_name = dns.instance_name;
    service_type = dns.service_type;
    base_service_type = dns.base_service_type;
    needs_resolve = dns.needs_resolve;
    dns_resolve_service_and_host_address = λ l n (w, calls).
        let (r, w') = dns.dns_resolve_service_and_host_address l n w in (r, (w', asked ∷ calls));
    dns_browse = λ n (w, calls). let (r, w') = dns.dns_browse n w in (r, (w', asked ∷ calls));
    try_deposit_mdns_resolve = λ m l (w, calls). (dns.try_deposit_mdns_resolve m l w, calls);
    try_deposit_mdns_browse = λ m (w, calls). (dns.try_deposit_mdns_browse m w, calls);
  }

-- Whether there was a server when it was asked for last.
unfoldable pub is_present : List Call → Bool
is_present [] = false
is_present (seen b ∷ calls) = b
is_present (failed ∷ calls) = false
is_present (asked ∷ calls) = is_present calls

-- Whether there was one at every query of the DNS client.
unfoldable pub is_served : List Call → Bool
unfolding is_present
is_served [] = true
is_served (asked ∷ calls) = is_present calls && is_served calls
is_served (c ∷ calls) = is_served calls

asked_Serves :
    (calls before : List Call)
    → calls ≡ asked ∷ before
    → is_served before ≡ true
    → is_present before ≡ true
    → (is_served calls ≡ true) × (is_present calls ≡ true)
unfolding is_served is_present
asked_Serves calls before e h k = rw e (rw (h, k) (refl, refl))

module _ {Q W : Type 0} (server : Server W) (dns : Dns Q W) where
  abbrev Serves : Phase Q × Logged W → Type 0
  Serves (serving r b, s) = (is_served s.1 ≡ true) × (is_present s.1 ≡ true)
  Serves (waiting, s) = is_served s.1 ≡ true
  Serves (ended x, s) = is_served s.1 ≡ true

  deposit_all_calls :
      (query : Q) (instances : List Instance) (s : Logged W)
      → (deposit_all (logged_dns dns) query instances s).1 ≡ s.1
  unfolding deposit_all logged_dns
  deposit_all_calls query [] s = refl
  deposit_all_calls query (instance ∷ rest) s =
      deposit_all_calls query rest (
        if is_skipped (logged_dns dns) query instance
        then s
        else (dns.try_deposit_mdns_browse (found (logged_dns dns) query instance) s.0, s.1))
      ∙ ground arith

  after_resolve_calls :
      (service : MatterRemoteService) (x : Result EspError ServiceInfo × Logged W)
      → (after_resolve (logged_dns dns) service x).1 ≡ x.1.1
  unfolding after_resolve logged_dns
  after_resolve_calls service (ok info, s) = refl
  after_resolve_calls service (err e, s) = refl
  after_resolve_calls service (panic, s) = refl

  after_browse_calls :
      (query : Q) (x : Result EspError (List Instance) × Logged W)
      → (after_browse (logged_dns dns) query x).1 ≡ x.1.1
  unfolding after_browse
  after_browse_calls query (ok instances, s) = deposit_all_calls query instances s
  after_browse_calls query (err e, s) = refl
  after_browse_calls query (panic, s) = refl

  began-Serves :
      (x : Result EspError (Option (List ℕ))) (w : W) (calls : List Call)
      → is_served calls ≡ true
      → Serves (began (after_query (logged_server server) true (x, (w, is_seen x ∷ calls))))
  unfolding began after_query logged_server is_served is_present
  began-Serves (ok none) w calls h = h
  began-Serves (ok (some addr)) w calls h = (h, refl)
  began-Serves (err e) w calls h = h
  began-Serves panic w calls h = h

  kept-Serves :
      (r : Option MatterRemoteService) (b : Option Q) (x : Result EspError (Option (List ℕ)))
      (w : W) (calls : List Call)
      → is_served calls ≡ true
      → Serves (kept r b (after_query (logged_server server) false (x, (w, is_seen x ∷ calls))))
  unfolding kept after_query logged_server is_served is_present
  kept-Serves r b (ok none) w calls h = h
  kept-Serves r b (ok (some addr)) w calls h = (h, refl)
  kept-Serves r b (err e) w calls h = h
  kept-Serves r b panic w calls h = h

  act-Serves :
      (a : Act) (phase : Phase Q) (s : Logged W)
      → Serves (phase, s)
      → Serves (act (logged_server server) (logged_dns dns) a phase s)
  unfolding act wait_round logged_server logged_dns resolve_turn browse_turn is_served is_present
  act-Serves Act.poll waiting (w, calls) h =
      began-Serves (server.srp_server_addr w).0 (server.srp_server_addr w).1 calls h
  act-Serves Act.poll (serving r b) (w, calls) (h, k) =
      kept-Serves r b (server.srp_server_addr w).0 (server.srp_server_addr w).1 calls h
  act-Serves Act.poll (ended x) s h = h
  act-Serves Act.resolve waiting s h = h
  act-Serves Act.resolve (serving none b) s h = h
  act-Serves Act.resolve (serving (some service) b) (w, calls) (h, k) =
      let l = label service in
      let n = resolved_type service in
      let x = (logged_dns dns).dns_resolve_service_and_host_address l n (w, calls) in
      asked_Serves (after_resolve (logged_dns dns) service x).1 calls
        (after_resolve_calls service x) h k
  act-Serves Act.resolve (ended x) s h = h
  act-Serves Act.browse waiting s h = h
  act-Serves Act.browse (serving r none) s h = h
  act-Serves Act.browse (serving r (some query)) (w, calls) (h, k) =
      let x = (logged_dns dns).dns_browse (browsed_name dns query) (w, calls) in
      asked_Serves (after_browse (logged_dns dns) query x).1 calls (after_browse_calls query x) h k
  act-Serves Act.browse (ended x) s h = h

  acts-Serves :
      (acts : List Act) (phase : Phase Q) (s : Logged W)
      → Serves (phase, s)
      → Serves (run_serve (logged_server server) (logged_dns dns) acts phase s)
  unfolding run_serve
  acts-Serves [] phase s h = h
  acts-Serves (a ∷ rest) phase s h =
      let (phase', s') = act (logged_server server) (logged_dns dns) a phase s in
      acts-Serves rest phase' s' (act-Serves a phase s h)

  Serves-is_served : (x : Phase Q × Logged W) → Serves x → is_served x.1.1 ≡ true
  Serves-is_served (waiting, s) h = h
  Serves-is_served (serving r b, s) h = h.0
  Serves-is_served (ended x, s) h = h

  -- Whatever turns the tasks take: at every query of the DNS client that `run_serve` makes, the
  -- SRP client had a server when it was asked for last.
  pub run_serve-is_served :
      (acts : List Act) (w : W)
      → is_served (run_serve (logged_server server) (logged_dns dns) acts waiting (w, [])).1.1
        ≡ true
  unfolding is_served
  run_serve-is_served acts w =
      Serves-is_served (run_serve (logged_server server) (logged_dns dns) acts waiting (w, []))
        (acts-Serves acts waiting (w, []) refl)
