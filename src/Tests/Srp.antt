-- ===== src/Tests/Srp.antt =====
-- The DNS requests of thread.rs over a border router with a few instances.
use esp_idf_matter.Base.{
  ◌≤◌, ◌≡◌, refl, true, none, some, List, [], ◌∷◌, ◌++◌, length, All, Result, ok, arith,
}
use mathlib.Core.Path.{subst}
use esp_idf_matter.Error.{EspError}
use esp_idf_matter.Thread.Srp.Dns.{
  MatterRemoteService, MdnsRemoteService, Instance, ServiceInfo, v6, Dns, bytes, label,
  browse_round,
}
use esp_idf_matter.Thread.Srp.Dns.Label.{read_label, label_lem}
use esp_idf_matter.Thread.Srp.Dns.Deposits.{told_by, HasLabel, browse_round_lem}
use esp_idf_matter.Thread.Srp.Serve.{Server, Act, waiting, run_serve}
use esp_idf_matter.Thread.Srp.Serve.Presence.{
  logged_server, logged_dns, is_served, run_serve-is_served,
}

abbrev a_service : MatterRemoteService
a_service = MatterRemoteService.operational 0x2906c908d115d362 0x8fc7772401cd0696

label_lem_example :
    (length (label a_service) ≤ 33) × (read_label (label a_service) ≡ some a_service)
label_lem_example = label_lem a_service (omega arith, omega arith)

prints :
    label (MatterRemoteService.operational 0x2906c908d115d362 0xa)
    ≡ bytes "2906C908D115D362-000000000000000A"
unfolding label
prints = refl

abbrev details : ServiceInfo
details = record { port = 5540; host_addresses = (1 ∷ 2 ∷ []) ∷ []; txt_data = 7 ∷ [] }

abbrev found_by_router : List Instance
found_by_router =
    record { label = bytes "AB"; info = none }
    ∷ record { label = bytes "CD"; info = some details }
    ∷ []

-- The world is what was told so far.
abbrev dns : Dns (Unit {0}) (List MdnsRemoteService)
dns = record {
  wait_resolve_request = λ w. (a_service, w);
  wait_browse_request = λ w. (tt, w);
  instance_name = λ service. [];
  service_type = λ query. bytes "_matterc._udp";
  base_service_type = λ query. bytes "_matterc._udp";
  needs_resolve = λ query. true;
  dns_resolve_service_and_host_address = λ l n w. (ok details, w);
  dns_browse = λ name w. (ok found_by_router, w);
  try_deposit_mdns_resolve = λ m scores w. w ++ m ∷ [];
  try_deposit_mdns_browse = λ m w. w ++ m ∷ [];
}

abbrev LabelsFit : Result EspError (List Instance) → Type 0
LabelsFit (ok instances) = All HasLabel instances
LabelsFit _ = Unit

browse_round_lem_example : browse_round dns [] ≡ told_by dns tt (ok found_by_router)
browse_round_lem_example =
    browse_round_lem dns (λ w. w) (λ query. omega arith) (λ query. omega arith)
      (λ name w instances e. subst LabelsFit e (omega arith, (omega arith, tt))) (λ m w. refl)
      (λ w. refl) (λ name w. refl) []

told_one :
    browse_round dns []
    ≡ record {
      instance_name = bytes "CD._matterc._udp.local";
      port = some 5540;
      addrs = v6 (1 ∷ 2 ∷ []) ∷ [];
      txt = 7 ∷ [];
      scope_id = 0;
    }
      ∷ []
unfolding browse_round
told_one = refl

-- A server that is there from the start.
abbrev server : Server (List MdnsRemoteService)
server = record { srp_server_addr = λ w. (ok (some []), w); srp_wait_changed = λ w. w }

abbrev turns : List Act
turns = Act.resolve ∷ Act.poll ∷ Act.browse ∷ Act.resolve ∷ Act.browse ∷ []

run_serve-is_served_example :
    is_served (run_serve (logged_server server) (logged_dns dns) turns waiting ([], [])).1.1 ≡ true
run_serve-is_served_example = run_serve-is_served server dns turns []
