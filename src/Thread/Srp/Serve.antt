-- ===== src/Thread/Srp/Serve.antt =====
-- thread.rs, `EspMatterThreadSrp::run_serve` and `wait_srp_server`: requests are served while the
-- SRP client has a server. The tasks of `select3` take their turns in any order, an act each.
pub mod Presence
use esp_idf_matter.Base.{
  ℕ, Bool, true, false, not, Option, none, some, is_some, List, [], ◌∷◌, if◌then◌else◌, Exec,
  Result, ok, err, panic, Round, again, leave, repeat,
}
use esp_idf_matter.Error.{EspError, ErrorCode, to_net_error}
use esp_idf_matter.Thread.Srp.Dns.{
  MatterRemoteService, Dns, label, resolved_type, after_resolve, browsed_name, after_browse,
}

pub record Server (W : Type 0) : Type 0 where
  -- The bytes of the address and its port.
  pub srp_server_addr : Exec EspError W (Option (List ℕ))
  pub srp_wait_changed : W → W

-- `a != b`, of Booleans.
abbrev pub differ : Bool → Bool → Bool
differ true b = not b
differ false b = b

module _ {W : Type 0} (server : Server W) where
  unfoldable pub after_query :
      Bool → Result EspError (Option (List ℕ)) × W → Round W (Result ErrorCode (Unit {0}))
  after_query present (ok addr, w) =
      if differ (is_some addr) present then again (server.srp_wait_changed w) else leave (ok tt) w
  after_query present (err e, w) = leave (err (to_net_error e)) w
  after_query present (panic, w) = leave panic w

  unfoldable pub wait_round : Bool → W → Round W (Result ErrorCode (Unit {0}))
  unfolding after_query
  wait_round present w = after_query present (server.srp_server_addr w)

  unfoldable pub wait_srp_server : Bool → ℕ → W → Option (Result ErrorCode (Unit {0}) × W)
  unfolding wait_round
  wait_srp_server present = repeat (wait_round present)

-- Where `run_serve` stands: at its first wait, at `select3` with the requests that were taken and
-- are not answered yet, or at its end.
pub data Phase (Q : Type 0) : Type 0 where
  waiting : Phase Q
  serving : Option MatterRemoteService → Option Q → Phase Q
  ended : Result ErrorCode (Unit {0}) → Phase Q

-- A turn: a query of the server, or one of the two tasks up to its next wait.
pub data Act : Type 0 where
  poll resolve browse : Act

module _ {Q W : Type 0} where
  unfoldable pub began : Round W (Result ErrorCode (Unit {0})) → Phase Q × W
  began (again w) = (waiting, w)
  began (leave (ok x) w) = (serving none none, w)
  began (leave (err e) w) = (ended (err e), w)
  began (leave panic w) = (ended panic, w)

  -- When the server is lost, the tasks are dropped with what they had taken.
  unfoldable pub kept :
      Option MatterRemoteService → Option Q → Round W (Result ErrorCode (Unit {0})) → Phase Q × W
  kept r b (again w) = (serving r b, w)
  kept r b (leave (ok x) w) = (waiting, w)
  kept r b (leave (err e) w) = (ended (err e), w)
  kept r b (leave panic w) = (ended panic, w)

module _ {Q W : Type 0} (dns : Dns Q W) where
  -- A turn of `run_resolve`.
  unfoldable pub resolve_turn : Option MatterRemoteService → W → Option MatterRemoteService × W
  unfolding label resolved_type after_resolve
  resolve_turn none w = let (service, w') = dns.wait_resolve_request w in (some service, w')
  resolve_turn (some service) w = (
    none,
    after_resolve dns service
        (dns.dns_resolve_service_and_host_address (label service) (resolved_type service) w),
  )

  -- A turn of `run_browse`.
  unfoldable pub browse_turn : Option Q → W → Option Q × W
  unfolding browsed_name after_browse
  browse_turn none w = let (query, w') = dns.wait_browse_request w in (some query, w')
  browse_turn (some query) w =
      (none, after_browse dns query (dns.dns_browse (browsed_name dns query) w))

module _ {Q W : Type 0} (server : Server W) (dns : Dns Q W) where
  unfoldable pub act : Act → Phase Q → W → Phase Q × W
  unfolding wait_round began kept resolve_turn browse_turn
  act Act.poll waiting w = began (wait_round server true w)
  act Act.poll (serving r b) w = kept r b (wait_round server false w)
  act Act.resolve (serving r b) w = let (r', w') = resolve_turn dns r w in (serving r' b, w')
  act Act.browse (serving r b) w = let (b', w') = browse_turn dns b w in (serving r b', w')
  act a phase w = (phase, w)

  -- `run_serve` over the turns in this order.
  unfoldable pub run_serve : List Act → Phase Q → W → Phase Q × W
  unfolding act
  run_serve [] phase w = (phase, w)
  run_serve (a ∷ rest) phase w = let (phase', w') = act a phase w in run_serve rest phase' w'
