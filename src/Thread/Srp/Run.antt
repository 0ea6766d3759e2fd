-- ===== src/Thread/Srp/Run.antt =====
-- thread.rs, `EspMatterThreadSrp`: its construction, the loop of `run_register`, and `run` as a
-- whole, with and without the DNS client.
use esp_idf_matter.Base.{
  ℕ, true, false, Option, none, some, List, [], ◌∷◌, Result, ok, err, panic, Round, again, leave,
  repeat,
}
use esp_idf_matter.Error.{ErrorCode}
use esp_idf_matter.Thread.Srp.{Srp, SrpState, register_round}
use esp_idf_matter.Thread.Srp.Host.{Host, start_host}
use esp_idf_matter.Thread.Srp.Dns.{MatterRemoteService, Dns}
use esp_idf_matter.Thread.Srp.Serve.{
  Server, Phase, waiting, serving, ended, Act, began, kept, wait_round, act,
}

-- What `new_with_host_eui64` makes: the address, if one is given, and the state.
pub record EspMatterThreadSrp (S : Type 0) (W : Type 0) : Type 0 where
  pub host_eui64 : Option (List ℕ)
  pub state : SrpState S W

-- A turn of the tasks of `select`.
pub data Turn : Type 0 where
  register : Turn
  serve : Act → Turn

module _ {S W : Type 0} where
  unfoldable pub new_with_host_eui64 : Option (List ℕ) → W → EspMatterThreadSrp S W
  new_with_host_eui64 host_eui64 w = record {
    host_eui64 = host_eui64;
    state = record { services = []; mdns_buf = []; world = w };
  }

  unfoldable pub new : W → EspMatterThreadSrp S W
  unfolding new_with_host_eui64
  new w = new_with_host_eui64 none w

module _ {S W : Type 0} where
  unfoldable pub after_register :
      Result ErrorCode (Unit {0}) × SrpState S W
      → Round (SrpState S W) (Result ErrorCode (Unit {0}))
  after_register (ok x, s) = again s
  after_register (err e, s) = leave (err e) s
  after_register (panic, s) = leave panic s

  unfoldable pub while_registering :
      (SrpState S W → Option (Result ErrorCode (Unit {0})) × SrpState S W)
      → Round (SrpState S W) (Result ErrorCode (Unit {0}))
      → Option (Result ErrorCode (Unit {0})) × SrpState S W
  while_registering rest (again s) = rest s
  while_registering rest (leave r s) = (some r, s)

module _ {S W : Type 0} (p : Srp S W) where
  -- The rounds of `run_register`.
  unfoldable pub run_register :
      ℕ → SrpState S W → Option (Result ErrorCode (Unit {0}) × SrpState S W)
  unfolding after_register
  run_register = repeat (λ s. after_register (register_round p s))

module _ {Q S W : Type 0} where
  unfoldable pub while_serving :
      (Phase Q → SrpState S W → Option (Result ErrorCode (Unit {0})) × SrpState S W)
      → Phase Q
      → SrpState S W
      → Option (Result ErrorCode (Unit {0})) × SrpState S W
  while_serving rest (ended r) s = (some r, s)
  while_serving rest phase s = rest phase s

module _ {Q S W : Type 0} (p : Srp S W) (server : Server W) (dns : Dns Q W) where
  -- `select` of `run_register` and `run_serve`, over the turns in this order.
  unfoldable pub register_and_serve :
      List Turn → Phase Q → SrpState S W → Option (Result ErrorCode (Unit {0})) × SrpState S W
  unfolding while_registering while_serving after_register
  register_and_serve [] phase s = (none, s)
  register_and_serve (register ∷ rest) phase s =
      while_registering (register_and_serve rest phase) (after_register (register_round p s))
  register_and_serve (serve a ∷ rest) phase s =
      let (phase', w) = act server dns a phase s.world in
      while_serving (register_and_serve rest) phase' (record s { world = w })

module _ {S W : Type 0} (h : Host W) where
  -- `run`, with the tasks that come after the set-up.
  unfoldable pub run :
      (SrpState S W → Option (Result ErrorCode (Unit {0})) × SrpState S W)
      → EspMatterThreadSrp S W
      → Option (Result ErrorCode (Unit {0})) × SrpState S W
  run tasks srp =
      let (r, s) = start_host h srp.host_eui64 srp.state in
      elim r [ ok x ↦ tasks s | err e ↦ (some (err e), s) | panic ↦ (some panic, s) ]

-- Neither an end at all, nor one that reports success.
abbrev pub IsNoSuccess : Option (Result ErrorCode (Unit {0})) → Type 0
IsNoSuccess (some (ok x)) = ⊥
IsNoSuccess (some (err e)) = Unit
IsNoSuccess (some panic) = Unit
IsNoSuccess none = Unit

abbrev result_of : {Q : Type 0} → Phase Q → Option (Result ErrorCode (Unit {0}))
result_of (ended r) = some r
result_of waiting = none
result_of (serving r b) = none

module _ {Q W : Type 0} (server : Server W) (dns : Dns Q W) where
  began-IsNoSuccess :
      (r : Round W (Result ErrorCode (Unit {0}))) → IsNoSuccess (result_of (began {Q = Q} r).0)
  unfolding began
  began-IsNoSuccess (again w) = tt
  began-IsNoSuccess (leave (ok x) w) = tt
  began-IsNoSuccess (leave (err e) w) = tt
  began-IsNoSuccess (leave panic w) = tt

  kept-IsNoSuccess :
      (s : Option MatterRemoteService) (b : Option Q) (r : Round W (Result ErrorCode (Unit {0})))
      → IsNoSuccess (result_of (kept s b r).0)
  unfolding kept
  kept-IsNoSuccess s b (again w) = tt
  kept-IsNoSuccess s b (leave (ok x) w) = tt
  kept-IsNoSuccess s b (leave (err e) w) = tt
  kept-IsNoSuccess s b (leave panic w) = tt

  act-IsNoSuccess :
      (a : Act) (phase : Phase Q) (w : W)
      → IsNoSuccess (result_of phase)
      → IsNoSuccess (result_of (act server dns a phase w).0)
  unfolding act
  act-IsNoSuccess Act.poll waiting w h = began-IsNoSuccess (wait_round server true w)
  act-IsNoSuccess Act.poll (serving s b) w h = kept-IsNoSuccess s b (wait_round server false w)
  act-IsNoSuccess Act.poll (ended r) w h = h
  act-IsNoSuccess Act.resolve waiting w h = tt
  act-IsNoSuccess Act.resolve (serving s b) w h = tt
  act-IsNoSuccess Act.resolve (ended r) w h = h
  act-IsNoSuccess Act.browse waiting w h = tt
  act-IsNoSuccess Act.browse (serving s b) w h = tt
  act-IsNoSuccess Act.browse (ended r) w h = h

module _ {S W : Type 0} where
  while_registering-IsNoSuccess :
      (rest : SrpState S W → Option (Result ErrorCode (Unit {0})) × SrpState S W)
      (x : Result ErrorCode (Unit {0}) × SrpState S W)
      → ((s : SrpState S W) → IsNoSuccess (rest s).0)
      → IsNoSuccess (while_registering rest (after_register x)).0
  unfolding while_registering after_register
  while_registering-IsNoSuccess rest (ok x, s) h = h s
  while_registering-IsNoSuccess rest (err e, s) h = tt
  while_registering-IsNoSuccess rest (panic, s) h = tt

  while_serving-IsNoSuccess :
      {Q : Type 0}
      (rest : Phase Q → SrpState S W → Option (Result ErrorCode (Unit {0})) × SrpState S W)
      (phase : Phase Q) (s : SrpState S W)
      → ((phase : Phase Q) → IsNoSuccess (result_of phase) → IsNoSuccess (rest phase s).0)
      → IsNoSuccess (result_of phase)
      → IsNoSuccess (while_serving rest phase s).0
  unfolding while_serving
  while_serving-IsNoSuccess rest waiting s h k = h waiting k
  while_serving-IsNoSuccess rest (serving r b) s h k = h (serving r b) k
  while_serving-IsNoSuccess rest (ended r) s h k = k

module _ {Q S W : Type 0} (p : Srp S W) (server : Server W) (dns : Dns Q W) where
  -- The tasks of `select` end with an error or not at all, whatever turns they take.
  register_and_serve-IsNoSuccess :
      (turns : List Turn) (phase : Phase Q) (s : SrpState S W)
      → IsNoSuccess (result_of phase)
      → IsNoSuccess (register_and_serve p server dns turns phase s).0
  unfolding register_and_serve
  register_and_serve-IsNoSuccess [] phase s h = tt
  register_and_serve-IsNoSuccess (register ∷ rest) phase s h =
      while_registering-IsNoSuccess (register_and_serve p server dns rest phase)
        (register_round p s) (λ t. register_and_serve-IsNoSuccess rest phase t h)
  register_and_serve-IsNoSuccess (serve a ∷ rest) phase s h =
      let (phase', w) = act server dns a phase s.world in
      while_serving-IsNoSuccess (register_and_serve p server dns rest) phase'
        (record s { world = w })
        (λ next k. register_and_serve-IsNoSuccess rest next (record s { world = w }) k)
        (act-IsNoSuccess server dns a phase s.world h)
