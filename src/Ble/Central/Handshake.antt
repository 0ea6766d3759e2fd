-- ===== src/Ble/Central/Handshake.antt =====
-- The set-up of the central in ble/nimble.rs when the peer answers each request.
use esp_idf_matter.Base.{ℕ, ◌≢◌, Bool, true, false, ◌≡◌, some, List, [], ◌∷◌, ok, arith}
use esp_idf_matter.Ble.Btp.{Btp}
use esp_idf_matter.Ble.Central.State.{reset}
use esp_idf_matter.Ble.Central.Platform.{
  Platform, sync, connected, service, services_end, characteristic, characteristics_end,
  write_complete,
}
use esp_idf_matter.Ble.Central.Hooks.{host_hook, gap_hook, gattc_hook, cccd_of}
use esp_idf_matter.Ble.Central.Run.{Phase, condition, passed, settle, found, begin_run, proceed}
use esp_idf_matter.Ble.Central.System.{Client, Action, look, go_on, task_act, act, run_acts}

-- Every request is taken.
pub record AllOk {W : Type 0} (p : Platform W) : Type 0 where
  pub start_ok : (w : W) → (p.start w).0 ≡ ok tt
  pub ensure_addr_ok : (b : Bool) (w : W) → (p.ensure_addr b w).0 ≡ ok tt
  pub connect_ok : (o t a : ℕ) (w : W) → (p.connect o t a w).0 ≡ ok tt
  pub services_ok : (k : ℕ) (w : W) → (p.discover_services k w).0 ≡ ok tt
  pub chars_ok : (k a b : ℕ) (w : W) → (p.discover_characteristics k a b w).0 ≡ ok tt
  pub write_ok : (k a : ℕ) (bytes : List ℕ) (w : W) → (p.write k a bytes w).0 ≡ ok tt

module _ {W : Type 0} (p : Platform W) (btp : Btp W) (works : AllOk p) where
  abbrev after : Client W → List Action → Client W
  after c acts = run_acts p btp c acts

  -- The run goes on, at the phase.
  abbrev Live : Phase → Client W → Type 0
  Live phase c = (c.phase ≡ phase) × (c.published ≡ true) × (c.failed ≡ false) × (c.waiting ≡ false)

  launched :
      (c : Client W) (addr : ℕ)
      → Live Phase.sync_wait (after c (Action.create ∷ Action.launch addr ∷ []))
  unfolding run_acts act begin_run settle reset
  launched c addr = ground (arith, works.start_ok c.world)

  synced :
      (c : Client W)
      → Live Phase.sync_wait c
      → Live Phase.conn_wait (after c (Action.host sync ∷ Action.task ∷ Action.task ∷ []))
  unfolding run_acts act host_hook task_act look go_on condition passed settle proceed
  synced c h = ground (
    arith,
    works.ensure_addr_ok false c.world,
    works.connect_ok p.own_addr_public 0 c.addr (p.ensure_addr false c.world).1,
  )

  found_peer :
      (c : Client W) (conn : ℕ)
      → Live Phase.conn_wait c
      → Live
          (Phase.services_wait conn)
          (after c (Action.gap (connected conn) ∷ Action.task ∷ Action.task ∷ []))
  unfolding run_acts act gap_hook task_act look go_on condition passed settle proceed found
  found_peer c conn h = ground (arith, works.services_ok conn c.world)

  found_service :
      (c : Client W) (conn first last : ℕ)
      → Live (Phase.services_wait conn) c
      → Live (Phase.chars_wait conn) (
          after c (
            Action.gattc (service p.svc_uuid first last)
            ∷ Action.gattc services_end
            ∷ Action.task
            ∷ Action.task
            ∷ []))
  unfolding run_acts act gattc_hook task_act look go_on condition passed settle proceed found
  found_service c conn first last h = ground (arith, works.chars_ok conn first last c.world)

  found_characteristics :
      (c : Client W) (conn c1_val c2_val : ℕ)
      → p.c1_uuid ≢ p.c2_uuid
      → Live (Phase.chars_wait conn) c
      → let c' = after c (
          Action.gattc (characteristic p.c1_uuid c1_val)
          ∷ Action.gattc (characteristic p.c2_uuid c2_val)
          ∷ Action.gattc characteristics_end
          ∷ Action.task
          ∷ Action.task
          ∷ []) in
        Live (Phase.subscribe_wait conn c1_val) c' × (c'.c2_val ≡ some c2_val)
  unfolding run_acts act gattc_hook task_act look go_on condition passed settle proceed found
  found_characteristics c conn c1_val c2_val differ h =
      ground (arith, works.write_ok conn (cccd_of c2_val) (2 ∷ 0 ∷ []) c.world)

  subscribed :
      (c : Client W) (conn c1_val c2_val : ℕ)
      → Live (Phase.subscribe_wait conn c1_val) c
      → c.c2_val ≡ some c2_val
      → Live (Phase.pumping conn c1_val) (
          after c
            (Action.gattc (write_complete (cccd_of c2_val) 0) ∷ Action.task ∷ Action.task ∷ []))
  unfolding run_acts act gattc_hook task_act look go_on condition passed settle proceed
  subscribed c conn c1_val c2_val h handle = ground arith

  -- The events that answer the requests, with the steps of the task after each answer.
  abbrev pub answered : ℕ → ℕ → ℕ → ℕ → ℕ → ℕ → List Action
  answered addr conn first last c1_val c2_val =
      Action.create
      ∷ Action.launch addr
      ∷ Action.host sync
      ∷ Action.task
      ∷ Action.task
      ∷ Action.gap (connected conn)
      ∷ Action.task
      ∷ Action.task
      ∷ Action.gattc (service p.svc_uuid first last)
      ∷ Action.gattc services_end
      ∷ Action.task
      ∷ Action.task
      ∷ Action.gattc (characteristic p.c1_uuid c1_val)
      ∷ Action.gattc (characteristic p.c2_uuid c2_val)
      ∷ Action.gattc characteristics_end
      ∷ Action.task
      ∷ Action.task
      ∷ Action.gattc (write_complete (cccd_of c2_val) 0)
      ∷ Action.task
      ∷ Action.task
      ∷ []

  -- A run whose requests are all taken and answered comes to its pumps: when the host synchronizes,
  -- the peer connects, its service and both characteristics are found and the subscription is
  -- accepted, the session runs over that connection and that handle to write to, whatever the
  -- client was before.
  pub answered_run_connects :
      (c : Client W) (addr conn first last c1_val c2_val : ℕ)
      → p.c1_uuid ≢ p.c2_uuid
      → (run_acts p btp c (answered addr conn first last c1_val c2_val)).phase
        ≡ Phase.pumping conn c1_val
  unfolding run_acts
  answered_run_connects c addr conn first last c1_val c2_val differ =
      let a = after c (Action.create ∷ Action.launch addr ∷ []) in
      let b = after a (Action.host sync ∷ Action.task ∷ Action.task ∷ []) in
      let d = after b (Action.gap (connected conn) ∷ Action.task ∷ Action.task ∷ []) in
      let e = after d (
        Action.gattc (service p.svc_uuid first last)
        ∷ Action.gattc services_end
        ∷ Action.task
        ∷ Action.task
        ∷ []) in
      let f = after e (
        Action.gattc (characteristic p.c1_uuid c1_val)
        ∷ Action.gattc (characteristic p.c2_uuid c2_val)
        ∷ Action.gattc characteristics_end
        ∷ Action.task
        ∷ Action.task
        ∷ []) in
      let at_b = synced a (launched c addr) in
      let at_e = found_service d conn first last (found_peer b conn at_b) in
      let at_f = found_characteristics e conn c1_val c2_val differ at_e in
      (subscribed f conn c1_val c2_val at_f.0 at_f.1).0
