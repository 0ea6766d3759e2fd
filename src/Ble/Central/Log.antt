-- ===== src/Ble/Central/Log.antt =====
-- The platform of the central in ble/nimble.rs with a log of the calls that are made of it.
use esp_idf_matter.Base.{ℕ, Bool, List, ◌∷◌, Exec}
use esp_idf_matter.Ble.Btp.{Btp}
use esp_idf_matter.Ble.Central.Platform.{Platform}

pub data Call : Type 0 where
  start : Call
  ensure_addr : Bool → Call
  connect : (own_type peer_type addr : ℕ) → Call
  discover_services : (conn : ℕ) → Call
  discover_characteristics : (conn first last : ℕ) → Call
  write : (conn attr : ℕ) (payload : List ℕ) → Call
  set_initiator : Bool → Call

-- The world with the calls so far, the last one first.
abbrev pub Logged : Type 0 → Type 0
Logged W = W × List Call

module _ {E W A : Type 0} where
  abbrev noted : Call → Exec E W A → Exec E (Logged W) A
  noted call m (w, calls) = let (r, w') = m w in (r, (w', call ∷ calls))

module _ {W : Type 0} where
  unfoldable pub logged : Platform W → Platform (Logged W)
  logged p = record {
    svc_uuid = p.svc_uuid;
    c1_uuid = p.c1_uuid;
    c2_uuid = p.c2_uuid;
    own_addr_public = p.own_addr_public;
    start = noted Call.start p.start;
    ensure_addr = λ b. noted (Call.ensure_addr b) (p.ensure_addr b);
    connect = λ o t a. noted (Call.connect o t a) (p.connect o t a);
    discover_services = λ k. noted (Call.discover_services k) (p.discover_services k);
    discover_characteristics =
        λ k a b. noted (Call.discover_characteristics k a b) (p.discover_characteristics k a b);
    write = λ k a bytes. noted (Call.write k a bytes) (p.write k a bytes);
    read_data = p.read_data;
    set_initiator = λ b (w, calls). (p.set_initiator b w, Call.set_initiator b ∷ calls);
  }

  -- The engine makes no call of the platform.
  unfoldable pub lifted : Btp W → Btp (Logged W)
  lifted btp = record {
    reset = λ (w, calls). (btp.reset w, calls);
    process_incoming = λ size peer bytes (w, calls).
        let (r, w') = btp.process_incoming size peer bytes w in (r, (w', calls));
    process_outgoing = λ size (buffer, (w, calls)).
        let (r, (buffer', w')) = btp.process_outgoing size (buffer, w) in
        (r, (buffer', (w', calls)));
  }
