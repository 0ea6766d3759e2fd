-- ===== src/Thread/Srp/Dns/Deposits.antt =====
-- What thread.rs makes of the answers to a browse request, against a plain account of it.
use esp_idf_matter.Base.{
  ℕ, ◌≤◌, Bool, true, false, not, ◌&&◌, Option, is_some, none, some, List, [], ◌∷◌, ◌++◌, map,
  length, length-append, All, if◌then◌else◌, Result, ok, err, panic, ◌≡◌, refl, sym, ap, ◌∙◌, arith,
}
use esp_idf_matter.Error.{EspError}
use esp_idf_matter.Thread.Srp.Dns.{
  Instance, ServiceInfo, MdnsRemoteService, v6, info_port, info_addrs, info_txt, Dns, bytes,
  write_to, browsed_name, found, is_skipped, deposit_all, after_browse, browse_round,
}
use mathlib.Core.List.{append_assoc, append-nil}

-- A label of DNS has at most 63 bytes.
abbrev pub HasLabel : Instance → Type 0
HasLabel instance = length instance.label ≤ 63

module _ {Q W : Type 0} (dns : Dns Q W) where
  local_name : Q → Instance → List ℕ
  local_name query instance =
      ((instance.label ++ bytes ".") ++ dns.base_service_type query) ++ bytes ".local"

  -- What is to be told of an instance: without its details nothing where the query needs them.
  told : Q → Instance → Bool → Option ServiceInfo → List MdnsRemoteService
  told query instance needed (some info) =
      record {
        instance_name = local_name query instance;
        port = some info.port;
        addrs = map v6 info.host_addresses;
        txt = info.txt_data;
        scope_id = 0;
      }
      ∷ []
  told query instance true none = []
  told query instance false none =
      record {
        instance_name = local_name query instance;
        port = none;
        addrs = [];
        txt = [];
        scope_id = 0;
      }
      ∷ []

  told_of : Q → List Instance → List MdnsRemoteService
  told_of query [] = []
  told_of query (instance ∷ rest) =
      told query instance (dns.needs_resolve query) instance.info ++ told_of query rest

  pub told_by : Q → Result EspError (List Instance) → List MdnsRemoteService
  told_by query (ok instances) = told_of query instances
  told_by query (err e) = []
  told_by query panic = []

  module _ (log : W → List MdnsRemoteService)
      (types_fit : (query : Q) → length (dns.service_type query) ≤ 64)
      (bases_fit : (query : Q) → length (dns.base_service_type query) ≤ 26)
      (labels_fit : (name : List ℕ) (w : W) (instances : List Instance)
        → (dns.dns_browse name w).0 ≡ ok instances
        → All HasLabel instances)
      (deposits : (m : MdnsRemoteService) (w : W)
        → log (dns.try_deposit_mdns_browse m w) ≡ log w ++ m ∷ [])
      (waits : (w : W) → log (dns.wait_browse_request w).1 ≡ log w)
      (browses : (name : List ℕ) (w : W) → log (dns.dns_browse name w).1 ≡ log w) where
    browsed_name_lem :
        (query : Q)
        → browsed_name dns query ≡ dns.service_type query ++ bytes ".default.service.arpa"
    unfolding browsed_name write_to
    browsed_name_lem query = ground (
      arith,
      types_fit query,
      length-append (dns.service_type query) (bytes ".default.service.arpa"),
    )

    found_name :
        (query : Q) (instance : Instance)
        → HasLabel instance
        → (found dns query instance).instance_name ≡ local_name query instance
    unfolding found write_to local_name
    found_name query instance h =
        let base = dns.base_service_type query in
        ground (
          arith,
          bases_fit query,
          length-append instance.label (bytes "."),
          length-append (instance.label ++ bytes ".") base,
        )

    found_parts :
        (query : Q) (instance : Instance) (info : Option ServiceInfo)
        → HasLabel instance
        → instance.info ≡ info
        → found dns query instance ≡ record {
          instance_name = local_name query instance;
          port = info_port info;
          addrs = info_addrs info;
          txt = info_txt info;
          scope_id = 0;
        }
    unfolding found
    found_parts query instance info h e = ground (arith, found_name query instance h)

    told_lem :
        (query : Q) (instance : Instance) (needed : Bool) (info : Option ServiceInfo)
        → HasLabel instance
        → instance.info ≡ info
        → told query instance needed info
          ≡ (if needed && not (is_some info) then [] else found dns query instance ∷ [])
    unfolding told
    told_lem query instance needed (some info) h e =
        ground (arith, found_parts query instance (some info) h e)
    told_lem query instance true none h e = refl
    told_lem query instance false none h e =
        ap (λ m. m ∷ []) (sym (found_parts query instance none h e))

    deposit_step :
        (query : Q) (instance : Instance) (w : W)
        → HasLabel instance
        → log (
            if is_skipped dns query instance
            then w
            else dns.try_deposit_mdns_browse (found dns query instance) w)
          ≡ log w ++ told query instance (dns.needs_resolve query) instance.info
    unfolding is_skipped
    deposit_step query instance w h = ground (
      arith,
      told_lem query instance (dns.needs_resolve query) instance.info h refl,
      deposits (found dns query instance) w,
      append-nil (log w),
    )

    deposit_all_lem :
        (query : Q) (instances : List Instance) (w : W)
        → All HasLabel instances
        → log (deposit_all dns query instances w) ≡ log w ++ told_of query instances
    unfolding deposit_all told_of
    deposit_all_lem query [] w h = sym (append-nil (log w))
    deposit_all_lem query (instance ∷ rest) w (h, k) =
        deposit_all_lem query rest
          (if is_skipped dns query instance
            then w
            else dns.try_deposit_mdns_browse (found dns query instance) w)
          k
        ∙ ap (λ l. l ++ told_of query rest) (deposit_step query instance w h)
        ∙ append_assoc (log w) (told query instance (dns.needs_resolve query) instance.info)
            (told_of query rest)

    after_browse_lem :
        (query : Q) (r : Result EspError (List Instance)) (w : W)
        → ((instances : List Instance) → r ≡ ok instances → All HasLabel instances)
        → log (after_browse dns query (r, w)) ≡ log w ++ told_by query r
    unfolding after_browse told_by
    after_browse_lem query (ok instances) w h = deposit_all_lem query instances w (h instances refl)
    after_browse_lem query (err e) w h = sym (append-nil (log w))
    after_browse_lem query panic w h = sym (append-nil (log w))

    -- Where service types, labels and base types are as long as Matter and DNS let them be: a
    -- browse request asks for its type in the Thread domain, and the network stack is told of the
    -- instances found, in order, by their whole mDNS names, with their details as far as there are
    -- any; without details it is not told where the query needs them, and of nothing after a failure.
    pub browse_round_lem :
        (w : W)
        → let (query, w') = dns.wait_browse_request w in
          let name = dns.service_type query ++ bytes ".default.service.arpa" in
          log (browse_round dns w) ≡ log w ++ told_by query (dns.dns_browse name w').0
    unfolding browse_round
    browse_round_lem w =
        let (query, w') = dns.wait_browse_request w in
        let name = dns.service_type query ++ bytes ".default.service.arpa" in
        let (r, w2) = dns.dns_browse name w' in
        ap (λ n. log (after_browse dns query (dns.dns_browse n w'))) (browsed_name_lem query)
        ∙ after_browse_lem query r w2 (λ instances. labels_fit name w' instances)
        ∙ ap (λ l. l ++ told_by query r) (browses name w' ∙ waits w)
