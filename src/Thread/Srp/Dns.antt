-- ===== src/Thread/Srp/Dns.antt =====
-- thread.rs, `EspMatterThreadSrp`: the resolve and browse requests that the DNS client serves. The
-- client, the requests of `rs-matter` and what it does with the answers are parameters.
pub mod Label
pub mod Deposits
use Prim.Native.Char.{code}
use Prim.Native.String.{String}
use esp_idf_matter.Base.{
  ℕ, zero, suc, ◌+◌, ◌/◌, ◌%◌, Bool, ◌&&◌, not, Option, none, some, is_some, List, [], ◌∷◌, ◌++◌,
  map, length, leb, if◌then◌else◌, Exec, Result, ok, err, panic,
}
use esp_idf_matter.Error.{EspError}
use esp_idf_matter.Thread.Srp.Host.{hex_digit_upper}

-- The bytes of an ASCII text.
abbrev pub bytes : String → List ℕ
bytes String.[] = []
bytes (String.◌∷◌ c s) = code c ∷ bytes s

-- `write!` of these pieces to a `String` of that capacity: one that does not fit is left out, and
-- so is all after it.
unfoldable pub write_to : ℕ → List ℕ → List (List ℕ) → List ℕ
write_to capacity s [] = s
write_to capacity s (piece ∷ rest) =
    if leb (length s + length piece) capacity then write_to capacity (s ++ piece) rest else s

-- So many of the last hexadecimal digits.
unfoldable pub hex_digits : ℕ → ℕ → List ℕ
unfolding hex_digit_upper
hex_digits zero n = []
hex_digits (suc k) n = hex_digits k (n / 16) ++ hex_digit_upper (n % 16) ∷ []

-- `MatterRemoteService` of `rs-matter`; the numbers are `u64`.
pub data MatterRemoteService : Type 0 where
  operational : (compressed_fabric_id node_id : ℕ) → MatterRemoteService
  commissionable : (id : ℕ) → MatterRemoteService

-- The label of a service to resolve; `{:016X}` of a `u64` has 16 digits.
unfoldable pub label : MatterRemoteService → List ℕ
unfolding write_to hex_digits
label (MatterRemoteService.operational compressed_fabric_id node_id) =
    write_to 33 [] (hex_digits 16 compressed_fabric_id ∷ bytes "-" ∷ hex_digits 16 node_id ∷ [])
label (MatterRemoteService.commissionable id) = write_to 33 [] (hex_digits 16 id ∷ [])

unfoldable pub resolved_type : MatterRemoteService → List ℕ
resolved_type (MatterRemoteService.operational c n) = bytes "_matter._tcp.default.service.arpa"
resolved_type (MatterRemoteService.commissionable id) = bytes "_matterc._udp.default.service.arpa"

pub data IpAddr : Type 0 where
  v6 : List ℕ → IpAddr

pub record ServiceInfo : Type 0 where
  pub port : ℕ
  pub host_addresses : List (List ℕ)
  pub txt_data : List ℕ

pub record Instance : Type 0 where
  pub label : List ℕ
  pub info : Option ServiceInfo

-- `MdnsRemoteService` of `rs-matter`, with the bytes of its name and its TXT record.
pub record MdnsRemoteService : Type 0 where
  pub instance_name : List ℕ
  pub port : Option ℕ
  pub addrs : List IpAddr
  pub txt : List ℕ
  pub scope_id : ℕ

-- The surroundings, with `Q` for the browse queries of `rs-matter`.
pub record Dns (Q : Type 0) (W : Type 0) : Type 0 where
  pub wait_resolve_request : W → MatterRemoteService × W
  pub wait_browse_request : W → Q × W
  -- `instance_name` of a service, into a `String<128>`.
  pub instance_name : MatterRemoteService → List ℕ
  -- `service_type` of a query, into a `String<64>`.
  pub service_type : Q → List ℕ
  pub base_service_type : Q → List ℕ
  pub needs_resolve : Q → Bool
  pub dns_resolve_service_and_host_address : List ℕ → List ℕ → Exec EspError W ServiceInfo
  pub dns_browse : List ℕ → Exec EspError W (List Instance)
  -- The list is that of the addresses for the scoring.
  pub try_deposit_mdns_resolve : MdnsRemoteService → List IpAddr → W → W
  pub try_deposit_mdns_browse : MdnsRemoteService → W → W

unfoldable pub resolved : List ℕ → ServiceInfo → MdnsRemoteService
resolved instance_name info = record {
  instance_name = instance_name;
  port = some info.port;
  addrs = map v6 info.host_addresses;
  txt = info.txt_data;
  scope_id = 0;
}

abbrev pub info_port : Option ServiceInfo → Option ℕ
info_port none = none
info_port (some info) = some info.port

abbrev pub info_addrs : Option ServiceInfo → List IpAddr
info_addrs none = []
info_addrs (some info) = map v6 info.host_addresses

abbrev pub info_txt : Option ServiceInfo → List ℕ
info_txt none = []
info_txt (some info) = info.txt_data

module _ {Q W : Type 0} (dns : Dns Q W) where
  unfoldable pub after_resolve : MatterRemoteService → Result EspError ServiceInfo × W → W
  unfolding resolved
  after_resolve service (ok info, w) =
      dns.try_deposit_mdns_resolve (resolved (dns.instance_name service) info) [] w
  after_resolve service (err e, w) = w
  after_resolve service (panic, w) = w

  -- A round of `run_resolve`.
  unfoldable pub resolve_round : W → W
  unfolding label resolved_type after_resolve
  resolve_round w =
      let (service, w') = dns.wait_resolve_request w in
      after_resolve service
        (dns.dns_resolve_service_and_host_address (label service) (resolved_type service) w')

  unfoldable pub browsed_name : Q → List ℕ
  unfolding write_to
  browsed_name query = write_to 96 [] (dns.service_type query ∷ bytes ".default.service.arpa" ∷ [])

  unfoldable pub found : Q → Instance → MdnsRemoteService
  unfolding write_to
  found query instance = record {
    instance_name =
        write_to 96 []
          (instance.label ∷ bytes "." ∷ dns.base_service_type query ∷ bytes ".local" ∷ []);
    port = info_port instance.info;
    addrs = info_addrs instance.info;
    txt = info_txt instance.info;
    scope_id = 0;
  }

  unfoldable pub is_skipped : Q → Instance → Bool
  is_skipped query instance = dns.needs_resolve query && not (is_some instance.info)

  unfoldable pub deposit_all : Q → List Instance → W → W
  unfolding is_skipped found
  deposit_all query [] w = w
  deposit_all query (instance ∷ rest) w = deposit_all query rest (
      if is_skipped query instance then w else dns.try_deposit_mdns_browse (found query instance) w)

  unfoldable pub after_browse : Q → Result EspError (List Instance) × W → W
  unfolding deposit_all
  after_browse query (ok instances, w) = deposit_all query instances w
  after_browse query (err e, w) = w
  after_browse query (panic, w) = w

  -- A round of `run_browse`.
  unfoldable pub browse_round : W → W
  unfolding browsed_name after_browse
  browse_round w =
      let (query, w') = dns.wait_browse_request w in
      after_browse query (dns.dns_browse (browsed_name query) w')
