-- ===== src/Render/ControlPlane/Defs.antt =====
-- The requested control plane, the underlays of the VTEP hosts, and the peers of each host.
use Prim.Native.String.{String, ◌++◌}
use pulsaros_testbed.Prelude.{
  List, [], ◌∷◌, Bool, true, false, ◌&&◌, ◌||◌, not, ◌==◌, Option, none, some, Outcome, ok, die,
  raise, key_error, if◌then◌else◌, die_if, loop, each, select, Dict, get, put, keys, map, ◌>>=◌,
  ◌>>◌,
}
use pulsaros_testbed.Number.{ℤ, pos, ltℤ}
use pulsaros_testbed.Order.{sorted_set, sorted_numbers, in_texts}
use pulsaros_testbed.Value.{
  Value, int, str, list, dict, Items, nil, cons, Fields, is_blank, is_str, get_or, to_int, value_eq,
}
use pulsaros_testbed.Render.Unique.{validate_unique}
use pulsaros_testbed.Render.Hosts.{Hosts, validate_host_ref}
use pulsaros_testbed.Render.Segments.{Vtep, Segment, Segments}

pub data Peering : Type 0 where
  full_mesh route_reflector : Peering

pub record Evpn : Type 0 where
  pub asn : ℤ
  pub peering : Peering
  pub route_reflectors : List String

-- What `validate_control_plane` returns.
pub data Requested : Type 0 where
  static : Requested
  evpn : Evpn → Requested

-- The VTEPs of all segments, in the order of the two loops.
vteps_before : List Vtep → List Vtep → List Vtep
vteps_before [] rest = rest
vteps_before (v ∷ vs) rest = v ∷ vteps_before vs rest

unfoldable pub vteps_of : Segments → List Vtep
unfolding vteps_before
vteps_of [] = []
vteps_of ((name, segment) ∷ rest) = vteps_before segment.vteps (vteps_of rest)

unfoldable pub segment_vtep_hosts : Segments → List String
segment_vtep_hosts segments = sorted_set (map (λ v. v.host) (vteps_of segments))

pub record Underlay : Type 0 where
  pub host : String
  pub underlay_nic : Value
  pub underlay_mac : String
  pub underlay_ip : String
  pub underlay_address : String

unfoldable pub underlay_of : Vtep → Underlay
underlay_of v = record {
  host = v.host;
  underlay_nic = v.underlay_nic;
  underlay_mac = v.underlay_mac;
  underlay_ip = v.underlay_ip;
  underlay_address = v.underlay_address;
}

-- == of the two dictionaries
unfoldable pub same_underlay : Underlay → Underlay → Bool
same_underlay a b =
    (a.host == b.host)
    && (value_eq a.underlay_nic b.underlay_nic
        && ((a.underlay_mac == b.underlay_mac)
            && ((a.underlay_ip == b.underlay_ip) && (a.underlay_address == b.underlay_address))))

conflicting : Option Underlay → Underlay → Bool
conflicting none current = false
conflicting (some old) current = not (same_underlay old current)

unfoldable pub add_underlay : Dict Underlay → Vtep → Outcome (Dict Underlay)
unfolding conflicting
add_underlay underlays v = do
  die_if (conflicting (get v.host underlays) (underlay_of v))
      ("host " ++ (v.host ++ " has conflicting EVPN underlay definitions"))
  ok (put v.host (underlay_of v) underlays)

unfoldable pub vtep_underlays : Segments → Outcome (Dict Underlay)
vtep_underlays segments = loop add_underlay [] (vteps_of segments)

-- all(isinstance(host, str) for host in …), with the texts
text_list : Items → Option (List String)
text_list nil = some []
text_list (cons (str s) vs) = elim (text_list vs) [ none ↦ none | some ts ↦ some (s ∷ ts) ]
text_list (cons _ vs) = none

abbrev or_die : String → Option (List String) → Outcome (List String)
or_die message none = die message
or_die message (some ts) = ok ts

unfoldable pub read_reflectors : Value → Outcome (List String)
unfolding text_list
read_reflectors (list vs) =
    or_die "control_plane route_reflectors must be a list of host names" (text_list vs)
read_reflectors v =
    if is_blank v then ok [] else die "control_plane route_reflectors must be a list of host names"

unfoldable pub read_peering : Value → Outcome Peering
read_peering v =
    if is_str "full_mesh" v
    then ok full_mesh
    else if is_str "route_reflector" v
    then ok route_reflector
    else die "control_plane peering must be full_mesh or route_reflector"

unfoldable pub empty : {A : Type 0} → List A → Bool
empty [] = true
empty (x ∷ xs) = false

unfoldable pub check_reflectors : Peering → List String → Outcome (Unit {0})
check_reflectors route_reflector rrs =
    die_if (empty rrs) "control_plane route_reflector peering requires route_reflectors"
check_reflectors full_mesh rrs =
    die_if (not (empty rrs)) "control_plane full_mesh peering does not use route_reflectors"

unfoldable pub check_vtep_ref : Hosts → Unit {0} → String → Outcome (Unit {0})
check_vtep_ref hosts _ host = validate_host_ref hosts (str host) "control_plane evpn"

unfoldable pub check_reflector : List String → Unit {0} → String → Outcome (Unit {0})
check_reflector vtep_hosts _ host =
    die_if (not (in_texts host vtep_hosts))
      ("control_plane route_reflectors references non-VTEP host " ++ host)

-- The part behind `if cp_type == "static"`.
unfoldable pub validate_evpn : Hosts → Segments → Fields → Outcome Requested
validate_evpn hosts segments fs = do
  die_if (empty segments) "control_plane evpn requires at least one segment"
  asn ← to_int (get_or "asn" (int (pos 65000)) fs)
  die_if (ltℤ asn (pos 1) || ltℤ (pos 4294967295) asn)
      "control_plane asn must be between 1 and 4294967295"
  peering ← read_peering (get_or "peering" (str "full_mesh") fs)
  let vtep_hosts = segment_vtep_hosts segments
  loop (check_vtep_ref hosts) tt vtep_hosts
  route_reflectors ← read_reflectors (get_or "route_reflectors" (list nil) fs)
  check_reflectors peering route_reflectors
  loop (check_reflector vtep_hosts) tt route_reflectors
  validate_unique (map str route_reflectors) "control_plane route_reflector"
  ok (evpn (record { asn = asn; peering = peering; route_reflectors = route_reflectors }))

unfoldable pub validate_control_plane : Hosts → Segments → Value → Outcome Requested
validate_control_plane hosts segments (dict fs) =
    let cp_type = get_or "type" (str "static") fs in
    if is_str "static" cp_type
    then ok static
    else if is_str "evpn" cp_type
    then validate_evpn hosts segments fs
    else die "control_plane type must be static or evpn"
validate_control_plane hosts segments v =
    if is_blank v then ok static else die "control_plane must be a mapping"

pub record Peer : Type 0 where
  pub host : String
  pub address : String
  pub route_reflector_client : Bool

pub record HostControl : Type 0 where
  pub underlay : Underlay
  pub router_id : String
  pub route_reflector : Bool
  pub peers : List Peer
  pub vnis : List ℤ

pub data ControlPlane : Type 0 where
  static : ControlPlane
  evpn : Evpn → Dict HostControl → ControlPlane

-- [peer for peer in vtep_hosts if peer != host]
unfoldable pub others : String → List String → List String
others host vtep_hosts = select (λ peer. not (peer == host)) vtep_hosts

unfoldable pub spokes : Peering → List String → List String → String → List String
spokes full_mesh rrs vtep_hosts host = others host vtep_hosts
spokes route_reflector rrs vtep_hosts host =
    if in_texts host rrs then others host vtep_hosts else sorted_set rrs

unfoldable pub peer_hosts : Evpn → List String → String → List String
peer_hosts c vtep_hosts host = spokes c.peering c.route_reflectors vtep_hosts host

-- underlays[host]
abbrev pub subscript : Dict Underlay → String → Outcome Underlay
subscript underlays host = elim (get host underlays) [ none ↦ raise key_error | some u ↦ ok u ]

unfoldable pub peer_of : Evpn → Dict Underlay → String → String → Outcome Peer
peer_of c underlays host peer = do
  u ← subscript underlays peer
  ok (record {
    host = peer;
    address = u.underlay_address;
    route_reflector_client =
        in_texts host c.route_reflectors && not (in_texts peer c.route_reflectors);
  })

vni_of : String × Segment → ℤ
vni_of (name, segment) = segment.vni

unfoldable pub host_control :
    Evpn → Segments → Dict Underlay → List String → String → Outcome HostControl
unfolding vni_of
host_control c segments underlays vtep_hosts host = do
  peers ← each (peer_of c underlays host) (peer_hosts c vtep_hosts host)
  u ← subscript underlays host
  ok (record {
    underlay = u;
    router_id = u.underlay_address;
    route_reflector = in_texts host c.route_reflectors;
    peers = peers;
    vnis = sorted_numbers (map vni_of segments);
  })

-- The loop over `vtep_hosts`, which holds each host once.
unfoldable pub control_hosts :
    Evpn → Segments → Dict Underlay → List String → List String → Outcome (Dict HostControl)
control_hosts c segments underlays vtep_hosts [] = ok []
control_hosts c segments underlays vtep_hosts (host ∷ rest) = do
  h ← host_control c segments underlays vtep_hosts host
  more ← control_hosts c segments underlays vtep_hosts rest
  ok ((host, h) ∷ more)

unfoldable pub resolve_control_plane : Requested → Segments → Outcome ControlPlane
resolve_control_plane static segments = ok static
resolve_control_plane (evpn c) segments = do
  underlays ← vtep_underlays segments
  let vtep_hosts = sorted_set (keys underlays)
  hosts ← control_hosts c segments underlays vtep_hosts vtep_hosts
  ok (evpn c hosts)
