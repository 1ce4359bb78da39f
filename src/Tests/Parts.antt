-- ===== src/Tests/Parts.antt =====
-- The validators and the filter at parts of the sample topology.
use pulsaros_testbed.Prelude.{
  raise, key_error, ◌≡◌, ◌↔◌, refl, true, none, Outcome, ok, List, [], ◌∷◌, All,
}
use pulsaros_testbed.Number.{pos}
use pulsaros_testbed.Value.{Value, str, int, list, null, Fields, items}
use pulsaros_testbed.Prelude.{get, values}
use pulsaros_testbed.Value.{iterate, truthy}
use pulsaros_testbed.Render.Unique.{validate_unique}
use pulsaros_testbed.Render.Dataplane.{filter_for_dataplane}
use pulsaros_testbed.Render.Hosts.{Hosts}
use pulsaros_testbed.Render.Segments.{validate_segments, resolve_segments}
use pulsaros_testbed.Render.ControlPlane.{validate_control_plane, resolve_control_plane}
use pulsaros_testbed.Render.Checks.{validate_checks}
use pulsaros_testbed.Render.Faults.{validate_faults}
use pulsaros_testbed.Render.Tokens.{resolve_tokens}
use pulsaros_testbed.Render.Segments.{Segments}
use pulsaros_testbed.Render.Env.Mac.{mac_for_injective}
use pulsaros_testbed.Render.Unique.Exact.{AllHashable, Distinct, validate_unique_iff}
use pulsaros_testbed.Render.Segments.Progress.{resolve_segments-Returns}
use pulsaros_testbed.Render.Dataplane.Filtered.{kept, filter_for_dataplane-kept}
use pulsaros_testbed.Render.Checks.Names.{AllNamed, names, validate_checks-names}
use pulsaros_testbed.Render.Faults.Names.{IsTyped, validate_faults-names}
use pulsaros_testbed.Render.Tokens.Plain.{is_plain, items_plain, fields_plain, resolve_tokens-plain}
use pulsaros_testbed.Render.ControlPlane.{Requested}
use pulsaros_testbed.Render.ControlPlane.Progress.{resolve_control_plane_never_raises}
use pulsaros_testbed.Render.Output.{update_ip, update_ips, set_address, require_ips}
use pulsaros_testbed.Render.Output.Addresses.{
  mapped, at_address, address_from, update_ips-readdressed, require_ips_iff,
}
use pulsaros_testbed.Tests.Program.{program}
use pulsaros_testbed.Tests.Sample.{succeeds, value, value-ok, mapping, segments, check, fault}
use pulsaros_testbed.Tests.Renders.{document}

abbrev passed : Outcome Fields
passed = validate_segments document.hosts segments

passes : succeeds passed ≡ true
unfolding program
passes = refl

resolve_segments-Returns_example :
    (s : Segments) × (resolve_segments document.hosts (value passed passes) ≡ ok s)
resolve_segments-Returns_example =
    resolve_segments-Returns document.hosts segments (value passed passes) (value-ok passed passes)

validate_unique_iff_example :
    (validate_unique (str "a" ∷ int (pos 1) ∷ []) "name" ≡ ok tt)
    ↔ (AllHashable (str "a" ∷ int (pos 1) ∷ []) × Distinct (str "a" ∷ int (pos 1) ∷ []))
validate_unique_iff_example = validate_unique_iff (str "a" ∷ int (pos 1) ∷ []) "name"

mac_for_injective_example : pos 17 ≡ pos 17
mac_for_injective_example = mac_for_injective 70001 (pos 17) (pos 17) refl

abbrev choices : List Value
choices =
    check
    ∷ mapping (("name", str "raw") ∷ ("dataplanes", list (items (str "pulsaros-dpdk" ∷ []))) ∷ [])
    ∷ mapping (("name", str "all") ∷ ("dataplanes", null) ∷ [])
    ∷ []

abbrev filtered : Outcome (List Value)
filtered = filter_for_dataplane (list (items choices)) "linux-vxlan" "check"

filters : succeeds filtered ≡ true
unfolding program
filters = refl

filter_for_dataplane-kept_example : value filtered filters ≡ kept "linux-vxlan" choices
unfolding iterate
filter_for_dataplane-kept_example =
    filter_for_dataplane-kept (list (items choices)) choices "linux-vxlan" "check"
      (value filtered filters) refl (value-ok filtered filters)

abbrev checked : Outcome (List Value)
checked =
    validate_checks document.hosts (list (items (check ∷ []))) document.segments
      document.control_plane

checks : succeeds checked ≡ true
unfolding program
checks = refl

validate_checks-names_example :
    (value checked checks ≡ check ∷ [])
    × ((a : AllNamed (value checked checks)) × Distinct (names (value checked checks) a))
validate_checks-names_example =
    validate_checks-names document.hosts document.segments document.control_plane
      (items (check ∷ [])) (value checked checks) (value-ok checked checks)

abbrev faulty : Outcome (List Value)
faulty = validate_faults (list (items (fault ∷ []))) document.segments document.control_plane

faults : succeeds faulty ≡ true
unfolding program
faults = refl

validate_faults-names_example :
    (value faulty faults ≡ fault ∷ [])
    × (All IsTyped (value faulty faults)
        × ((a : AllNamed (value faulty faults)) × Distinct (names (value faulty faults) a)))
validate_faults-names_example =
    validate_faults-names document.segments document.control_plane (items (fault ∷ []))
      (value faulty faults) (value-ok faulty faults)

resolve_tokens-plain_example :
    resolve_tokens (record { hosts = document.hosts; networks = document.networks }) none check
    ≡ ok check
unfolding is_plain items_plain fields_plain
resolve_tokens-plain_example =
    resolve_tokens-plain (record { hosts = document.hosts; networks = document.networks }) none
      check refl

abbrev plane : Value
plane = mapping (
    ("type", str "evpn")
    ∷ ("peering", str "route_reflector")
    ∷ ("route_reflectors", list (items (str "a" ∷ [])))
    ∷ [])

abbrev requested : Outcome Requested
requested = validate_control_plane document.hosts document.segments plane

requests : succeeds requested ≡ true
unfolding program
requests = refl

resolve_control_plane_never_raises_example :
    ¬ (resolve_control_plane (value requested requests) document.segments ≡ raise key_error)
resolve_control_plane_never_raises_example =
    resolve_control_plane_never_raises document.hosts document.segments plane
      (value requested requests) key_error (value-ok requested requests)

abbrev updated : Outcome Hosts
updated = update_ips document.hosts ("a=192.0.2.1" ∷ "b=192.0.2.2" ∷ "a=192.0.2.3" ∷ [])

updates : succeeds updated ≡ true
unfolding program update_ip update_ips set_address
updates = refl

update_ips-readdressed_example :
    get "a" (value updated updates)
    ≡ mapped
        (λ h.
          at_address
            (address_from "a" ("a=192.0.2.1" ∷ "b=192.0.2.2" ∷ "a=192.0.2.3" ∷ []) h.management_ip)
            h)
        (get "a" document.hosts)
update_ips-readdressed_example =
    update_ips-readdressed document.hosts (value updated updates)
      ("a=192.0.2.1" ∷ "b=192.0.2.2" ∷ "a=192.0.2.3" ∷ []) "a" (value-ok updated updates)

require_ips_iff_example :
    (require_ips (value updated updates) ≡ ok tt)
    ↔ All (λ h. truthy h.management_ip ≡ true) (values (value updated updates))
require_ips_iff_example = require_ips_iff (value updated updates)
