-- ===== src/CheckRun.antt =====
-- tests/test_topology_checks.py: which pairs of segment members a check pings.
use Prim.Native.String.{String}
use pulsaros_testbed.Prelude.{
  Bool, ◌==◌, not, ◌||◌, Option, none, some, Outcome, ok, raise, key_error, type_error,
  if◌then◌else◌, Dict, each, select, List, [], ◌∷◌, ◌++◌, map, ◌>>=◌,
}
use pulsaros_testbed.Value.{Value, dict, Fields, field?, get_field, truthy, iterate, value_eq}
use pulsaros_testbed.Render.Hosts.{lookup}
use pulsaros_testbed.Render.Segments.{Member, Segment}
use pulsaros_testbed.Render.Checks.{segment_members}
pub mod Pairs

-- members[pair[k]]
unfoldable pub member_at : Dict Member → Fields → String → Outcome Member
member_at members pair k = elim (field? k pair) [
  | none ↦ raise key_error
  | some v ↦ lookup members v
]

unfoldable pub pair_of : Dict Member → Value → Outcome (Member × Member)
pair_of members (dict pair) = member_at members pair "source" >>= λ source.
    member_at members pair "destination" >>= λ destination. ok (source, destination)
pair_of members _ = raise type_error

-- source["host"] != destination["host"] or source["nic"] != destination["nic"]
unfoldable pub differ : Member → Member → Bool
differ source destination =
    not (source.host == destination.host) || not (value_eq source.nic destination.nic)

-- The inner loop of the second comprehension.
unfoldable pub destinations : Member → List Member → List (Member × Member)
destinations source members =
    map (λ destination. (source, destination)) (select (differ source) members)

unfoldable pub all_pairs : List Member → List Member → List (Member × Member)
all_pairs [] members = []
all_pairs (source ∷ rest) members = destinations source members ++ all_pairs rest members

unfoldable pub check_pairs : Segment → Fields → Outcome (List (Member × Member))
check_pairs segment check =
    if truthy (get_field "pairs" check)
    then (iterate (get_field "pairs" check) >>= each (pair_of (segment_members segment)))
    else ok (all_pairs segment.members segment.members)
