-- ===== src/Render/Checks/Matrix.antt =====
-- The checks on segments: `validate_segment_ping_matrix_check`,
-- `validate_segment_bidirectional_capture_check` and `validate_segment_perf_probe_check`.
use Prim.Native.String.{String, ◌++◌}
use pulsaros_testbed.Prelude.{
  ℕ, List, [], ◌∷◌, Bool, false, not, none, some, Outcome, ok, die, raise, type_error, value_error,
  if◌then◌else◌, die_if, enumerate, loop, get, put, Dict, ◌>>=◌, ◌>>◌,
}
use pulsaros_testbed.Number.{ℤ, pos, ltℤ}
use pulsaros_testbed.Text.{show_ℕ, float_below_zero}
use pulsaros_testbed.Value.{
  Value, bool, int, float, str, list, dict, Fields, elems, truthy, is_blank, get_field, in_keys,
  py_str, entries,
}
use pulsaros_testbed.Render.Hosts.{Hosts}
use pulsaros_testbed.Render.Segments.{Member, Segment, Segments}
use pulsaros_testbed.Render.Checks.Captures.{
  validate_captures, validate_capture_assertions, at_least_one, allowed_key,
}

-- f"{member['host']}.{member['nic']}"
unfoldable pub endpoint : Member → String
endpoint m = m.host ++ ("." ++ py_str m.nic)

-- The member that an endpoint names; of two with one name the later.
unfoldable pub members_by_endpoint : List Member → Dict Member → Dict Member
members_by_endpoint [] d = d
members_by_endpoint (m ∷ ms) d = members_by_endpoint ms (put (endpoint m) m d)

unfoldable pub segment_members : Segment → Dict Member
segment_members s = members_by_endpoint s.members []

unfoldable pub validate_endpoint :
    Dict Member → Fields → String → Unit {0} → String → Outcome (Unit {0})
validate_endpoint members pair label _ k = do
  known ← in_keys (get_field k pair) members
  die_if (not known) (label ++ (" " ++ (k ++ " must reference a segment member as host.nic")))

abbrev expect_dict : String → Value → Outcome Fields
expect_dict message (dict fs) = ok fs
expect_dict message _ = die message

unfoldable pub validate_pair : Dict Member → String → ℕ → Unit {0} → Value → Outcome (Unit {0})
validate_pair members label index _ pair = do
  let pair_label = label ++ (" pair " ++ show_ℕ index)
  fs ← expect_dict (pair_label ++ " must be a mapping") pair
  loop (validate_endpoint members fs pair_label) tt ("source" ∷ "destination" ∷ [])

-- The part behind the tests on `segment`.
unfoldable pub validate_pairs : Segment → Value → String → Outcome (Unit {0})
validate_pairs segment (list vs) label =
    enumerate (validate_pair (segment_members segment) label) 0 tt (elems vs)
validate_pairs segment v label =
    if is_blank v then ok tt else die (label ++ " pairs must be a list")

-- `segment_name` behind its two tests, with the segment that it names.
unfoldable pub named_segment : Segments → Value → String → Outcome Segment
named_segment segments (str s) label = elim (get s segments) [
  | none ↦ die (label ++ (" references unknown segment " ++ s))
  | some segment ↦ ok segment
]
named_segment segments (list vs) label = raise type_error
named_segment segments (dict fs) label = raise type_error
named_segment segments v label = die (label ++ (" references unknown segment " ++ py_str v))

unfoldable pub segment_of : Segments → Fields → String → Outcome Segment
segment_of segments check label = do
  die_if (not (truthy (get_field "segment" check))) (label ++ " must define segment")
  named_segment segments (get_field "segment" check) label

unfoldable pub validate_segment_ping_matrix_check : Segments → Fields → String → Outcome (Unit {0})
validate_segment_ping_matrix_check segments check label = do
  segment ← segment_of segments check label
  validate_pairs segment (get_field "pairs" check) label

unfoldable pub validate_segment_bidirectional_capture_check :
    Hosts → Segments → Fields → String → Outcome (Unit {0})
validate_segment_bidirectional_capture_check hosts segments check label = do
  segment_of segments check label >>= λ _. ok tt
  validate_captures hosts (get_field "captures" check) label
  validate_capture_assertions check label
  validate_segment_ping_matrix_check segments check label

-- float(v) < 0
is_negative : ℤ → Bool
is_negative z = ltℤ z (pos 0)

below_zero : Value → Outcome Bool
unfolding is_negative
below_zero (bool b) = ok false
below_zero (int z) = ok (is_negative z)
below_zero (float z k) = ok (is_negative z)
below_zero (str s) = elim (float_below_zero s) [ none ↦ raise value_error | some b ↦ ok b ]
below_zero _ = raise type_error

abbrev pub threshold_fields : List String
threshold_fields = "max_loss_percent" ∷ "max_rtt_avg_ms" ∷ "max_rtt_max_ms" ∷ []

unfoldable pub validate_threshold : String → Unit {0} → String × Value → Outcome (Unit {0})
unfolding below_zero
validate_threshold label _ (key, value) = do
  allowed_key threshold_fields (label ++ " thresholds") tt key
  negative ← below_zero value
  die_if negative (label ++ (" thresholds " ++ (key ++ " must be non-negative")))

unfoldable pub validate_thresholds : Value → String → Outcome (Unit {0})
validate_thresholds (dict fs) label = loop (validate_threshold label) tt (entries fs)
validate_thresholds v label =
    if is_blank v then ok tt else die (label ++ " thresholds must be a mapping")

unfoldable pub validate_segment_perf_probe_check : Segments → Fields → String → Outcome (Unit {0})
validate_segment_perf_probe_check segments check label = do
  validate_segment_ping_matrix_check segments check label
  loop (λ _ k. at_least_one k check (label ++ (" " ++ (k ++ " must be at least 1")))) tt
      ("count" ∷ "wait" ∷ "timeout" ∷ [])
  validate_thresholds (get_field "thresholds" check) label
