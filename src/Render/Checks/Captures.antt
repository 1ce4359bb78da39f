-- ===== src/Render/Checks/Captures.antt =====
-- `validate_ping_check`, `validate_captures`, `validate_capture_assertions`,
-- `validate_packet_capture_check` and `validate_pktgen_dpdk_check`.
use Prim.Native.String.{String, ◌++◌}
use pulsaros_testbed.Prelude.{
  ℕ, List, [], ◌∷◌, Bool, true, false, ◌&&◌, ◌||◌, not, ◌==◌, Outcome, ok, die, if◌then◌else◌,
  die_if, enumerate, loop, all, any, keys, ◌>>=◌, ◌>>◌,
}
use pulsaros_testbed.Number.{ℤ, pos, ltℤ}
use pulsaros_testbed.Text.{show_ℕ, has_char}
use pulsaros_testbed.Value.{
  Value, int, str, list, dict, cons, Fields, elems, entries, truthy, is_blank, is_str, get_field,
  get_or, has_field, to_int, py_str,
}
use pulsaros_testbed.Render.Hosts.{Hosts, validate_host_ref, validate_host_nic_ref}

unfoldable pub validate_ping_check : Hosts → Fields → String → Outcome (Unit {0})
validate_ping_check hosts check label = do
  die_if (not (truthy (get_field "source" check))) (label ++ " must define source")
  die_if (not (truthy (get_field "destination" check))) (label ++ " must define destination")
  validate_host_ref hosts (get_field "source" check) label

abbrev expect_dict : String → Value → Outcome Fields
expect_dict message (dict fs) = ok fs
expect_dict message _ = die message

unfoldable pub validate_capture : Hosts → String → ℕ → Unit {0} → Value → Outcome (Unit {0})
validate_capture hosts label index _ capture = do
  let capture_label = label ++ (" capture " ++ show_ℕ index)
  fs ← expect_dict (capture_label ++ " must be a mapping") capture
  die_if (not (truthy (get_field "host" fs))) (capture_label ++ " must define host")
  die_if (not (truthy (get_field "nic" fs))) (capture_label ++ " must define nic")
  die_if (not (truthy (get_field "filter" fs))) (capture_label ++ " must define filter")
  validate_host_nic_ref hosts (get_field "host" fs) (get_field "nic" fs) capture_label

unfoldable pub validate_captures : Hosts → Value → String → Outcome (Unit {0})
validate_captures hosts (list (cons v vs)) label =
    enumerate (validate_capture hosts label) 0 tt (v ∷ elems vs)
validate_captures hosts _ label = die (label ++ " must define captures")

abbrev pub assertion_fields : List String
assertion_fields =
    "min_packets" ∷ "contains" ∷ "not_contains" ∷ "vxlan_vni" ∷ "inner_ips" ∷ "outer_ips" ∷ []

abbrev pub text_fields : List String
text_fields = "contains" ∷ "not_contains" ∷ "inner_ips" ∷ "outer_ips" ∷ []

-- for key in fields: if key not in allowed: die(…)
unfoldable pub allowed_key : List String → String → Unit {0} → String → Outcome (Unit {0})
allowed_key allowed what _ key =
    die_if (not (any (λ a. a == key) allowed)) (what ++ (" has unsupported field " ++ key))

is_text : Value → Bool
is_text (str s) = true
is_text _ = false

is_text_list : Value → Bool
unfolding is_text
is_text_list (list vs) = all is_text (elems vs)
is_text_list _ = false

-- if k in fields and int(fields[k]) < 1: die(message)
unfoldable pub at_least_one : String → Fields → String → Outcome (Unit {0})
at_least_one k fs message =
    if has_field k fs
    then (to_int (get_field k fs) >>= λ z. die_if (ltℤ z (pos 1)) message)
    else ok tt

unfoldable pub text_field : Fields → String → Unit {0} → String → Outcome (Unit {0})
unfolding is_text_list
text_field fs label _ k =
    die_if (has_field k fs && not (is_text_list (get_field k fs)))
      (label ++ (" assertions " ++ (k ++ " must be a list of strings")))

unfoldable pub check_assertions : Value → String → Outcome (Unit {0})
check_assertions (dict fs) label = do
  loop (allowed_key assertion_fields (label ++ " assertions")) tt (keys (entries fs))
  at_least_one "min_packets" fs (label ++ " assertions min_packets must be at least 1")
  loop (text_field fs label) tt text_fields
check_assertions v label =
    if is_blank v then ok tt else die (label ++ " assertions must be a mapping")

unfoldable pub validate_capture_assertions : Fields → String → Outcome (Unit {0})
validate_capture_assertions check label = check_assertions (get_field "assertions" check) label

unfoldable pub validate_packet_capture_check : Hosts → Fields → String → Outcome (Unit {0})
validate_packet_capture_check hosts check label = do
  validate_captures hosts (get_field "captures" check) label
  validate_capture_assertions check label
  trigger ← expect_dict (label ++ " must define trigger") (get_field "trigger" check)
  die_if (not (is_str "ping" (get_field "type" trigger))) (label ++ " trigger type must be ping")
  validate_ping_check hosts trigger (label ++ " trigger")

must_define : Fields → String → Unit {0} → String → Outcome (Unit {0})
must_define check label _ k =
    die_if (not (truthy (get_field k check))) (label ++ (" must define " ++ k))

not_cidr : Fields → String → Unit {0} → String → Outcome (Unit {0})
not_cidr check label _ k =
    die_if (has_char b'/' (py_str (get_field k check)))
      (label ++ (" " ++ (k ++ " must be an address, not a CIDR")))

-- value = int(check.get(k, default)); if value < low or value > high: die(message)
within : Fields → String → ℤ → ℤ → ℤ → String → Outcome (Unit {0})
within check k default low high message = do
  z ← to_int (get_or k (int default) check)
  die_if (ltℤ z low || ltℤ high z) message

unfoldable pub validate_pktgen_dpdk_check : Hosts → Fields → String → Outcome (Unit {0})
unfolding must_define not_cidr within
validate_pktgen_dpdk_check hosts check label = do
  die_if (not (truthy (get_field "source" check))) (label ++ " must define source")
  die_if (not (truthy (get_field "nic" check))) (label ++ " must define nic")
  validate_host_nic_ref hosts (get_field "source" check) (get_field "nic" check) label
  loop (must_define check label) tt ("destination_mac" ∷ "source_ip" ∷ "destination_ip" ∷ [])
  loop (not_cidr check label) tt ("source_ip" ∷ "destination_ip" ∷ [])
  let protocol = get_or "protocol" (str "udp") check
  die_if (not (is_str "udp" protocol || (is_str "tcp" protocol || is_str "icmp" protocol)))
      (label ++ " protocol must be udp, tcp, or icmp")
  within check "packet_size" (pos 128) (pos 64) (pos 1518)
      (label ++ " packet_size must be between 64 and 1518")
  within check "rate_percent" (pos 1) (pos 1) (pos 100)
      (label ++ " rate_percent must be between 1 and 100")
  duration ← to_int (get_or "duration" (int (pos 5)) check)
  die_if (ltℤ duration (pos 1)) (label ++ " duration must be at least 1 second")
