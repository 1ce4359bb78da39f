-- ===== src/Analysis/Summary.antt =====
-- `local_summary` of scripts/analyze-artifacts-gemini.py.
use Prim.Native.String.{String, ◌++◌, count}
use pulsaros_testbed.Prelude.{
  ℕ, suc, ◌+◌, List, [], ◌∷◌, length, extend, concat, Dict, Outcome, ok, raise, type_error, ◌>>=◌,
  if◌then◌else◌, ◌==◌,
}
use pulsaros_testbed.Order.{join}
use pulsaros_testbed.Text.{show_ℕ, show_ℤ}
use pulsaros_testbed.Value.{
  Value, str, list, dict, nil, Fields, size, elems, truthy, get_or, get_field, as_dict, iterate,
  py_str,
}
use pulsaros_testbed.Analysis.Junit.{Case, Counts, JunitResult, no_counts, add_counts}
use pulsaros_testbed.Analysis.Inputs.{Collected}

-- s or default
unfoldable pub or_else : String → String → String
or_else s default = if s == "" then default else s

-- fields.get(k) or "unknown", in a text
unfoldable pub or_unknown : String → Fields → String
unfolding get_field truthy py_str
or_unknown k fs = if truthy (get_field k fs) then py_str (get_field k fs) else "unknown"

unfoldable pub topology_lines : Fields → List String
unfolding truthy or_unknown
topology_lines topology =
    if truthy (dict topology)
    then ("- Topology: `" ++ (or_unknown "name" topology ++ "`")) ∷ []
    else []

unfoldable pub state_lines : Value → Outcome (List String)
unfolding truthy or_unknown as_dict
state_lines run_state =
    if truthy run_state
    then (as_dict run_state >>= λ fs.
        ok (("- Last lifecycle phase: `" ++ (or_unknown "phase" fs ++ "`")) ∷ []))
    else ok []

-- The loop over the JUnit files: `totals` and `failed_cases`.
unfoldable pub totals : Counts → List JunitResult → Counts
totals sum [] = sum
totals sum (item ∷ items) = totals (add_counts sum item.counts) items

unfoldable pub all_failed : List JunitResult → List Case
all_failed [] = []
all_failed (item ∷ items) = extend item.failed_cases (all_failed items)

unfoldable pub counts_line : Counts → String
unfolding show_ℤ
counts_line sum =
    "- JUnit: "
    ++ (show_ℤ sum.tests
        ++ (" tests, "
            ++ (show_ℤ sum.failures
                ++ (" failures, "
                    ++ (show_ℤ sum.errors
                        ++ (" errors, " ++ (show_ℤ sum.skipped ++ " skipped")))))))

unfoldable pub pcap_lines : Dict ℕ → List String
unfolding show_ℕ
pcap_lines [] = []
pcap_lines ((path, bytes) ∷ pcaps) =
    ("  - `" ++ (path ++ ("`: " ++ (show_ℕ bytes ++ " bytes")))) ∷ pcap_lines pcaps

-- len(v)
unfoldable pub len : Value → Outcome ℕ
unfolding size
len (list vs) = ok (length (elems vs))
len (dict fs) = ok (size fs)
len (str s) = ok (count s)
len v = raise type_error

-- data.get(k, []) if isinstance(data, dict) else []
unfoldable pub part_of : String → Value → Value
unfolding get_or
part_of k (dict fs) = get_or k (list nil) fs
part_of k v = list nil

unfoldable pub count_warnings : List Value → Outcome ℕ
unfolding as_dict get_or len
count_warnings [] = ok 0
count_warnings (probe ∷ probes) = as_dict probe >>= λ fs.
    len (get_or "warnings" (list nil) fs) >>= λ n. count_warnings probes >>= λ more. ok (n + more)

unfoldable pub probe_lines : Value → Outcome (List String)
unfolding part_of truthy iterate count_warnings len show_ℕ
probe_lines perf_metrics =
    let probes = part_of "probes" perf_metrics in
    if truthy probes
    then (iterate probes >>= λ vs. count_warnings vs >>= λ warnings. len probes >>= λ n. ok (
        ("- Performance probes: "
          ++ (show_ℕ n ++ (" report-only, " ++ (show_ℕ warnings ++ " warnings"))))
        ∷ []))
    else ok []

-- sum(1 for fault in faults if fault.get("recovered"))
unfoldable pub count_recovered : List Value → Outcome ℕ
unfolding as_dict get_field truthy
count_recovered [] = ok 0
count_recovered (fault ∷ faults) = as_dict fault >>= λ fs. count_recovered faults >>= λ more.
    ok (if truthy (get_field "recovered" fs) then suc more else more)

unfoldable pub fault_lines : Value → Outcome (List String)
unfolding part_of truthy iterate count_recovered len show_ℕ
fault_lines fault_results =
    let faults = part_of "faults" fault_results in
    if truthy faults
    then (iterate faults >>= λ vs. count_recovered vs >>= λ recovered. len faults >>= λ n. ok (
        ("- Fault injections: "
          ++ (show_ℕ n ++ (" recorded, " ++ (show_ℕ recovered ++ " recovered"))))
        ∷ []))
    else ok []

unfoldable pub case_lines : List Case → List String
case_lines [] = []
case_lines (case' ∷ cases) =
    ("- `" ++ (case'.classname ++ ("::" ++ (case'.name ++ ("`: " ++ case'.message)))))
    ∷ case_lines cases

unfoldable pub failure_lines : List Case → List String
unfolding case_lines
failure_lines [] = "" ∷ "No JUnit failures were found." ∷ []
failure_lines (case' ∷ cases) = "" ∷ "## Failed Cases" ∷ "" ∷ case_lines (case' ∷ cases)

unfoldable pub local_summary : Collected → Outcome String
unfolding or_else topology_lines state_lines totals all_failed counts_line pcap_lines probe_lines
    fault_lines failure_lines join concat show_ℕ
local_summary data' = do
  lifecycle ← state_lines data'.run_state
  probes ← probe_lines data'.perf_metrics
  faults ← fault_lines data'.fault_results
  ok (
      join "\n" (
        concat (
          ("# AI Artifact Analysis"
            ∷ ""
            ∷ "## Local Summary"
            ∷ ""
            ∷ ("- Scenario: `" ++ (or_else data'.run.scenario "unknown" ++ "`"))
            ∷ ("- GitHub run: `" ++ (or_else data'.run.github_run_id "local" ++ "`"))
            ∷ [])
          ∷ topology_lines data'.topology
          ∷ lifecycle
          ∷ (counts_line (totals no_counts data'.junit)
              ∷ ("- PCAP files: " ++ show_ℕ (length data'.pcaps))
              ∷ pcap_lines data'.pcaps)
          ∷ probes
          ∷ faults
          ∷ failure_lines (all_failed data'.junit)
          ∷ []))
      ++ "\n")
