-- ===== src/Analysis/Inputs.antt =====
-- `read_json` and `collect_inputs` of scripts/analyze-artifacts-gemini.py.
use Prim.Native.String.{String, ◌++◌}
use pulsaros_testbed.Prelude.{
  ℕ, Bool, true, false, ◌||◌, not, Option, none, some, List, [], ◌∷◌, any, select, map, Dict, get,
  Outcome, ok, raise, value_error, ◌>>=◌, if◌then◌else◌, ◌==◌,
}
use pulsaros_testbed.Number.{pos}
unfoldable pub use pulsaros_testbed.Order.{insert_entry, sorted_entries}
use pulsaros_testbed.Text.{has_text}
use pulsaros_testbed.Value.{Value, int, str, list, dict, Fields, end, field, items}
use pulsaros_testbed.Text.{ends_with, suffix}
use pulsaros_testbed.Analysis.Entries.{Entry, file, directory, read_text}
use pulsaros_testbed.Analysis.Redact.{redact}
use pulsaros_testbed.Analysis.Junit.{Xml, JunitResult, Case, parse_junit_file}
use pulsaros_testbed.Analysis.Topology.{topology_summary}

-- A JSON file: absent, not UTF-8, no JSON, or a value.
pub data JsonFile : Type 0 where
  absent undecodable not_json : JsonFile
  holds : Value → JsonFile

unfoldable pub read_json : JsonFile → Outcome Value
read_json absent = ok (dict end)
read_json not_json = ok (dict end)
read_json undecodable = raise value_error
read_json (holds v) = ok v

-- The files under the repository's root; a directory lists its entries by name.
pub record Files : Type 0 where
  pub topology : JsonFile
  pub run_state : JsonFile
  pub perf_metrics : JsonFile
  pub fault_results : JsonFile
  pub artifacts : Dict Entry
  pub logs : Dict Entry
  pub pcaps : Dict Entry
  pub junit : Dict Xml

-- os.environ
abbrev pub Environ : Type 0
Environ = Dict String

-- os.environ.get(name, default)
unfoldable pub env_or : Environ → String → String → String
unfolding get
env_or env name default = elim (get name env) [ none ↦ default | some s ↦ s ]

pub record Run : Type 0 where
  pub github_run_id : String
  pub scenario : String
  pub runner_name : String

pub record Collected : Type 0 where
  pub run : Run
  pub topology : Fields
  pub run_state : Value
  pub perf_metrics : Value
  pub fault_results : Value
  pub topology_env : String
  pub artifact_text : Dict String
  pub junit : List JunitResult
  pub pcaps : Dict ℕ
  pub log_samples : Dict String

module _ {ℓ} {V : Type ℓ} where
  -- sorted(d.glob("*" + ending))
  unfoldable pub glob : String → Dict V → Dict V
  unfolding sorted_entries ends_with select
  glob ending d = select (λ e. ends_with ending e.0) (sorted_entries d)

abbrev pub markers : List String
markers = "dmesg" ∷ "journal" ∷ "ip-link" ∷ "ip-addr" ∷ "tcpdump" ∷ "uname" ∷ []

unfoldable pub is_sample : String → Bool
unfolding any has_text
is_sample name = any (λ marker. has_text marker name) markers

unfoldable pub read_redacted : ℕ → Option Entry → Outcome String
unfolding read_text redact
read_redacted limit entry = read_text limit entry >>= λ text. ok (redact text)

-- The loop over the logs.
unfoldable pub sample_logs : Dict Entry → Outcome (Dict String)
unfolding is_sample read_redacted
sample_logs [] = ok []
sample_logs ((name, entry) ∷ logs) =
    if is_sample name
    then (read_redacted 4000 (some entry) >>= λ text.
        sample_logs logs >>= λ rest. ok (("logs/" ++ name, text) ∷ rest))
    else sample_logs logs

unfoldable pub is_file : Entry → Bool
is_file (file text bytes) = true
is_file (directory bytes) = false

unfoldable pub is_report : String → Bool
is_report name = name == "ai-analysis.md" || name == "ai-analysis-input.json"

unfoldable pub is_text_file : String → Bool
unfolding suffix any
is_text_file name = any (λ ending. suffix name == ending) (".env" ∷ ".txt" ∷ ".log" ∷ ".md" ∷ [])

-- The loop over the artifacts.
unfoldable pub artifact_texts : Dict Entry → Outcome (Dict String)
unfolding is_file is_report is_text_file read_redacted
artifact_texts [] = ok []
artifact_texts ((name, entry) ∷ entries) =
    if is_report name || not (is_file entry)
    then artifact_texts entries
    else if is_text_file name
    then (read_redacted 12000 (some entry) >>= λ text.
        artifact_texts entries >>= λ rest. ok (("artifacts/" ++ name, text) ∷ rest))
    else artifact_texts entries

unfoldable pub parse_files : Dict Xml → Outcome (List JunitResult)
unfolding parse_junit_file
parse_files [] = ok []
parse_files ((name, xml) ∷ files) = parse_junit_file ("junit/" ++ name) xml >>= λ result.
    parse_files files >>= λ rest. ok (result ∷ rest)

-- path.stat().st_size
unfoldable pub byte_size : Entry → ℕ
byte_size (file text bytes) = bytes
byte_size (directory bytes) = bytes

unfoldable pub pcap_sizes : Dict Entry → Dict ℕ
unfolding byte_size
pcap_sizes [] = []
pcap_sizes ((name, entry) ∷ entries) = ("pcaps/" ++ name, byte_size entry) ∷ pcap_sizes entries

unfoldable pub collect_inputs : Environ → Files → Outcome Collected
unfolding read_json topology_summary parse_files glob sample_logs artifact_texts pcap_sizes env_or
    read_redacted get
collect_inputs env files = do
  document ← read_json files.topology
  topology ← topology_summary document
  run_state ← read_json files.run_state
  perf_metrics ← read_json files.perf_metrics
  fault_results ← read_json files.fault_results
  junit ← parse_files (glob ".xml" files.junit)
  log_samples ← sample_logs (glob ".log" files.logs)
  artifact_text ← artifact_texts (sorted_entries files.artifacts)
  topology_env ← read_redacted 12000 (get "topology.env" files.artifacts)
  ok (record {
    run = record {
      github_run_id = env_or env "GITHUB_RUN_ID" "";
      scenario = env_or env "SCENARIO" "";
      runner_name = env_or env "RUNNER_NAME" "";
    };
    topology = topology;
    run_state = run_state;
    perf_metrics = perf_metrics;
    fault_results = fault_results;
    topology_env = topology_env;
    artifact_text = artifact_text;
    junit = junit;
    pcaps = pcap_sizes (glob ".pcap" files.pcaps);
    log_samples = log_samples;
  })

-- A mapping of texts as a value.
unfoldable pub text_fields : Dict String → Fields
text_fields [] = end
text_fields ((k, s) ∷ d) = field k (str s) (text_fields d)

unfoldable pub case_value : Case → Value
case_value case' = dict (
    field "classname" (str case'.classname) (
      field "name" (str case'.name)
        (field "message" (str case'.message) (field "text" (str case'.text) end))))

unfoldable pub error_field : Option String → Fields
error_field none = end
error_field (some message) = field "parse_error" (str message) end

unfoldable pub junit_value : JunitResult → Value
unfolding case_value error_field
junit_value j = dict (
    field "file" (str j.path) (
      field "tests" (int j.counts.tests) (
        field "failures" (int j.counts.failures) (
          field "errors" (int j.counts.errors) (
            field "skipped" (int j.counts.skipped) (
              field "failed_cases" (list (items (map case_value j.failed_cases)))
                (error_field j.parse_error)))))))

unfoldable pub pcap_values : Dict ℕ → List Value
pcap_values [] = []
pcap_values ((path, bytes) ∷ d) =
    dict (field "file" (str path) (field "bytes" (int (pos bytes)) end)) ∷ pcap_values d

-- The dictionary that `collect_inputs` returns.
unfoldable pub inputs_value : Collected → Value
unfolding text_fields junit_value pcap_values
inputs_value data' = dict (
    field "run"
      (dict (
        text_fields (
          ("github_run_id", data'.run.github_run_id)
          ∷ ("scenario", data'.run.scenario)
          ∷ ("runner_name", data'.run.runner_name)
          ∷ [])))
      (field "topology" (dict data'.topology) (
        field "run_state" data'.run_state (
          field "perf_metrics" data'.perf_metrics (
            field "fault_results" data'.fault_results (
              field "topology_env" (str data'.topology_env) (
                field "artifact_text" (dict (text_fields data'.artifact_text)) (
                  field "junit" (list (items (map junit_value data'.junit))) (
                    field "pcaps" (list (items (pcap_values data'.pcaps)))
                      (field "log_samples" (dict (text_fields data'.log_samples)) end))))))))))
