-- ===== src/Lib.antt =====
-- A model of the Python programs round a disposable testbed: scripts/render-topology.py, which turns
-- a YAML topology into the resolved document that everything else reads and into the files for
-- Ansible; scripts/run-state.py, which records the life of a run; and
-- scripts/analyze-artifacts-gemini.py, which summarises what a run has left and asks a service
-- about it.
--
-- Parts, by file:
--   * Prelude, Number, Order, Text: shared notation, integers, sorting, and the text functions of
--     Python that the programs use (`%d`, `%02x`, `int`, `re.fullmatch` of two patterns, `split`).
--   * Value: what YAML and JSON load as, with truth, `==`, `str`, `int`, `.get`, iteration, hashing,
--     and `json.dumps`.
--   * Render: scripts/render-topology.py. Env (`env_int`, `env_str`, `mac_for`), Unique
--     (`validate_unique`), Dataplane (`resolve_dataplane`, `filter_for_dataplane`), Hosts
--     (references to hosts and NICs), Segments (`validate_segments`, `resolve_segments`),
--     ControlPlane (`validate_control_plane`, `resolve_control_plane`), Checks (`validate_checks`
--     and the validators of each type), Faults (`validate_faults`), Tokens (`resolve_tokens`),
--     Topology (`render`, in four parts that run in the order of the code), Output: Defs
--     (`write_env`, `cmd_validate` and the loops of the commands), Shape (the mapping that a
--     document is), Stored and StoredHosts (a document as topology.json gives it back, with sorted
--     keys), Inventory (`write_inventory`), Commands (the commands as changes of the files under
--     artifacts/, which a failure keeps), Agreement (sessions of commands).
--   * RunState: scripts/run-state.py. Resources (`topology_resources`), Commands (`ensure_state`,
--     `save_state` and the commands), Dispatch (`main` behind argparse), Shape (nested changes),
--     with Nested, Guard, Frame, Carry and History for their theorems, Ledger for the abstract
--     ledger that the commands implement, and Rendered for a run of a rendered document.
--   * Analysis: scripts/analyze-artifacts-gemini.py. Entries (`read_text`), Redact (`redact`: each
--     regular expression is a function that gives the length of its match), Junit
--     (`parse_junit_file`), Topology (`topology_summary`), Inputs (`collect_inputs`), Summary
--     (`local_summary`), Gemini (`call_gemini`; the service is a parameter, a function from requests
--     to replies), Report (`main`, as the writes that it does and how it ends). KeyBlock is about
--     private keys; Keys, Matches, Pass and Secrets about the values of secrets; Failures, Verdict,
--     Closing, Totals and JunitLine about what the summary says of the JUnit files, with the
--     elements and attributes of those files as the measure; Reading, Ending and Service about the
--     rest of the script.
--   * CheckRun: `_check_pairs` of tests/test_topology_checks.py, on the segments of the document.
--   * FaultRun: `_fault_pair`, `_expected_impact` and `_assert_fault_impact` of
--     tests/test_fault_injection.py; `pytest.fail` is `die`.
--   * EnvFile: `_load_env_file` of tests/conftest.py, with what it reads of the lines of `write_env`.
--   * Tests: a small topology, a run, and its artifacts.
--
-- The programs meet in two files. `render` gives a document; run-state.py reads it as a mapping
-- (Output/Shape), as does `collect_inputs`. The state that run-state.py keeps is read by
-- `local_summary`.
--
-- A call returns, exits through `die` with its message, or raises one of the exceptions that the
-- code can raise by itself: `Outcome`. Loops are recursion on the list or mapping that they read.
-- The only fuel is that of printing a number: it is the successor of the number, and each digit
-- takes one step and divides by the base. State that a loop changes is passed along. The
-- environment, the documents that were loaded, the previous document and the readings of the clock
-- are arguments.
--
-- Simplifications: the keys of a mapping are texts, and each stands once; the fields of a document
-- itself are read by name, and their order is left out; a float is `m / 10 ^ k`;
-- the characters of the two name patterns and of numbers are ASCII; `float` of a number that is too
-- large or too small for a float is not told apart from others of its sign. A missing state file and
-- one with an empty mapping are the same, as for the code. The text of a file is decoded already; an
-- XML file is the tree that ElementTree makes of it, or the message of its ParseError.
--
-- Not modelled: the text of YAML and of XML, the parsing of JSON and of command lines, what is
-- printed, the shell scripts, the Ansible roles and what the tests run over SSH.

pub mod Prelude
pub mod Number
pub mod Text
pub mod Value
pub mod Order
pub mod Render
pub mod RunState
pub mod CheckRun
pub mod FaultRun
pub mod Analysis
pub mod EnvFile
mod Tests
