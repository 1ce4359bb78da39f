-- ===== src/Analysis/Junit.antt =====
-- `parse_junit_file` of scripts/analyze-artifacts-gemini.py, and `ElementTree` as far as it uses it.
use Prim.Native.String.{String}
use pulsaros_testbed.Prelude.{
  Option, none, some, List, [], ◌∷◌, ◌++◌, Dict, get, Outcome, ok, raise, value_error, ◌>>=◌,
  if◌then◌else◌, ◌==◌, loop, select,
}
use pulsaros_testbed.Number.{ℤ, pos, ◌+ℤ◌}
use pulsaros_testbed.Text.{parse_int}
use pulsaros_testbed.Text.{last}
use pulsaros_testbed.Analysis.Redact.{redact}

mutual
  -- An element: its tag, its attributes, the text in front of its first child, and its children.
  pub data Element : Type 0 where
    element : String → Dict String → Option String → Elements → Element

  pub data Elements : Type 0 where
    leaf : Elements
    child : Element → Elements → Elements

-- What `ET.parse` makes of a file: a tree, or a ParseError with its message.
pub data Xml : Type 0 where
  parsed : Element → Xml
  malformed : String → Xml

unfoldable pub tag : Element → String
tag (element t attrib text children) = t

unfoldable pub attrib : Element → Dict String
attrib (element t attributes text children) = attributes

unfoldable pub text_of : Element → Option String
text_of (element t attributes text children) = text

abbrev pub children_of : Elements → List Element
children_of leaf = []
children_of (child e es) = e ∷ children_of es

unfoldable pub children : Element → List Element
children (element t attributes text cs) = children_of cs

-- e.find(name)
unfoldable pub find : String → List Element → Option Element
unfolding tag
find name [] = none
find name (e ∷ es) = if tag e == name then some e else find name es

-- root.iter(): the element and those below it, in the order of the document
unfoldable mutual
  pub iter : Element → List Element
  iter (element t attributes text cs) = element t attributes text cs ∷ iter_all cs

  pub iter_all : Elements → List Element
  iter_all leaf = []
  iter_all (child e es) = iter e ++ iter_all es

pub record Case : Type 0 where
  pub classname : String
  pub name : String
  pub message : String
  pub text : String

pub record Counts : Type 0 where
  pub tests : ℤ
  pub failures : ℤ
  pub errors : ℤ
  pub skipped : ℤ

pub record JunitResult : Type 0 where
  pub path : String
  pub counts : Counts
  pub failed_cases : List Case
  pub parse_error : Option String

abbrev pub no_counts : Counts
no_counts = record { tests = pos 0; failures = pos 0; errors = pos 0; skipped = pos 0 }

abbrev pub add_counts : Counts → Counts → Counts
add_counts a b = record {
  tests = a.tests +ℤ b.tests;
  failures = a.failures +ℤ b.failures;
  errors = a.errors +ℤ b.errors;
  skipped = a.skipped +ℤ b.skipped;
}

-- int(suite.attrib.get(key, 0))
unfoldable pub attrib_int : String → Element → Outcome ℤ
unfolding attrib get parse_int
attrib_int key suite = elim (get key (attrib suite)) [
  | none ↦ ok (pos 0)
  | some s ↦ elim (parse_int s) [ none ↦ raise value_error | some z ↦ ok z ]
]

unfoldable pub suite_counts : Element → Outcome Counts
unfolding attrib_int
suite_counts suite = do
  tests ← attrib_int "tests" suite
  failures ← attrib_int "failures" suite
  errors ← attrib_int "errors" suite
  skipped ← attrib_int "skipped" suite
  ok (record { tests = tests; failures = failures; errors = errors; skipped = skipped })

unfoldable pub add_suite : Counts → Element → Outcome Counts
add_suite result suite = suite_counts suite >>= λ counts. ok (add_counts result counts)

unfoldable pub suites : Element → List Element
unfolding tag children select
suites root =
    if tag root == "testsuite"
    then root ∷ []
    else select (λ e. tag e == "testsuite") (children root)

-- failure if failure is not None else error
unfoldable pub failure_of : Element → Option Element
unfolding find children
failure_of case' = elim (find "failure" (children case')) [
  | some node ↦ some node
  | none ↦ find "error" (children case')
]

-- e.attrib.get(key, "")
unfoldable pub attrib_text : String → Element → String
unfolding get attrib
attrib_text key e = elim (get key (attrib e)) [ none ↦ "" | some s ↦ s ]

-- node.text or ""
unfoldable pub node_text : Element → String
unfolding text_of
node_text node = elim (text_of node) [ none ↦ "" | some s ↦ s ]

unfoldable pub failed_case : Element → Element → Case
unfolding attrib_text node_text redact last
failed_case case' node = record {
  classname = attrib_text "classname" case';
  name = attrib_text "name" case';
  message = attrib_text "message" node;
  text = redact (last 2000 (node_text node));
}

-- The loop over the test cases.
unfoldable pub failed_from : List Element → List Case
unfolding failure_of failed_case
failed_from [] = []
failed_from (case' ∷ cases) = elim (failure_of case') [
  | none ↦ failed_from cases
  | some node ↦ failed_case case' node ∷ failed_from cases
]

unfoldable pub test_cases : Element → List Element
unfolding iter tag select
test_cases root = select (λ e. tag e == "testcase") (iter root)

unfoldable pub parse_junit_file : String → Xml → Outcome JunitResult
unfolding suites add_suite test_cases failed_from
parse_junit_file path (malformed message) =
    ok record { path = path; counts = no_counts; failed_cases = []; parse_error = some message }
parse_junit_file path (parsed root) = loop add_suite no_counts (suites root) >>= λ counts.
    ok record {
      path = path;
      counts = counts;
      failed_cases = failed_from (test_cases root);
      parse_error = none;
    }
