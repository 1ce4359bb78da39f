-- ===== src/Analysis/Gemini.antt =====
-- `gemini_prompt` and `call_gemini` of scripts/analyze-artifacts-gemini.py. The service is a
-- parameter: what comes back for a request.
use Prim.Native.String.{String, ◌++◌, [], ◌∷◌}
use pulsaros_testbed.Prelude.{
  none, some, Outcome, ok, raise, type_error, key_error, index_error, value_error, ◌>>=◌,
  if◌then◌else◌, ◌==◌, get,
}
use mathlib.Core.List.{List}
use pulsaros_testbed.Number.{ℤ, pos}
use pulsaros_testbed.Order.{join}
use pulsaros_testbed.Text.{show_ℤ, parse_int}
use pulsaros_testbed.Value.{
  Value, int, float, str, list, dict, nil, cons, end, field, truthy, is_str, get_or, as_dict,
  iterate, dumps, dumps_indented,
}
use pulsaros_testbed.Text.{take, strip}
use pulsaros_testbed.Analysis.Inputs.{Environ, env_or, Collected, inputs_value}

abbrev pub instructions : String
instructions =
    "You are analyzing artifacts from a disposable Proxmox CI testbed for "
    ++ ("Linux VXLAN and kernel smoke tests. Identify the likely root cause, "
        ++ ("the strongest evidence, missing evidence, and concrete next debugging "
            ++ ("steps. Be concise and do not invent facts not present in the artifact "
                ++ ("summary.\n\n"
                    ++ ("Use the `topology` object derived from artifacts/topology.json as the "
                        ++ ("authoritative expected topology when it is present. Do not compare the "
                            ++ ("run to any fixed two-node or two-VTEP reference layout unless that is "
                                ++ ("the topology named in the artifact summary. Treat segment member IPs, "
                                    ++ ("VLANs, VTEPs, local NICs, and checks from that topology object as "
                                        ++ ("intentional configuration. If topology data is absent, avoid "
                                            ++ ("topology-specific misconfiguration claims and ask for the missing "
                                                ++ ("topology artifact instead. Performance metrics are report-only in "
                                                    ++ ("this repository: treat their warnings as advisory caveats unless JUnit "
                                                        ++ ("also failed. Fault-injection tests intentionally create temporary "
                                                            ++ ("outages; distinguish an expected injected outage from a failed "
                                                            ++ ("restoration or recovery assertion. If JUnit reports zero failures and pcap "
                                                            ++ ("files are present and non-empty, state that the run appears successful "
                                                            ++ ("and only list low-confidence observations under a separate caveats "
                                                            ++ ("section. Keep the response under 800 words and end with a complete "
                                                            ++ ("sentence.\n\n"))))))))))))))))))))

unfoldable pub gemini_prompt : Collected → String
unfolding inputs_value dumps_indented take
gemini_prompt data' =
    instructions ++ ("Artifact summary JSON:\n" ++ take 50000 (dumps_indented (inputs_value data')))

pub record Request : Type 0 where
  pub url : String
  pub body : String
  pub api_key : String

-- What a request ends with: a JSON payload, an HTTP error with its code and its text, or another
-- exception with the name of its type and its message.
pub data Reply : Type 0 where
  payload : Value → Reply
  http_error : ℤ → String → Reply
  failure : String → String → Reply

-- int(os.environ.get("GEMINI_MAX_OUTPUT_TOKENS", DEFAULT_MAX_OUTPUT_TOKENS))
unfoldable pub max_output_tokens : Environ → Outcome ℤ
unfolding get parse_int
max_output_tokens env = elim (get "GEMINI_MAX_OUTPUT_TOKENS" env) [
  | none ↦ ok (pos 4096)
  | some s ↦ elim (parse_int s) [ none ↦ raise value_error | some z ↦ ok z ]
]

unfoldable pub request_body : String → ℤ → Value
request_body prompt max_tokens = dict (
    field "contents"
      (list (
        cons
          (dict (
            field "role" (str "user")
              (field "parts" (list (cons (dict (field "text" (str prompt) end)) nil)) end)))
          nil))
      (field "generationConfig"
        (dict
          (field "temperature" (float (pos 2) 1) (field "maxOutputTokens" (int max_tokens) end)))
        end))

unfoldable pub request : Environ → String → ℤ → Collected → Request
unfolding env_or request_body dumps gemini_prompt
request env api_key max_tokens data' = record {
  url =
      "https://generativelanguage.googleapis.com/v1beta/models/"
      ++ (env_or env "GEMINI_MODEL" "gemini-2.5-flash" ++ ":generateContent");
  body = dumps (request_body (gemini_prompt data') max_tokens);
  api_key = api_key;
}

-- v[0]
unfoldable pub first : Value → Outcome Value
first (list nil) = raise index_error
first (list (cons v vs)) = ok v
first (str []) = raise index_error
first (str (c ∷ s)) = ok (str (c ∷ []))
first (dict fs) = raise key_error
first v = raise type_error

-- part.get("text", "") for part in parts if part.get("text"); what is no text cannot be joined
unfoldable pub part_texts : List Value → Outcome (List Value)
unfolding as_dict get_or truthy
part_texts List.[] = ok List.[]
part_texts (List.◌∷◌ part parts) = as_dict part >>= λ fs. part_texts parts >>= λ rest.
    ok (
      if truthy (get_or "text" (str "") fs)
      then List.◌∷◌ (get_or "text" (str "") fs) rest
      else rest)

unfoldable pub all_texts : List Value → Outcome (List String)
all_texts List.[] = ok List.[]
all_texts (List.◌∷◌ (str s) vs) = all_texts vs >>= λ rest. ok (List.◌∷◌ s rest)
all_texts (List.◌∷◌ v vs) = raise type_error

unfoldable pub warning : Value → ℤ → String
unfolding is_str show_ℤ
warning finish_reason max_tokens =
    if is_str "MAX_TOKENS" finish_reason
    then ("\n\n> Warning: Gemini stopped because it reached "
        ++ ("`GEMINI_MAX_OUTPUT_TOKENS="
            ++ (show_ℤ max_tokens
                ++ ("`. Increase that "
                    ++ "workflow variable if the analysis is still truncated."))))
    else ""

-- The report of a text, and of the reason why it ended.
unfoldable pub answer : String → Value → ℤ → String
unfolding strip warning
answer joined finish_reason max_tokens =
    if strip joined == ""
    then "Gemini analysis returned no text.\n"
    else strip (joined ++ warning finish_reason max_tokens) ++ "\n"

-- The part of `call_gemini` behind the request.
unfoldable pub read_payload : ℤ → Value → Outcome String
unfolding as_dict get_or first iterate part_texts all_texts join answer
read_payload max_tokens v = do
  reply ← as_dict v
  chosen ← first (get_or "candidates" (list (cons (dict end) nil)) reply)
  candidate ← as_dict chosen
  content ← as_dict (get_or "content" (dict end) candidate)
  parts ← iterate (get_or "parts" (list nil) content)
  wanted ← part_texts parts
  texts ← all_texts wanted
  ok (answer (join "\n" texts) (get_or "finishReason" (str "") candidate) max_tokens)

unfoldable pub read_reply : ℤ → Reply → Outcome String
unfolding read_payload show_ℤ take
read_reply max_tokens (payload v) = read_payload max_tokens v
read_reply max_tokens (http_error code detail) = ok (
    "Gemini analysis failed: HTTP "
    ++ (show_ℤ code ++ ("\n\n```json\n" ++ (take 4000 detail ++ "\n```\n"))))
read_reply max_tokens (failure name message) =
    ok ("Gemini analysis failed: " ++ (name ++ (": " ++ (message ++ "\n"))))

unfoldable pub call_gemini : (Request → Reply) → Environ → Collected → Outcome String
unfolding env_or max_output_tokens request read_reply
call_gemini post env data' =
    let api_key = env_or env "GEMINI_API_KEY" "" in
    if api_key == ""
    then ok "Gemini analysis skipped: `GEMINI_API_KEY` is not set.\n"
    else (max_output_tokens env >>= λ max_tokens.
        read_reply max_tokens (post (request env api_key max_tokens data')))
