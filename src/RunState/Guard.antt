-- ===== src/RunState/Guard.antt =====
-- The state that a command goes on from, and what it keeps of it.
use Prim.Native.String.{String}
use pulsaros_testbed.Prelude.{
  ◌≡◌, ◌≢◌, refl, sym, ◌∙◌, ap, arith, true, not, eq_iff, Option, none, some, ok, >>=-elim,
  ok-injective, die_if, die_if-ok, List, [], ◌∷◌, snoc, All, Bool-cases, inl, inr,
}
use pulsaros_testbed.Value.{
  Value, null, bool, int, float, str, list, dict, Items, nil, cons, elems, Fields, field?, get_or,
  or_default, get_field, put_field, py_str, truthy,
}
use pulsaros_testbed.Value.FieldLaws.{field?-put_field}
use pulsaros_testbed.RunState.{
  World, Clock, save_state, other_run, ensure_state, first_state, fresh_state, appended,
  append_item, phase_entry, add_phase, cmd_phase, topology_resources,
}

-- str(state.get("run_id", ""))
abbrev pub run_of : Fields → String
run_of state = py_str (get_or "run_id" (str "") state)

-- The entries under "phases".
abbrev pub listed : Option Value → List Value
listed (some (list vs)) = elems vs
listed _ = []

unfoldable pub phases_of : Fields → List Value
phases_of state = listed (field? "phases" state)

run_of-first_state :
    (clock : Clock) (topology resources : Fields)
    → run_of (first_state clock topology resources) ≡ py_str (get_field "run_id" topology)
unfolding first_state get_or get_field
run_of-first_state clock topology resources = refl

module _ (clock : Clock) (w : World) (run_id : String) (s : Fields) where
  pub ensure_state-recorded :
      truthy (dict w.state) ≡ true → ensure_state clock w run_id ≡ ok s → s ≡ w.state
  unfolding ensure_state
  ensure_state-recorded h e = ground arith

  fresh_state-run : run_id ≢ "" → fresh_state clock w.topology run_id ≡ ok s → run_of s ≡ run_id
  unfolding fresh_state
  fresh_state-run given e0 =
      >>=-elim (die_if (not (truthy (dict w.topology))) "artifacts/topology.json not found") _ e0
        λ _ _ e1. >>=-elim (topology_resources w.topology) _ e1 λ resources _ e2.
          >>=-elim (die_if (other_run run_id (get_field "run_id" w.topology)) _) _ e2 λ _ tested e3.
            let passed = die_if-ok (other_run run_id (get_field "run_id" w.topology)) _ tested in
            ap run_of (sym (ok-injective e3))
            ∙ run_of-first_state clock w.topology resources
            ∙ unfold other_run in
              ground
                (arith, eq_iff run_id "", eq_iff (py_str (get_field "run_id" w.topology)) run_id)

  -- When `ensure_state` returns a state to a command that names a run id, the run id of the state
  -- prints as that one, whether the state was read or is new.
  pub ensure_state-run : run_id ≢ "" → ensure_state clock w run_id ≡ ok s → run_of s ≡ run_id
  unfolding ensure_state
  ensure_state-run given e = elim (Bool-cases (truthy (dict w.state))) [
    | inl recorded ↦
        unfold other_run in
        ground (arith, eq_iff run_id "", eq_iff (py_str (get_or "run_id" (str "") w.state)) run_id)
    | inr fresh ↦ fresh_state-run given (ground arith)
  ]

pub saved-kept :
    (clock : Clock) (w w' : World) (done : Fields)
    → save_state clock w done ≡ w'
    → (k : String) → "updated_at" ≢ k
    → field? k w'.state ≡ field? k done
unfolding save_state
saved-kept clock w w' done e k apart =
    ap (λ (x : World). field? k x.state) (sym e)
    ∙ ground (arith, field?-put_field "updated_at" k (str clock.saved) done, eq_iff "updated_at" k)

-- The fields that a command keeps: all but those that it changes.
abbrev pub Keeps : List String → Fields → Fields → Type 0
Keeps changed s t = (k : String) → All (λ c. c ≢ k) changed → field? k t ≡ field? k s

elems-append_item : (vs : Items) (x : Value) → elems (append_item vs x) ≡ snoc (elems vs) x
unfolding append_item
elems-append_item nil x = refl
elems-append_item (cons v vs) x = ap (λ l. v ∷ l) (elems-append_item vs x)

appended-listed :
    (o : Option Value) (x p : Value)
    → appended (or_default o (list nil)) x ≡ ok p
    → listed (some p) ≡ snoc (listed o) x
unfolding appended
appended-listed none x p h = ground (arith, elems-append_item nil x)
appended-listed (some (list vs)) x p h = ground (arith, elems-append_item vs x)
appended-listed (some null) x p h = ground arith
appended-listed (some (bool b)) x p h = ground arith
appended-listed (some (int z)) x p h = ground arith
appended-listed (some (float z k)) x p h = ground arith
appended-listed (some (str s)) x p h = ground arith
appended-listed (some (dict fs)) x p h = ground arith

pub add_phase-lem :
    (name status time message : String) (s r : Fields)
    → add_phase name status time message s ≡ ok r
    → (phases_of r ≡ snoc (phases_of s) (dict (phase_entry name status time message)))
      × ((k : String) → "phases" ≢ k → field? k r ≡ field? k s)
unfolding add_phase
add_phase-lem name status time message s r h =
    >>=-elim (appended (get_or "phases" (list nil) s) (dict (phase_entry name status time message)))
      _ h
      λ p q done.
        let listed_now =
          appended-listed (field? "phases" s) (dict (phase_entry name status time message)) p
            (unfold get_or in q) in
        (
          unfold phases_of in ground (arith, field?-put_field "phases" "phases" p s),
          λ k apart. ground (arith, field?-put_field "phases" k p s, eq_iff "phases" k),
        )

module _ (clock : Clock) (name status message run_id : String) (w w' : World) where
  -- When `cmd_phase` succeeds it went on from the state that `ensure_state` returned; the phases
  -- are the old ones with the entry of the command behind them; "phase" is its name; every field
  -- beside "phase", "phases" and "updated_at" is kept.
  pub cmd_phase-lem :
      cmd_phase clock name status message run_id w ≡ ok w'
      → (s : Fields) × (ensure_state clock w run_id ≡ ok s)
        × (phases_of w'.state
            ≡ snoc (phases_of s) (dict (phase_entry name status clock.appended_at message)))
        × (field? "phase" w'.state ≡ some (str name))
        × Keeps ("phase" ∷ "phases" ∷ "updated_at" ∷ []) s w'.state
  unfolding cmd_phase
  cmd_phase-lem h = >>=-elim (ensure_state clock w run_id) _ h λ s q rest.
      let named = put_field "phase" (str name) s in
      >>=-elim (add_phase name status clock.appended_at message named) _ rest λ done q' saved.
        let (grown, kept) = add_phase-lem name status clock.appended_at message named done q' in
        let keeps = saved-kept clock w w' done (ok-injective saved) in
        let entry : Value = dict (phase_entry name status clock.appended_at message) in
        let set = λ (k : String). field?-put_field "phase" k (str name) s in
        (
          s,
          q,
          unfold phases_of in
              (ap listed (keeps "phases" (λ e. cc))
                ∙ grown
                ∙ ap (λ o. snoc (listed o) entry) (set "phases")),
          keeps "phase" (λ e. cc) ∙ kept "phase" (λ e. cc) ∙ set "phase",
          λ k apart.
              keeps k apart.1.1.0 ∙ kept k apart.1.0 ∙ ground (arith, set k, eq_iff "phase" k),
        )
