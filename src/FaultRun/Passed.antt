-- ===== src/FaultRun/Passed.antt =====
-- What the test run makes of the faults that scripts/render-topology.py passed.
use Prim.Native.String.{String, ◌++◌}
use pulsaros_testbed.Prelude.{
  ℕ, suc, true, ◌≡◌, refl, sym, ap, ◌∙◌, subst, Option, none, some, ok, die, die_if, >>=-elim,
  ok-injective, enumerate, List, [], ◌∷◌, All, get, Option-cases, inl, inr, ◌>>=◌, ◌&&◌, ◌||◌, ◌==◌,
  not,
}
use pulsaros_testbed.Order.{in_texts}
use pulsaros_testbed.Value.{
  Value, null, bool, int, float, str, list, dict, nil, cons, Fields, elems, field?, get_field,
  get_or, or_default, truthy,
}
use pulsaros_testbed.Render.Hosts.{lookup}
use pulsaros_testbed.Render.Segments.{Member, Segment, Segments}
use pulsaros_testbed.Render.Segments.Progress.{Returns}
use pulsaros_testbed.Render.ControlPlane.{ControlPlane}
use pulsaros_testbed.Render.Checks.{
  is_evpn, valid_name, segment_of, named_segment, segment_members, validate_pairs,
  validate_segment_ping_matrix_check,
}
use pulsaros_testbed.Render.Unique.{validate_unique}
use pulsaros_testbed.Render.Faults.{
  impacts, fault_types, one_of, one_pair, expect_dict, validate_fault_body, validate_fault,
  validate_faults,
}
use pulsaros_testbed.Render.Faults.Names.{one_of-lem, expect_dict-lem}
use pulsaros_testbed.CheckRun.Pairs.{pairs-Returns}
use pulsaros_testbed.FaultRun.{
  first_pair, pairs_or_none, fault_pair, fault_members, expected_impact,
}

-- A fault that the test can start on: its segment, the members of its pair and its impact.
pub record IsRunnable (segments : Segments) (v : Value) : Type 0 where
  pub entry : Fields
  pub shape : v ≡ dict entry
  pub source : Member
  pub destination : Member
  pub found : fault_members segments entry ≡ ok (source, destination)
  pub impact : String
  pub impact_read : expected_impact entry ≡ str impact
  pub impact_known : in_texts impact impacts ≡ true

dies {ℓ} : {A : Type ℓ} {m : String} {a : A} → die m ≡ ok a → ⊥
dies h = cc

one_pair_lem :
    (message : String) (v pair : Value) → one_pair message v ≡ ok pair → v ≡ list (cons pair nil)
unfolding one_pair
one_pair_lem message (list (cons a nil)) pair h = ap (λ x. list (cons x nil)) (ok-injective h)
one_pair_lem message (list nil) pair h = absurd (cc)
one_pair_lem message (list (cons a (cons b vs))) pair h = absurd (cc)
one_pair_lem message null pair h = absurd (cc)
one_pair_lem message (bool b) pair h = absurd (cc)
one_pair_lem message (int z) pair h = absurd (cc)
one_pair_lem message (float z k) pair h = absurd (cc)
one_pair_lem message (str s) pair h = absurd (cc)
one_pair_lem message (dict fs) pair h = absurd (cc)

named-lookup :
    (segments : Segments) (v : Value) (label : String) (segment : Segment)
    → named_segment segments v label ≡ ok segment
    → lookup segments v ≡ ok segment
unfolding named_segment lookup
named-lookup segments (str s) label segment h = elim (Option-cases (get s segments)) [
  | inl none' ↦ absurd (dies (rw (named_segment, none') at h))
  | inr (a, found) ↦ rw (lookup, found) (rw (named_segment, found) at h)
]
named-lookup segments null label segment h = absurd (cc)
named-lookup segments (bool b) label segment h = absurd (cc)
named-lookup segments (int z) label segment h = absurd (cc)
named-lookup segments (float z k) label segment h = absurd (cc)
named-lookup segments (list vs) label segment h = absurd (cc)
named-lookup segments (dict fs) label segment h = absurd (cc)

members-named :
    (segments : Segments) (fault : Fields) (label : String) (segment : Segment) (o : Option Value)
    → field? "segment" fault ≡ o
    → named_segment segments (or_default o null) label ≡ ok segment
    → fault_members segments fault ≡ fault_pair segment fault
unfolding fault_members named_segment
members-named segments fault label segment none f h = absurd (cc)
members-named segments fault label segment (some v) f h =
    rw (fault_members, f, named-lookup segments v label segment h) refl

pair-Returns :
    (segment : Segment) (fault : Fields) (label : String) (pair : Value)
    → validate_pairs segment (get_field "pairs" fault) label ≡ ok tt
    → get_field "pairs" fault ≡ list (cons pair nil)
    → Returns (fault_pair segment fault)
unfolding validate_pairs fault_pair first_pair pairs_or_none truthy
pair-Returns segment fault label pair h k =
    let checked = ap (λ v. validate_pairs segment v label) (sym k) ∙ h in
    let good = pairs-Returns (segment_members segment) label 0 (pair ∷ []) checked in
    (good.0.0, rw (fault_pair, pairs_or_none, k) good.0.1)

module _ (segments : Segments) (plane : ControlPlane) where
  checked-Runs :
      (fault : Fields) (label : String) (pair : Value)
      → validate_segment_ping_matrix_check segments fault label ≡ ok tt
      → get_field "pairs" fault ≡ list (cons pair nil)
      → Returns (fault_members segments fault)
  unfolding validate_segment_ping_matrix_check segment_of get_field get_or
  checked-Runs fault label pair h one =
      >>=-elim (segment_of segments fault label) _ h λ segment q pairs.
        >>=-elim (die_if _ _) _ q λ _ _ named.
          let (members, found) = pair-Returns segment fault label pair pairs one in
          (
            members,
            members-named segments fault label segment (field? "segment" fault) refl named ∙ found,
          )

  body-Runs :
      (fault_type : String) (fault : Fields) (label : String)
      → validate_fault_body segments plane fault_type fault label ≡ ok tt
      → IsRunnable segments (dict fault)
  unfolding validate_fault_body validate_segment_ping_matrix_check segment_of get_field
      expected_impact
  body-Runs fault_type fault label h =
      >>=-elim (one_of impacts _ (get_or "expected_impact" (str "outage") fault) >>= λ _. ok tt) _ h
        λ _ q0 h1.
          >>=-elim (one_of impacts _ (get_or "expected_impact" (str "outage") fault)) _ q0
            λ impact q _.
              >>=-elim
                (die_if
                  ((fault_type == "bgp_peer_shutdown" || fault_type == "frr_restart")
                    && not (is_evpn plane))
                  (label ++ " requires control_plane type evpn"))
                _ h1
                λ _ _ h2.
                  >>=-elim (named_segment segments (get_field "segment" fault) label) _ h2 λ _ _ h3.
                    >>=-elim (validate_segment_ping_matrix_check segments fault label) _ h3
                      λ _ checked h4.
                        >>=-elim (one_pair _ (get_field "pairs" fault)) _ h4 λ pair one _.
                          let (read, known) =
                            one_of-lem impacts _ impact (expected_impact fault) q in
                          let (members, runs) =
                            checked-Runs fault label pair checked
                              (one_pair_lem _ (get_field "pairs" fault) pair one) in
                          record {
                            entry = fault;
                            shape = refl;
                            source = members.0;
                            destination = members.1;
                            found = runs;
                            impact = impact;
                            impact_read = read;
                            impact_known = known;
                          }

  fault-Runs :
      (i : ℕ) (acc out : List Value) (v : Value)
      → validate_fault segments plane i acc v ≡ ok out
      → IsRunnable segments v
  unfolding validate_fault
  fault-Runs i acc out v e0 = >>=-elim (expect_dict _ v) _ e0 λ fs q1 e1.
      >>=-elim (valid_name _ (get_field "name" fs)) _ e1 λ name q2 e2.
        >>=-elim (one_of fault_types _ (get_field "type" fs)) _ e2 λ fault_type q3 e3.
          >>=-elim (validate_fault_body segments plane fault_type fs _) _ e3 λ _ body _.
            subst (IsRunnable segments) (sym (expect_dict-lem _ v fs q1))
              (body-Runs fault_type fs _ body)

  faults-Run :
      (i : ℕ) (acc out vs : List Value)
      → enumerate (validate_fault segments plane) i acc vs ≡ ok out
      → All (IsRunnable segments) vs
  unfolding enumerate
  faults-Run i acc out [] h = tt
  faults-Run i acc out (v ∷ vs) h =
      >>=-elim (validate_fault segments plane i acc v) _ h
        λ next q rest. (fault-Runs i acc next v q, faults-Run (suc i) next out vs rest)

  -- For each fault that `validate_faults` of the renderer passes, the test run finds the segment
  -- and the two members of its pair, with no exception and no failed test, and the expected impact
  -- that the run reads is `outage` or `no_outage`.
  pub validate_faults-IsRunnable :
      (v : Value) (out : List Value)
      → validate_faults v segments plane ≡ ok out
      → All (IsRunnable segments) out
  unfolding validate_faults
  validate_faults-IsRunnable (list vs) out e0 =
      >>=-elim (enumerate (validate_fault segments plane) 0 [] (elems vs)) _ e0 λ found q e1.
        >>=-elim (validate_unique found "fault name") _ e1 λ _ _ done.
          subst (All (IsRunnable segments)) (ok-injective done) (faults-Run 0 [] found (elems vs) q)
  validate_faults-IsRunnable null out h = subst (All (IsRunnable segments)) (ok-injective h) tt
  validate_faults-IsRunnable (bool b) out h = absurd (cc)
  validate_faults-IsRunnable (int z) out h = absurd (cc)
  validate_faults-IsRunnable (float z k) out h = absurd (cc)
  validate_faults-IsRunnable (str s) out h = absurd (cc)
  validate_faults-IsRunnable (dict fs) out h = absurd (cc)
