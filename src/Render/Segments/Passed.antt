-- ===== src/Render/Segments/Passed.antt =====
-- What `validate_segments` has found out about the segments that it passed.
use Prim.Native.String.{String, ◌++◌}
use pulsaros_testbed.Prelude.{
  ℕ, suc, ◌≤◌, List, [], ◌∷◌, true, not, ◌≡◌, refl, arith, ok, die_if, All, length, map, >>=-elim,
  enumerate, sym, subst, snoc, ok-injective,
}
use pulsaros_testbed.Number.{ℤ}
use pulsaros_testbed.Text.{is_name}
use pulsaros_testbed.Value.{
  Value, null, bool, int, float, str, list, nil, dict, Items, cons, Fields, end, field, elems,
  get_field, get_or, has_field, to_int,
}
use pulsaros_testbed.Render.Unique.{validate_unique}
use pulsaros_testbed.Render.Unique.Exact.{Distinct, validate_unique-Distinct}
use pulsaros_testbed.Render.Hosts.{Hosts}
use pulsaros_testbed.Render.Segments.Limits.{optional_vlan, validate_vni}
use pulsaros_testbed.Render.Segments.Validate.{
  expect_dict, vtep_list, optional_list, validate_vtep, validate_member, VtepState, SegmentState,
  validate_segment, segments_from, validate_segments, no_segments,
}
use pulsaros_testbed.Render.Segments.VtepHosts.{host_of, vtep_hosts-lem}
use pulsaros_testbed.Render.Segments.Good.{
  IsVni, GoodVlan, GoodVtep, GoodMember, vlan_test, expect_dict-ok, validate_vni-IsVni,
  validate_vtep-GoodVtep, validate_member-GoodMember,
}

pub record GoodSegment (hosts : Hosts) (name : String) (v : Value) : Type 0 where
  pub fs : Fields
  pub shape : v ≡ dict fs
  pub name_valid : is_name name ≡ true
  pub vni : ℤ
  pub vni_set : has_field "vni" fs ≡ true
  pub vni_read : to_int (get_field "vni" fs) ≡ ok vni
  pub vni_limits : IsVni vni
  pub vlan : GoodVlan (get_field "vlan" fs)
  pub vteps : Items
  pub vteps_read : get_field "vteps" fs ≡ list vteps
  pub vteps_many : 2 ≤ length (elems vteps)
  pub vteps_good : All (GoodVtep hosts) (elems vteps)
  pub hosts_differ : Distinct (map host_of (elems vteps))
  pub message : String
  pub members : List Value
  pub members_read : optional_list message (get_or "members" (list nil) fs) ≡ ok members
  pub members_good : All (GoodMember hosts) members

vteps-good :
    (hosts : Hosts) (label : String) (index : ℕ) (s t : VtepState) (vs : List Value)
    → enumerate (validate_vtep hosts label) index s vs ≡ ok t
    → All (GoodVtep hosts) vs
unfolding enumerate
vteps-good hosts label index s t [] h = tt
vteps-good hosts label index s t (v ∷ vs) h =
    >>=-elim (validate_vtep hosts label index s v) _ h λ s' q rest. (
      (validate_vtep-GoodVtep hosts label index s s' v q).0,
      vteps-good hosts label (suc index) s' t vs rest,
    )

members-good :
    (hosts : Hosts) (label : String) (vlan : Value) (index : ℕ) (vs : List Value)
    → enumerate (validate_member hosts label vlan) index tt vs ≡ ok tt
    → All (GoodMember hosts) vs
unfolding enumerate
members-good hosts label vlan index [] h = tt
members-good hosts label vlan index (v ∷ vs) h =
    >>=-elim (validate_member hosts label vlan index tt v) _ h λ _ q rest. (
      validate_member-GoodMember hosts label vlan index v q,
      members-good hosts label vlan (suc index) vs rest,
    )

vtep_list-ok :
    (message : String) (v : Value) (vs : List Value)
    → vtep_list message v ≡ ok vs
    → (ws : Items) × (v ≡ list ws) × (elems ws ≡ vs) × (2 ≤ length vs)
vtep_list-ok message (list nil) vs h = ground arith
vtep_list-ok message (list (cons v nil)) vs h = ground arith
vtep_list-ok message (list (cons v (cons w ws))) vs h =
    let same : v ∷ w ∷ elems ws ≡ vs = ground arith in
    (cons v (cons w ws), refl, same, subst (λ l. 2 ≤ length l) same (omega arith))
vtep_list-ok message null vs h = ground arith
vtep_list-ok message (bool b) vs h = ground arith
vtep_list-ok message (int z) vs h = ground arith
vtep_list-ok message (float z k) vs h = ground arith
vtep_list-ok message (str s) vs h = ground arith
vtep_list-ok message (dict fs) vs h = ground arith

pub validate_segment-GoodSegment :
    (hosts : Hosts) (s t : SegmentState) (name : String) (v : Value)
    → validate_segment hosts s name v ≡ ok t
    → (g : GoodSegment hosts name v) × (t.vnis ≡ snoc s.vnis (int g.vni))
unfolding validate_segment
validate_segment-GoodSegment hosts s t name v e0 =
    let label = "segment " ++ name in
    >>=-elim (die_if (not (is_name name)) ("invalid segment name: " ++ name)) _ e0 λ _ named e1.
      >>=-elim (expect_dict (label ++ " must be a mapping") v) _ e1 λ fs shape e2.
        >>=-elim (die_if (not (has_field "vni" fs)) (label ++ " must define vni")) _ e2
          λ _ vni_set e3.
            >>=-elim (validate_vni (get_field "vni" fs) (label ++ " vni")) _ e3 λ vni vni_valid e4.
              >>=-elim (optional_vlan (get_field "vlan" fs) (label ++ " vlan")) _ e4
                λ _ vlan_valid e5.
                  >>=-elim
                    (vtep_list (label ++ " must define at least two vteps") (get_field "vteps" fs))
                    _ e5
                    λ vs vteps_valid e6.
                      >>=-elim
                        (enumerate (validate_vtep hosts label) 0
                          (record { underlay_ips = s.underlay_ips; vtep_hosts = [] }) vs)
                        _ e6
                        λ after loop_ended e7.
                          >>=-elim (validate_unique after.vtep_hosts (label ++ " vtep host")) _ e7
                            λ _ unique e8.
                              >>=-elim
                                (optional_list (label ++ " members must be a list")
                                  (get_or "members" (list nil) fs))
                                _ e8
                                λ members read e9.
                                  let (ws, shown, same, many) =
                                    vtep_list-ok _ (get_field "vteps" fs) vs vteps_valid in
                                  (
                                    record {
                                      fs = fs;
                                      shape = expect_dict-ok _ v fs shape;
                                      name_valid = ground arith;
                                      vni = vni;
                                      vni_set = ground arith;
                                      vni_read =
                                          (validate_vni-IsVni (get_field "vni" fs) _ vni
                                            vni_valid).0;
                                      vni_limits =
                                          (validate_vni-IsVni (get_field "vni" fs) _ vni
                                            vni_valid).1;
                                      vlan =
                                          vlan_test (get_field "vlan" fs) (label ++ " vlan")
                                            vlan_valid;
                                      vteps = ws;
                                      vteps_read = shown;
                                      vteps_many = subst (λ l. 2 ≤ length l) (sym same) many;
                                      vteps_good =
                                          subst (All (GoodVtep hosts)) (sym same)
                                            (vteps-good hosts label 0 _ after vs loop_ended);
                                      hosts_differ =
                                          subst (λ l. Distinct (map host_of l)) (sym same)
                                            (subst Distinct
                                              (vtep_hosts-lem hosts label 0 _ after vs loop_ended)
                                              (validate_unique-Distinct after.vtep_hosts _ unique));
                                      message = label ++ " members must be a list";
                                      members = members;
                                      members_read = read;
                                      members_good =
                                          members-good hosts label (get_field "vlan" fs) 0 members
                                            (ground arith);
                                    },
                                    ground arith,
                                  )

-- Each segment of a mapping is good.
abbrev pub GoodSegments : Hosts → Fields → Type 0
GoodSegments hosts end = Unit
GoodSegments hosts (field name v fs) = GoodSegment hosts name v × GoodSegments hosts fs

segments_from-good :
    (hosts : Hosts) (s t : SegmentState) (fs : Fields)
    → segments_from hosts s fs ≡ ok t
    → GoodSegments hosts fs
unfolding segments_from
segments_from-good hosts s t end h = tt
segments_from-good hosts s t (field name v fs) h =
    >>=-elim (validate_segment hosts s name v) _ h λ s' q rest.
      ((validate_segment-GoodSegment hosts s s' name v q).0, segments_from-good hosts s' t fs rest)

-- A mapping that the validator returns holds good segments only.
pub validate_segments-GoodSegments :
    (hosts : Hosts) (v : Value) (fs : Fields)
    → validate_segments hosts v ≡ ok fs
    → GoodSegments hosts fs
unfolding validate_segments
validate_segments-GoodSegments hosts null fs h = subst (GoodSegments hosts) (ok-injective h) tt
validate_segments-GoodSegments hosts (dict end) fs h =
    subst (GoodSegments hosts) (ok-injective h) tt
validate_segments-GoodSegments hosts (dict (field name v gs)) fs h =
    >>=-elim (segments_from hosts no_segments (field name v gs)) _ h λ s q rest.
      subst (GoodSegments hosts) {x = field name v gs} (ground arith)
        (segments_from-good hosts no_segments s (field name v gs) q)
validate_segments-GoodSegments hosts (bool b) fs h = ground arith
validate_segments-GoodSegments hosts (int z) fs h = ground arith
validate_segments-GoodSegments hosts (float z k) fs h = ground arith
validate_segments-GoodSegments hosts (str s) fs h = ground arith
validate_segments-GoodSegments hosts (list vs) fs h = ground arith
