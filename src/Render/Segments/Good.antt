-- ===== src/Render/Segments/Good.antt =====
-- What `validate_segments` has found out about a segment that it passed.
use Prim.Native.String.{String, ◌++◌}
use pulsaros_testbed.Prelude.{
  ℕ, ◌≤◌, List, [], ◌∷◌, true, false, ◌||◌, ◌⊎◌, inl, inr, ◌≡◌, arith, ok, die_if, All, >>=-elim,
  loop, Bool-cases, subst, returns, snoc,
}
use pulsaros_testbed.Number.{ℤ, pos, negsuc, ltℤ}
use pulsaros_testbed.Text.{show_ℕ}
use pulsaros_testbed.Value.{
  Value, null, bool, int, float, str, list, value_eq, nil, dict, Fields, truthy, is_blank,
  get_field, get_or, to_int,
}
use pulsaros_testbed.Render.Hosts.{Hosts, has_nic, validate_host_nic_ref}
use pulsaros_testbed.Render.Hosts.Refs.{
  KnownNic, validate_host_nic_ref-KnownNic, validate_host_nic_ref-has_nic,
}
use pulsaros_testbed.Render.Segments.Limits.{validate_vlan, validate_vni, optional_vlan}
use pulsaros_testbed.Render.Segments.Validate.{
  expect_dict, optional_list, validate_local_nic, validate_vtep, validate_member, VtepState,
}

-- The number of a VLAN.
abbrev pub IsVlan : ℤ → Type 0
IsVlan (pos n) = (1 ≤ n) × (n ≤ 4094)
IsVlan (negsuc n) = ⊥

abbrev pub IsVni : ℤ → Type 0
IsVni (pos n) = (1 ≤ n) × (n ≤ 16777215)
IsVni (negsuc n) = ⊥

-- A field for a VLAN: blank, or read by `int` as the number of a VLAN.
abbrev pub GoodVlan : Value → Type 0
GoodVlan v = (is_blank v ≡ true) ⊎ ((z : ℤ) × (to_int v ≡ ok z) × IsVlan z)

IsVlan-limits : (z : ℤ) → (ltℤ z (pos 1) || ltℤ (pos 4094) z) ≡ false → IsVlan z
IsVlan-limits (pos n) h = ground arith
IsVlan-limits (negsuc n) h = ground arith

IsVni-limits : (z : ℤ) → (ltℤ z (pos 1) || ltℤ (pos 16777215) z) ≡ false → IsVni z
IsVni-limits (pos n) h = ground arith
IsVni-limits (negsuc n) h = ground arith

pub validate_vlan-IsVlan :
    (v : Value) (label : String) (z : ℤ)
    → validate_vlan v label ≡ ok z
    → (to_int v ≡ ok z) × IsVlan z
unfolding validate_vlan
validate_vlan-IsVlan v label z h = (ground arith, IsVlan-limits z (ground arith))

pub validate_vni-IsVni :
    (v : Value) (label : String) (z : ℤ) → validate_vni v label ≡ ok z → (to_int v ≡ ok z) × IsVni z
unfolding validate_vni
validate_vni-IsVni v label z h = (ground arith, IsVni-limits z (ground arith))

pub record GoodVtep (hosts : Hosts) (v : Value) : Type 0 where
  pub fs : Fields
  pub shape : v ≡ dict fs
  pub known : KnownNic hosts (get_field "host" fs) (get_field "underlay_nic" fs)
  pub host_set : truthy (get_field "host" fs) ≡ true
  pub nic_set : truthy (get_field "underlay_nic" fs) ≡ true
  pub ip_set : truthy (get_field "underlay_ip" fs) ≡ true
  pub message : String
  pub names : List Value
  pub names_read : optional_list message (get_or "local_nics" (list nil) fs) ≡ ok names
  pub names_known : All (λ nic. has_nic nic known.host.nics ≡ true) names

pub record GoodMember (hosts : Hosts) (v : Value) : Type 0 where
  pub fs : Fields
  pub shape : v ≡ dict fs
  pub known : KnownNic hosts (get_field "host" fs) (get_field "nic" fs)
  pub host_set : truthy (get_field "host" fs) ≡ true
  pub nic_set : truthy (get_field "nic" fs) ≡ true
  pub ip_set : truthy (get_field "ip" fs) ≡ true
  pub vlan : GoodVlan (get_field "vlan" fs)

locals-known :
    (hosts : Hosts) (label : String) (v underlay_nic : Value) (k : KnownNic hosts v underlay_nic)
    (names : List Value) {u : Unit {0}}
    → loop (validate_local_nic hosts label v underlay_nic) tt names ≡ ok u
    → All (λ nic. has_nic nic k.host.nics ≡ true) names
unfolding loop validate_local_nic
locals-known hosts label v underlay_nic k [] h = tt
locals-known hosts label v underlay_nic k (n ∷ ns) h =
    >>=-elim (validate_local_nic hosts label v underlay_nic tt n) _ h λ _ e rest. (
      >>=-elim
          (die_if (value_eq n underlay_nic) (label ++ " local_nics cannot include underlay_nic")) _
          e
          λ _ _ ref.
            validate_host_nic_ref-has_nic hosts n (label ++ " local_nics") k.key k.host k.found (
              subst (λ w. validate_host_nic_ref hosts w n (label ++ " local_nics") ≡ ok _) k.named
                ref),
      locals-known hosts label v underlay_nic k ns rest,
    )

pub expect_dict-ok :
    (message : String) (v : Value) (fs : Fields) → expect_dict message v ≡ ok fs → v ≡ dict fs
expect_dict-ok message (dict gs) fs h = ground arith
expect_dict-ok message null fs h = ground arith
expect_dict-ok message (bool b) fs h = ground arith
expect_dict-ok message (int z) fs h = ground arith
expect_dict-ok message (float z k) fs h = ground arith
expect_dict-ok message (str s) fs h = ground arith
expect_dict-ok message (list vs) fs h = ground arith

-- A VTEP that the test passes is good, and is the next of the loop's hosts.
pub validate_vtep-GoodVtep :
    (hosts : Hosts) (label : String) (index : ℕ) (s t : VtepState) (v : Value)
    → validate_vtep hosts label index s v ≡ ok t
    → (g : GoodVtep hosts v) × (t.vtep_hosts ≡ snoc s.vtep_hosts (get_field "host" g.fs))
unfolding validate_vtep
validate_vtep-GoodVtep hosts label index s t v e0 =
    let vtep_label = label ++ (" vtep " ++ show_ℕ index) in
    >>=-elim (expect_dict (vtep_label ++ " must be a mapping") v) _ e0 λ fs shape e1.
      let host = get_field "host" fs in
      let nic = get_field "underlay_nic" fs in
      let message = vtep_label ++ " local_nics must be a list" in
      let (names, read) =
        returns (optional_list message (get_or "local_nics" (list nil) fs)) (λ m q. ground arith)
          (λ m q. ground arith) in
      let ref : validate_host_nic_ref hosts host nic vtep_label ≡ ok tt = ground arith in
      let known = validate_host_nic_ref-KnownNic hosts nic vtep_label host ref in
      let locals : loop (validate_local_nic hosts vtep_label host nic) tt names ≡ ok tt =
        ground arith in
      (
        record {
          fs = fs;
          shape = expect_dict-ok _ v fs shape;
          known = known;
          host_set = ground arith;
          nic_set = ground arith;
          ip_set = ground arith;
          message = message;
          names = names;
          names_read = read;
          names_known = locals-known hosts vtep_label host nic known names locals;
        },
        ground arith,
      )

pub vlan_test : (v : Value) (label : String) → optional_vlan v label ≡ ok tt → GoodVlan v
unfolding optional_vlan
vlan_test v label h = elim (Bool-cases (is_blank v)) [
  | inl e ↦ inl e
  | inr e ↦
      let (z, q) = returns (validate_vlan v label) (λ m q. ground arith) (λ m q. ground arith) in
      let (read, limits) = validate_vlan-IsVlan v label z q in inr (z, read, limits)
]

pub validate_member-GoodMember :
    (hosts : Hosts) (label : String) (vlan : Value) (index : ℕ) (v : Value)
    → validate_member hosts label vlan index tt v ≡ ok tt
    → GoodMember hosts v
unfolding validate_member
validate_member-GoodMember hosts label vlan index v e0 =
    let member_label = label ++ (" member " ++ show_ℕ index) in
    >>=-elim (expect_dict (member_label ++ " must be a mapping") v) _ e0 λ fs shape e1.
      let host = get_field "host" fs in
      let nic = get_field "nic" fs in
      let ref : validate_host_nic_ref hosts host nic member_label ≡ ok tt = ground arith in
      record {
        fs = fs;
        shape = expect_dict-ok _ v fs shape;
        known = validate_host_nic_ref-KnownNic hosts nic member_label host ref;
        host_set = ground arith;
        nic_set = ground arith;
        ip_set = ground arith;
        vlan = vlan_test (get_field "vlan" fs) (member_label ++ " vlan") (ground arith);
      }
