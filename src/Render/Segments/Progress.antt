-- ===== src/Render/Segments/Progress.antt =====
-- `resolve_segments` reaches its end on every mapping that `validate_segments` returns.
use Prim.Native.String.{String}
use pulsaros_testbed.Prelude.{
  List, [], ◌∷◌, true, Option, none, some, inl, inr, ◌≡◌, refl, sym, subst, arith, Outcome, ok, All,
  each, put, returns, Option-cases, Bool-cases,
}
use pulsaros_testbed.Value.{
  Value, null, bool, int, float, str, list, nil, cons, dict, Items, Fields, end, field, elems,
  truthy, is_blank, is_str, field?, or_default, get_field, get_or, has_field, to_int, as_dict,
  iterate,
}
use pulsaros_testbed.Render.Hosts.{Host, Hosts, lookup, has_nic}
use pulsaros_testbed.Render.Hosts.Refs.{KnownNic, nic_by_name-has_nic, lookup-found}
use pulsaros_testbed.Render.Segments.Validate.{optional_list, validate_segments}
use pulsaros_testbed.Render.Segments.Good.{GoodVlan, GoodVtep, GoodMember}
use pulsaros_testbed.Render.Segments.Passed.{
  GoodSegment, GoodSegments, validate_segments-GoodSegments,
}
use pulsaros_testbed.Render.Segments.Resolve.{
  Segments, subscript, or_nil, int_unless_blank, resolve_local_nic, resolve_vtep, member_vlan,
  resolve_member, resolve_segment, resolve_from, resolve_segments,
}

-- An outcome that is a value.
abbrev pub Returns {ℓ} : {A : Type ℓ} → Outcome A → Type ℓ
Returns {A = A} m = (a : A) × (m ≡ ok a)

pub each-Returns {ℓ κ} :
    {A : Type ℓ} {B : Type κ} (f : A → Outcome B) (xs : List A)
    → All (λ x. Returns (f x)) xs
    → Returns (each f xs)
unfolding each
each-Returns f [] h = ([], refl)
each-Returns f (x ∷ xs) h =
    let (y, p) = h.0 in let (ys, q) = each-Returns f xs h.1 in (y ∷ ys, ground arith)

subscript-truthy :
    (k : String) (fs : Fields)
    → truthy (get_field k fs) ≡ true
    → subscript k fs ≡ ok (get_field k fs)
unfolding subscript get_field get_or truthy
subscript-truthy k fs h = ground arith

subscript-has_field :
    (k : String) (fs : Fields) → has_field k fs ≡ true → subscript k fs ≡ ok (get_field k fs)
unfolding subscript get_field get_or has_field
subscript-has_field k fs h = ground arith

iterate-optional :
    (message : String) (v : Value) (vs : List Value)
    → optional_list message v ≡ ok vs
    → iterate (or_nil v) ≡ ok vs
unfolding iterate or_nil truthy
iterate-optional message null vs h = ground arith
iterate-optional message (list nil) vs h = ground arith
iterate-optional message (list (cons w ws)) vs h = ground arith
iterate-optional message (bool b) vs h = ground arith
iterate-optional message (int z) vs h = ground arith
iterate-optional message (float z k) vs h = ground arith
iterate-optional message (str s) vs h = ground arith
iterate-optional message (dict fs) vs h = ground arith

local-Returns :
    (host : Host) (nic : Value)
    → has_nic nic host.nics ≡ true
    → Returns (resolve_local_nic host nic)
unfolding resolve_local_nic
local-Returns host nic h =
    let (n, q) = nic_by_name-has_nic host nic h in
    (record { name = nic; mac = n.mac; network = n.network }, ground arith)

locals-Returns :
    (host : Host) (names : List Value)
    → All (λ nic. has_nic nic host.nics ≡ true) names
    → All (λ nic. Returns (resolve_local_nic host nic)) names
locals-Returns host [] h = tt
locals-Returns host (n ∷ ns) h = (local-Returns host n h.0, locals-Returns host ns h.1)

known-lookup :
    (hosts : Hosts) (v nic : Value) (k : KnownNic hosts v nic) → lookup hosts v ≡ ok k.host
known-lookup hosts v nic k =
    subst (λ w. lookup hosts w ≡ ok k.host) (sym k.named) (lookup-found hosts k.key k.host k.found)

-- The calls of `resolve_vtep` on a good VTEP all return, so it does.
vtep-Returns : (hosts : Hosts) (v : Value) → GoodVtep hosts v → Returns (resolve_vtep hosts v)
unfolding resolve_vtep as_dict
vtep-Returns hosts v g =
    let k = g.known in
    let (n, q) = nic_by_name-has_nic k.host (get_field "underlay_nic" g.fs) k.listed in
    let (ns, p) =
      each-Returns (resolve_local_nic k.host) g.names
        (locals-Returns k.host g.names g.names_known) in
    let s1 = subscript-truthy "host" g.fs g.host_set in
    let s2 = subscript-truthy "underlay_nic" g.fs g.nic_set in
    let s3 = subscript-truthy "underlay_ip" g.fs g.ip_set in
    let l = known-lookup hosts (get_field "host" g.fs) (get_field "underlay_nic" g.fs) k in
    let i = iterate-optional g.message (get_or "local_nics" (list nil) g.fs) g.names g.names_read in
    rw g.shape
      (returns (resolve_vtep hosts (dict g.fs)) (λ m e. ground arith) (λ m e. ground arith))

vlan-Returns : (v : Value) → GoodVlan v → Returns (int_unless_blank v)
unfolding int_unless_blank
vlan-Returns v (inl b) = (v, rw b)
vlan-Returns v (inr (z, q, limits)) =
    returns (int_unless_blank v) (λ m e. ground arith) (λ m e. ground arith)

settled-int_unless_blank : (v w : Value) → int_unless_blank v ≡ ok w → Returns (int_unless_blank w)
unfolding int_unless_blank is_blank to_int
settled-int_unless_blank v w h = elim (Bool-cases (is_blank v)) [
  | inl b ↦ let same : v ≡ w = ground arith in (w, rw (subst (λ x. is_blank x ≡ true) same b) refl)
  | inr b ↦
      let (z, q) = returns (to_int v) (λ m e. ground arith) (λ m e. ground arith) in
      let same : int z ≡ w = ground arith in
      (int z, subst (λ x. int_unless_blank x ≡ ok (int z)) same refl)
]

member_vlan-Returns :
    (vlan : Value) (fs : Fields)
    → Returns (int_unless_blank vlan)
    → GoodVlan (get_field "vlan" fs)
    → Returns (int_unless_blank (member_vlan vlan fs))
unfolding member_vlan get_field get_or int_unless_blank is_blank
member_vlan-Returns vlan fs h g =
    elim (Bool-cases (is_str "trunk" (get_or "mode" (str "access") fs))) [
      | inl t ↦ rw t (own (field? "vlan" fs) (vlan-Returns _ g))
      | inr t ↦ rw t (null, refl)
    ]
  where
    own :
        (o : Option Value)
        → Returns (int_unless_blank (or_default o null))
        → Returns (int_unless_blank (or_default o vlan))
    own none r = h
    own (some v) r = r

member-Returns :
    (hosts : Hosts) (vlan v : Value)
    → Returns (int_unless_blank vlan)
    → GoodMember hosts v
    → Returns (resolve_member hosts vlan v)
unfolding resolve_member as_dict
member-Returns hosts vlan v settled g =
    let k = g.known in
    let (n, q) = nic_by_name-has_nic k.host (get_field "nic" g.fs) k.listed in
    let s1 = subscript-truthy "host" g.fs g.host_set in
    let s2 = subscript-truthy "nic" g.fs g.nic_set in
    let s3 = subscript-truthy "ip" g.fs g.ip_set in
    let l = known-lookup hosts (get_field "host" g.fs) (get_field "nic" g.fs) k in
    let (w, r) = member_vlan-Returns vlan g.fs settled g.vlan in
    rw g.shape
      (returns (resolve_member hosts vlan (dict g.fs)) (λ m e. ground arith) (λ m e. ground arith))

module _ {A B : Type 0} {P : A → Type 0} (f : A → Outcome B)
    (step : (x : A) → P x → Returns (f x)) where
  All-Returns : (xs : List A) → All P xs → All (λ x. Returns (f x)) xs
  All-Returns [] h = tt
  All-Returns (x ∷ xs) h = (step x h.0, All-Returns xs h.1)

pub vteps-iterate :
    (fs : Fields) (vs : Items)
    → get_field "vteps" fs ≡ list vs
    → iterate (get_or "vteps" (list nil) fs) ≡ ok (elems vs)
unfolding get_field get_or iterate
vteps-iterate fs vs h = elim (Option-cases (field? "vteps" fs)) [
  | inl e ↦ absurd (ground arith)
  | inr (v, e) ↦
      let same : v ≡ list vs = ground arith in
      rw e (subst (λ x. iterate x ≡ ok (elems vs)) (sym same) refl)
]

segment-Returns :
    (hosts : Hosts) (name : String) (v : Value)
    → GoodSegment hosts name v
    → Returns (resolve_segment hosts name v)
unfolding resolve_segment as_dict
segment-Returns hosts name v g =
    let (vlan, settled) = vlan-Returns (get_field "vlan" g.fs) g.vlan in
    let again = settled-int_unless_blank (get_field "vlan" g.fs) vlan settled in
    let (vteps, p) =
      each-Returns (resolve_vtep hosts) (elems g.vteps)
        (All-Returns (resolve_vtep hosts) (vtep-Returns hosts) (elems g.vteps) g.vteps_good) in
    let (members, q) = each-Returns (resolve_member hosts vlan) g.members (
      All-Returns (resolve_member hosts vlan) (λ m. member-Returns hosts vlan m again) g.members
        g.members_good) in
    let s = subscript-has_field "vni" g.fs g.vni_set in
    let read = g.vni_read in
    let i =
      iterate-optional g.message (get_or "members" (list nil) g.fs) g.members g.members_read in
    let j : iterate (get_or "vteps" (list nil) g.fs) ≡ ok (elems g.vteps) =
      vteps-iterate g.fs g.vteps g.vteps_read in
    rw g.shape
      (returns (resolve_segment hosts name (dict g.fs)) (λ m e. ground arith) (λ m e. ground arith))

from-Returns :
    (hosts : Hosts) (d : Segments) (fs : Fields)
    → GoodSegments hosts fs
    → Returns (resolve_from hosts d fs)
unfolding resolve_from
from-Returns hosts d end g = (d, refl)
from-Returns hosts d (field name v fs) g =
    let (s, q) = segment-Returns hosts name v g.0 in
    let (r, p) = from-Returns hosts (put name s d) fs g.1 in (r, ground arith)

-- On every mapping that `validate_segments` returns, `resolve_segments` returns: it neither exits
-- nor raises.
pub resolve_segments-Returns :
    (hosts : Hosts) (v : Value) (fs : Fields)
    → validate_segments hosts v ≡ ok fs
    → (s : Segments) × (resolve_segments hosts fs ≡ ok s)
unfolding resolve_segments
resolve_segments-Returns hosts v fs h =
    from-Returns hosts [] fs (validate_segments-GoodSegments hosts v fs h)
