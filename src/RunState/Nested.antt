-- ===== src/RunState/Nested.antt =====
-- What a change below nested mappings of the state changes, and what it leaves.
use Prim.Native.String.{String}
use pulsaros_testbed.Prelude.{
  ◌≡◌, ◌≢◌, sym, arith, if◌then◌else◌, ◌==◌, eq_iff, eq_refl, Option, some, Outcome, ok, >>=-elim,
  ok-injective, subst,
}
use pulsaros_testbed.Value.{Value, dict, Fields, end, field?, get_or, put_field, as_dict}
use pulsaros_testbed.Value.FieldLaws.{field?-put_field}
use pulsaros_testbed.RunState.{at_key, within, assign, assignable, change_vm}

abbrev pub mapping : Option Value → Fields
mapping (some (dict gs)) = gs
mapping _ = end

-- The mapping under a key; where there is none, the empty one.
unfoldable pub mapping_at : String → Fields → Fields
mapping_at k fs = mapping (field? k fs)

pub mapping_at-put_field :
    (k j : String) (g fs : Fields)
    → mapping_at j (put_field k (dict g) fs) ≡ (if k == j then g else mapping_at j fs)
unfolding mapping_at
mapping_at-put_field k j g fs = ground (arith, field?-put_field k j (dict g) fs)

module _ (k : String) (fs r : Fields) where
  pub at_key-within :
      (change : Fields → Outcome Fields)
      → at_key k end (within change) fs ≡ ok r
      → (g : Fields) × (change (mapping_at k fs) ≡ ok g) × (r ≡ put_field k (dict g) fs)
  unfolding at_key within mapping_at get_or as_dict
  at_key-within change h = >>=-elim (within change (get_or k (dict end) fs)) _ h λ g q done.
      >>=-elim (as_dict (get_or k (dict end) fs)) _ q λ m e c.
        let same : m ≡ mapping_at k fs = ground arith in
        (g, subst (λ x. change x ≡ ok g) same c, sym (ok-injective done))

  pub at_key-assign :
      (change : Fields → Fields)
      → at_key k end (assign change) fs ≡ ok r
      → r ≡ put_field k (dict (change (mapping_at k fs))) fs
  unfolding at_key assign assignable mapping_at get_or
  at_key-assign change h = ground arith

-- The entry of a host under resources/vms.
abbrev pub vm_of : String → Fields → Fields
vm_of host state = mapping_at host (mapping_at "vms" (mapping_at "resources" state))

module _ (host : String) (change : Fields → Fields) (state r : Fields) where
  -- The entry of the host is changed, those of the other hosts and the other fields are kept.
  pub change_vm-lem :
      change_vm host change state ≡ ok r
      → (vm_of host r ≡ change (vm_of host state))
        × ((other : String) → host ≢ other → vm_of other r ≡ vm_of other state)
        × ((k : String) → "resources" ≢ k → field? k r ≡ field? k state)
  unfolding change_vm
  change_vm-lem h =
      let (resources, e1, q1) =
        at_key-within "resources" state r
          (at_key "vms" end (within (at_key host end (assign change)))) h in
      let (vms, e2, q2) =
        at_key-within "vms" (mapping_at "resources" state) resources
          (at_key host end (assign change)) e1 in
      let q3 = at_key-assign host (mapping_at "vms" (mapping_at "resources" state)) vms change e2 in
      let outer = mapping_at-put_field "resources" "resources" resources state in
      let inner = mapping_at-put_field "vms" "vms" vms (mapping_at "resources" state) in
      (
        ground (
          arith,
          eq_refl "resources",
          eq_refl "vms",
          eq_refl host,
          mapping_at-put_field host host (change (vm_of host state))
              (mapping_at "vms" (mapping_at "resources" state)),
        ),
        λ other apart. ground (
          arith,
          eq_refl "resources",
          eq_refl "vms",
          eq_iff host other,
          mapping_at-put_field host other (change (vm_of host state))
              (mapping_at "vms" (mapping_at "resources" state)),
        ),
        λ k apart.
            ground
              (arith, field?-put_field "resources" k (dict resources) state, eq_iff "resources" k),
      )
