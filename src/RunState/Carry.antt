-- ===== src/RunState/Carry.antt =====
-- What `cmd_init` of scripts/run-state.py carries over from the state of the same run.
use Prim.Native.String.{String}
use pulsaros_testbed.Prelude.{
  apart, ◌≡◌, ◌≢◌, refl, sym, ◌∙◌, ap, arith, true, not, ◌==◌, eq_iff, eq_refl, Bool-cases, inl,
  inr, some, ok, >>=-elim, ok-injective, subst, die_if,
}
use pulsaros_testbed.Value.{
  Value, str, dict, Fields, end, field, field?, get_or, get_field, put_field, has_field, as_dict,
  truthy,
}
use pulsaros_testbed.Value.FieldLaws.{field?-put_field}
use pulsaros_testbed.RunState.{
  World, Clock, declared_vm, declared_vms, declared_sdn, topology_resources, carried, carry_vms,
  previous_state, previous_vms, new_state, add_phase, cmd_init,
}
use pulsaros_testbed.RunState.Nested.{vm_of, mapping, mapping_at, mapping_at-put_field}
use pulsaros_testbed.RunState.Guard.{saved-kept, add_phase-lem}

module _ (name : String) where
  -- The first field of the name.
  here :
      (k : String) (v : Value) (rest fs h : Fields)
      → (k == name) ≡ true
      → field? name (field k v rest) ≡ some (dict h)
      → as_dict v ≡ ok fs
      → fs ≡ h
  unfolding field?
  here k v rest fs h same f q =
      let mine : v ≡ dict h = ground arith in
      ok-injective (sym q ∙ ap as_dict mine ∙ unfold as_dict in refl)

  declared_vms-lem :
      (hosts r h : Fields)
      → declared_vms hosts ≡ ok r
      → field? name hosts ≡ some (dict h)
      → field? name r ≡ some (dict (declared_vm h))
  unfolding declared_vms field?
  declared_vms-lem end r h e f = ground arith
  declared_vms-lem (field k v rest) r h e f = >>=-elim (as_dict v) _ e λ fs q e1.
      >>=-elim (declared_vms rest) _ e1 λ more q' done.
        let later = declared_vms-lem rest more h q' in
        let shape : field? name r ≡ field? name (field k (dict (declared_vm fs)) more) =
          ap (field? name) (sym (ok-injective done)) in
        elim (Bool-cases (k == name)) [
          | inl same ↦
              let mine = here k v rest fs h same f q in
              shape ∙ ground (arith, ap (λ x. dict (declared_vm x)) mine)
          | inr apart ↦ let there = later (ground arith) in shape ∙ ground arith
        ]

  carry_vms-lem :
      (previous : Value) (vms r vm : Fields)
      → carry_vms previous vms ≡ ok r
      → field? name vms ≡ some (dict vm)
      → (new : Fields) × (carried previous name vm ≡ ok new) × (field? name r ≡ some (dict new))
  unfolding carry_vms field?
  carry_vms-lem previous end r vm e f = ground arith
  carry_vms-lem previous (field k v rest) r vm e f = >>=-elim (as_dict v) _ e λ fs q e1.
      >>=-elim (carried previous k fs) _ e1 λ new q1 e2.
        >>=-elim (carry_vms previous rest) _ e2 λ more q2 done.
          let shape : field? name r ≡ field? name (field k (dict new) more) =
            ap (field? name) (sym (ok-injective done)) in
          elim (Bool-cases (k == name)) [
            | inl same ↦
                let mine = here k v rest fs vm same f q in
                let at : k ≡ name = ground (arith, eq_iff k name) in
                (
                  new,
                  ap (carried previous name) (sym mine)
                      ∙ ap (λ x. carried previous x fs) (sym at)
                      ∙ q1,
                  shape ∙ ground arith,
                )
            | inr apart ↦
                let (found, c, g) = carry_vms-lem previous rest more vm q2 (ground arith) in
                (found, c, shape ∙ ground arith)
          ]

  carried-status :
      (previous vm new old : Fields)
      → carried (dict previous) name vm ≡ ok new
      → field? name previous ≡ some (dict old)
      → field? "status" new ≡ some (get_or "status" (get_field "status" vm) old)
  unfolding carried
  carried-status previous vm new old e f =
      let present : has_field name previous ≡ true = unfold has_field in ground arith in
      let fetched : get_field name previous ≡ dict old = unfold get_field get_or in ground arith in
      let status = get_or "status" (get_field "status" vm) old in
      let marked = put_field "status" status vm in
      let address = get_or "management_ip" (get_field "management_ip" marked) old in
      let shape : new ≡ put_field "management_ip" address marked = unfold as_dict in ground arith in
      ap (field? "status") shape
      ∙ ground (
        arith,
        field?-put_field "management_ip" "status" address marked,
        field?-put_field "status" "status" status vm,
      )

previous_vms-lem :
    (s : Fields) (v x : Value) (name : String)
    → previous_vms s ≡ ok v
    → field? name (mapping_at "vms" (mapping_at "resources" s)) ≡ some x
    → v ≡ dict (mapping_at "vms" (mapping_at "resources" s))
unfolding previous_vms mapping_at get_or as_dict field?
previous_vms-lem s v x name e f = ground arith

declared-status : (h : Fields) → get_field "status" (declared_vm h) ≡ str "declared"
unfolding get_field get_or field? declared_vm
declared-status h = refl

module _ (w : World) (name : String) (hosts h old resources declared : Fields) (vms : Value)
    (kept : Fields) where
  -- The entry that the loop of `cmd_init` leaves.
  kept-status :
      get_or "hosts" (dict end) w.topology ≡ dict hosts
      → field? name hosts ≡ some (dict h)
      → field? name (mapping_at "vms" (mapping_at "resources" (previous_state w))) ≡ some (dict old)
      → previous_vms (previous_state w) ≡ ok vms
      → topology_resources w.topology ≡ ok resources
      → as_dict (get_field "vms" resources) ≡ ok declared
      → carry_vms vms declared ≡ ok kept
      → (new : Fields) × (field? name kept ≡ some (dict new))
        × (field? "status" new ≡ some (get_or "status" (str "declared") old))
  unfolding topology_resources
  kept-status named host was p t d c =
      let previous = mapping_at "vms" (mapping_at "resources" (previous_state w)) in
      let same : vms ≡ dict previous =
        previous_vms-lem (previous_state w) vms (dict old) name p was in
      >>=-elim (as_dict (get_or "hosts" (dict end) w.topology)) _ t λ hs q t1.
        >>=-elim (declared_vms hs) _ t1 λ made q1 t2.
          >>=-elim (declared_sdn w.topology) _ t2 λ sdn _ t3.
            let hs_same : hs ≡ hosts =
              ok-injective (sym q ∙ ap as_dict named ∙ unfold as_dict in refl) in
            let made_same : made ≡ declared = ok-injective (
              unfold get_field get_or field? as_dict in
              ap (λ x. as_dict (get_field "vms" x)) (ok-injective t3) ∙ d) in
            let entry =
              declared_vms-lem name hs made h q1
                (subst (λ x. field? name x ≡ some (dict h)) (sym hs_same) host) in
            let (new, made_new, there) =
              carry_vms-lem name vms declared kept (declared_vm h) c
                (subst (λ x. field? name x ≡ some (dict (declared_vm h))) made_same entry) in
            (
              new,
              there,
              carried-status name previous (declared_vm h) new old
                    (subst (λ x. carried x name (declared_vm h) ≡ ok new) same made_new) was
                  ∙ ap (λ x. some (get_or "status" x old)) (declared-status h),
            )

phases-resources : ◌≢◌ {A = String} "phases" "resources"
phases-resources = apart "phases" "resources" refl

-- When `cmd_init` succeeds, for a host of the topology that is a mapping and has an entry, a
-- mapping, among the VMs of the state it goes on from, the status of the VM in the new state is
-- that of the old entry, or "declared" where the old entry has none.
pub cmd_init-status :
    (clock : Clock) (phase name : String) (w w' : World) (hosts h old : Fields)
    → cmd_init clock phase w ≡ ok w'
    → get_or "hosts" (dict end) w.topology ≡ dict hosts
    → field? name hosts ≡ some (dict h)
    → field? name (mapping_at "vms" (mapping_at "resources" (previous_state w))) ≡ some (dict old)
    → field? "status" (vm_of name w'.state) ≡ some (get_or "status" (str "declared") old)
unfolding cmd_init
cmd_init-status clock phase name w w' hosts h old e0 named host was =
    >>=-elim (die_if (not (truthy (dict w.topology))) "artifacts/topology.json not found") _ e0
      λ _ _ e1. >>=-elim (previous_vms (previous_state w)) _ e1 λ vms p e2.
        >>=-elim (topology_resources w.topology) _ e2 λ resources t e3.
          >>=-elim (as_dict (get_field "vms" resources)) _ e3 λ declared d e4.
            >>=-elim (carry_vms vms declared) _ e4 λ kept c e5.
              let (new, there, status) =
                kept-status w name hosts h old resources declared vms kept named host was p t d c in
              let res = put_field "vms" (dict kept) resources in
              let fresh = new_state clock phase w.topology (previous_state w) res in
              >>=-elim (add_phase phase "started" clock.appended_at "" fresh) _ e5 λ done q saved.
                let saved_same =
                  saved-kept clock w w' done (ok-injective saved) "resources" (λ x. cc) in
                let (_, same) = add_phase-lem phase "started" clock.appended_at "" fresh done q in
                let found : field? "resources" w'.state ≡ some (dict res) =
                  saved_same
                  ∙ same "resources" phases-resources
                  ∙ unfold new_state field? in refl in
                let r1 : mapping_at "resources" w'.state ≡ res =
                  unfold mapping_at in ap mapping found in
                let r2 : mapping_at "vms" res ≡ kept =
                  ground (arith, mapping_at-put_field "vms" "vms" kept resources, eq_refl "vms") in
                let r3 : mapping_at name kept ≡ new = unfold mapping_at in ap mapping there in
                ap (λ x. field? "status" (mapping_at name (mapping_at "vms" x))) r1
                ∙ ap (λ x. field? "status" (mapping_at name x)) r2
                ∙ ap (field? "status") r3
                ∙ status
