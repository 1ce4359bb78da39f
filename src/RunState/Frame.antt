-- ===== src/RunState/Frame.antt =====
-- What the commands of scripts/run-state.py change in the entries of the VMs, and what they keep.
use Prim.Native.String.{String}
use pulsaros_testbed.Prelude.{
  apart, ◌≡◌, ◌≢◌, refl, sym, ◌∙◌, ap, arith, not, ◌==◌, eq_iff, Option, none, some, Outcome, ok,
  >>=-elim, ok-injective, subst, die_if, [], ◌∷◌, snoc, Bool-cases, inl, inr,
}
use pulsaros_testbed.Value.{
  Value, str, dict, list, nil, Fields, end, field, field?, get_or, or_default, get_field, put_field,
  as_dict, truthy,
}
use pulsaros_testbed.Value.FieldLaws.{field?-put_field}
use pulsaros_testbed.RunState.{
  at_key, change_vm, World, Clock, ensure_state, set_vm, phase_entry, add_phase, cmd_vm, cmd_sdn,
  cmd_init, SdnKind, sync_hosts, cmd_sync_topology, previous_state, previous_vms, new_state,
  topology_resources, carry_vms,
}
use pulsaros_testbed.RunState.Nested.{change_vm-lem, vm_of, mapping_at}
use pulsaros_testbed.RunState.Guard.{Keeps, saved-kept, phases_of, listed, add_phase-lem}

pub vm_of-same :
    (s t : Fields) (host : String)
    → field? "resources" s ≡ field? "resources" t
    → vm_of host s ≡ vm_of host t
unfolding mapping_at
vm_of-same s t host h = rw h refl

put-same : (k : String) (v : Value) (fs : Fields) → field? k (put_field k v fs) ≡ some v
put-same k v fs = ground (arith, field?-put_field k k v fs, eq_iff k k)

put-other :
    (j k : String) (v : Value) (fs : Fields) → j ≢ k → field? k (put_field j v fs) ≡ field? k fs
put-other j k v fs h = ground (arith, field?-put_field j k v fs, eq_iff j k)

pub status-address : ◌≢◌ {A = String} "management_ip" "status"
status-address = apart "management_ip" "status" refl

module _ (status management_ip : String) (vm : Fields) where
  set_vm-status : field? "status" (set_vm status management_ip vm) ≡ some (str status)
  unfolding set_vm
  set_vm-status = elim (Bool-cases (management_ip == "")) [
    | inl none' ↦ rw (set_vm, none') (put-same "status" (str status) vm)
    | inr given ↦
        rw (set_vm, given)
          (put-other "management_ip" "status" (str management_ip)
              (put_field "status" (str status) vm) status-address
            ∙ put-same "status" (str status) vm)
  ]

  set_vm-no_address :
      management_ip ≡ ""
      → field? "management_ip" (set_vm status management_ip vm) ≡ field? "management_ip" vm
  unfolding set_vm
  set_vm-no_address e =
      rw (set_vm, (eq_iff management_ip "").1 e)
        (put-other "status" "management_ip" (str status) vm (λ h. status-address (sym h)))

  set_vm-address :
      management_ip ≢ ""
      → field? "management_ip" (set_vm status management_ip vm) ≡ some (str management_ip)
  unfolding set_vm
  set_vm-address e = elim (Bool-cases (management_ip == "")) [
    | inl none' ↦ absurd (e ((eq_iff management_ip "").0 none'))
    | inr given ↦
        rw (set_vm, given)
          (put-same "management_ip" (str management_ip) (put_field "status" (str status) vm))
  ]

  set_vm-other :
      (k : String)
      → "status" ≢ k
      → "management_ip" ≢ k
      → field? k (set_vm status management_ip vm) ≡ field? k vm
  unfolding set_vm
  set_vm-other k a b = elim (Bool-cases (management_ip == "")) [
    | inl none' ↦ rw (set_vm, none') (put-other "status" k (str status) vm a)
    | inr given ↦
        rw (set_vm, given)
          (put-other "management_ip" k (str management_ip) (put_field "status" (str status) vm) b
            ∙ put-other "status" k (str status) vm a)
  ]

module _ (clock : Clock) (w w' : World) where
  -- When `cmd_vm` succeeds it went on from the state that `ensure_state` returned; the entry of
  -- its VM has the new status, the new address if one is given and else the old one, and keeps
  -- every other field; the entries of the other VMs and every field beside "resources" and
  -- "updated_at" are kept.
  pub cmd_vm-lem :
      (host status management_ip run_id : String)
      → cmd_vm clock host status management_ip run_id w ≡ ok w'
      → (s : Fields) × (ensure_state clock w run_id ≡ ok s)
        × (field? "status" (vm_of host w'.state) ≡ some (str status))
        × (management_ip ≡ ""
            → field? "management_ip" (vm_of host w'.state) ≡ field? "management_ip" (vm_of host s))
        × (management_ip ≢ ""
            → field? "management_ip" (vm_of host w'.state) ≡ some (str management_ip))
        × ((k : String)
            → "status" ≢ k
            → "management_ip" ≢ k
            → field? k (vm_of host w'.state) ≡ field? k (vm_of host s))
        × ((other : String) → host ≢ other → vm_of other w'.state ≡ vm_of other s)
        × Keeps ("resources" ∷ "updated_at" ∷ []) s w'.state
  unfolding cmd_vm
  cmd_vm-lem host status management_ip run_id h =
      >>=-elim (ensure_state clock w run_id) _ h λ s q rest.
        >>=-elim (change_vm host (set_vm status management_ip) s) _ rest λ done q' saved.
          let keeps = saved-kept clock w w' done (ok-injective saved) in
          let same = λ (o : String). vm_of-same w'.state done o (keeps "resources" (λ e. cc)) in
          let (mine, others, kept) = change_vm-lem host (set_vm status management_ip) s done q' in
          let entry = λ (k : String). ap (field? k) (same host ∙ mine) in
          let old = vm_of host s in
          (
            s,
            q,
            entry "status" ∙ set_vm-status status management_ip old,
            λ e. entry "management_ip" ∙ set_vm-no_address status management_ip old e,
            λ e. entry "management_ip" ∙ set_vm-address status management_ip old e,
            λ k a b. entry k ∙ set_vm-other status management_ip old k a b,
            λ other apart. same other ∙ others other apart,
            λ k apart. keeps k apart.1.0 ∙ kept k apart.0,
          )

  pub at_key-lem :
      (k : String) (d : Fields) (change : Value → Outcome Fields) (fs r : Fields)
      → at_key k d change fs ≡ ok r
      → (g : Fields) × (r ≡ put_field k (dict g) fs)
  unfolding at_key
  at_key-lem k d change fs r h =
      >>=-elim (change (get_or k (dict d) fs)) _ h λ g _ done. (g, sym (ok-injective done))

  -- `cmd_sdn` keeps everything beside "resources".
  pub cmd_sdn-lem :
      (kind : SdnKind) (name status run_id : String)
      → cmd_sdn clock kind name status run_id w ≡ ok w'
      → (s : Fields) × (ensure_state clock w run_id ≡ ok s)
        × Keeps ("resources" ∷ "updated_at" ∷ []) s w'.state
  unfolding cmd_sdn
  cmd_sdn-lem kind name status run_id h = >>=-elim (ensure_state clock w run_id) _ h λ s q rest.
      >>=-elim (at_key "resources" end _ s) _ rest λ done q' saved.
        let keeps = saved-kept clock w w' done (ok-injective saved) in
        let (g, shape) = at_key-lem "resources" end _ s done q' in
        (
          s,
          q,
          λ k apart.
              keeps k apart.1.0
              ∙ ground (arith, field?-put_field "resources" k (dict g) s, eq_iff "resources" k),
        )

listed-default : (o : Option Value) → listed (some (or_default o (list nil))) ≡ listed o
listed-default none = refl
listed-default (some v) = refl

pub phases-run_id : ◌≢◌ {A = String} "phases" "run_id"
phases-run_id = apart "phases" "run_id" refl

updated-run_id : ◌≢◌ {A = String} "updated_at" "run_id"
updated-run_id = apart "updated_at" "run_id" refl

-- Every field of a VM's entry but its address.
abbrev pub KeepsVms : Fields → Fields → Type 0
KeepsVms s t =
    (host k : String) → "management_ip" ≢ k → field? k (vm_of host t) ≡ field? k (vm_of host s)

sync_hosts-lem :
    (s r hosts : Fields)
    → sync_hosts s hosts ≡ ok r
    → KeepsVms s r × ((k : String) → "resources" ≢ k → field? k r ≡ field? k s)
unfolding sync_hosts
sync_hosts-lem s r end h =
    let same : s ≡ r = ok-injective h in
    (λ host k _. ap (λ x. field? k (vm_of host x)) (sym same), λ k _. ap (field? k) (sym same))
sync_hosts-lem s r (field name host rest) h0 = >>=-elim (as_dict host) _ h0 λ fs _ h1.
    let address = get_or "management_ip" (str "") fs in
    >>=-elim (change_vm name (put_field "management_ip" address) s) _ h1 λ changed q h2.
      let (mine, others, kept) =
        change_vm-lem name (put_field "management_ip" address) s changed q in
      let (later, frame) = sync_hosts-lem changed r rest h2 in
      (
        λ o k apart. later o k apart ∙ elim (Bool-cases (name == o)) [
          | inl same ↦
              let at : name ≡ o = ground (arith, eq_iff name o) in
              subst (λ x. field? k (vm_of x changed) ≡ field? k (vm_of x s)) at
                (ap (field? k) mine
                  ∙ ground (
                    arith,
                    field?-put_field "management_ip" k address (vm_of name s),
                    eq_iff "management_ip" k,
                  ))
          | inr differ ↦ ap (field? k) (others o (ground (arith, eq_iff name o)))
        ],
        λ k apart. frame k apart ∙ kept k apart,
      )

module _ (clock : Clock) (w w' : World) where
  -- When `cmd_sync_topology` succeeds it went on from the state that `ensure_state` returned, and
  -- it kept every field of every VM entry but the address, and every field of the state beside
  -- "resources" and "updated_at".
  pub cmd_sync_topology-lem :
      (run_id : String)
      → cmd_sync_topology clock run_id w ≡ ok w'
      → (s : Fields) × (ensure_state clock w run_id ≡ ok s)
        × KeepsVms s w'.state
        × Keeps ("resources" ∷ "updated_at" ∷ []) s w'.state
  unfolding cmd_sync_topology
  cmd_sync_topology-lem run_id h = >>=-elim (ensure_state clock w run_id) _ h λ s q rest.
      >>=-elim (as_dict (get_or "hosts" (dict end) w.topology)) _ rest λ hosts _ rest'.
        >>=-elim (sync_hosts s hosts) _ rest' λ done q' saved.
          let keeps = saved-kept clock w w' done (ok-injective saved) in
          let (vms, frame) = sync_hosts-lem s done hosts q' in
          (
            s,
            q,
            λ host k apart.
                ap (field? k) (vm_of-same w'.state done host (keeps "resources" (λ e. cc)))
                ∙ vms host k apart,
            λ k apart. keeps k apart.1.0 ∙ frame k apart.0,
          )

  -- `cmd_init` goes on from the phases of the same run.
  pub cmd_init-phases :
      (phase : String)
      → cmd_init clock phase w ≡ ok w'
      → (phases_of w'.state
          ≡ snoc
              (phases_of (previous_state w))
              (dict (phase_entry phase "started" clock.appended_at "")))
        × (field? "run_id" w'.state ≡ some (get_field "run_id" w.topology))
  unfolding cmd_init
  cmd_init-phases phase e0 =
      >>=-elim (die_if (not (truthy (dict w.topology))) "artifacts/topology.json not found") _ e0
        λ _ _ e1. >>=-elim (previous_vms (previous_state w)) _ e1 λ vms _ e2.
          >>=-elim (topology_resources w.topology) _ e2 λ resources _ e3.
            >>=-elim (as_dict (get_field "vms" resources)) _ e3 λ declared _ e4.
              >>=-elim (carry_vms vms declared) _ e4 λ kept _ e5.
                let fresh =
                  new_state clock phase w.topology (previous_state w)
                    (put_field "vms" (dict kept) resources) in
                >>=-elim (add_phase phase "started" clock.appended_at "" fresh) _ e5 λ done q saved.
                  let keeps = saved-kept clock w w' done (ok-injective saved) in
                  let entry : Value = dict (phase_entry phase "started" clock.appended_at "") in
                  let (grown, same) =
                    add_phase-lem phase "started" clock.appended_at "" fresh done q in
                  (
                    unfold phases_of in
                        (ap listed (keeps "phases" (λ e. cc))
                          ∙ grown
                          ∙ ap (λ l. snoc l entry)
                              (unfold new_state get_or in
                                listed-default (field? "phases" (previous_state w)))),
                    keeps "run_id" updated-run_id
                        ∙ same "run_id" phases-run_id
                        ∙ unfold new_state field? in refl,
                  )
