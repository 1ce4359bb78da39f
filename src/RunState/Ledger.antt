-- ===== src/RunState/Ledger.antt =====
-- The commands of scripts/run-state.py as changes of an abstract ledger: the phases of a run, and
-- the status of each VM.
use Prim.Native.String.{String}
use mathlib.Core.Path.{fun_ext}
use pulsaros_testbed.Prelude.{
  apart, ◌≡◌, ◌≢◌, refl, sym, ◌∙◌, ap, ◌==◌, eq_iff, Option, some, ok, List, [], ◌∷◌, snoc, All,
  loop, >>=-elim, ok-injective, if◌then◌else◌, Bool-cases, inl, inr,
}
use pulsaros_testbed.Value.{Value, str, dict, end, field, Fields, field?}
use pulsaros_testbed.RunState.{
  World, Clock, SdnKind, at_key, within, change_sdn, cmd_sdn, ensure_state, phase_entry,
}
use pulsaros_testbed.RunState.Dispatch.{Command, phase, vm, sdn, sync_topology, execute}
use pulsaros_testbed.RunState.Nested.{vm_of, mapping_at, mapping_at-put_field, at_key-within}
use pulsaros_testbed.RunState.Guard.{listed, phases_of, saved-kept, cmd_phase-lem}
use pulsaros_testbed.RunState.Frame.{
  vm_of-same, at_key-lem, cmd_vm-lem, status-address, cmd_sdn-lem, cmd_sync_topology-lem,
}
use pulsaros_testbed.RunState.History.{HasRun, same_state, keeps-run}

-- What a reader of the state goes by.
pub record Ledger : Type 0 where
  pub phases : List Value
  pub status : String → Option Value

unfoldable pub ledger_of : Fields → Ledger
ledger_of state = record {
  phases = phases_of state;
  status = λ host. field? "status" (vm_of host state);
}

unfoldable pub apply : Ledger → Clock × Command → Ledger
apply l (clock, phase name status message) = record l {
  phases = snoc l.phases (dict (phase_entry name status clock.appended_at message));
}
apply l (clock, vm host status management_ip) = record l {
  status = λ other. if host == other then some (str status) else l.status other;
}
apply l (clock, sdn kind name status) = l
apply l (clock, sync_topology) = l

unfoldable pub replay : Ledger → List (Clock × Command) → Ledger
replay l [] = l
replay l (c ∷ cs) = replay (apply l c) cs

-- Two ledgers with the same phases and the same status of each VM are one.
same_ledger :
    (a b : Ledger) → a.phases ≡ b.phases → ((host : String) → a.status host ≡ b.status host) → a ≡ b
same_ledger a b p q = λ i. record { phases = p i; status = fun_ext q i }

-- `cmd_sdn` keeps the entries of the VMs.
cmd_sdn-vms :
    (clock : Clock) (w w' : World) (kind : SdnKind) (name status run_id : String)
    → cmd_sdn clock kind name status run_id w ≡ ok w'
    → (s : Fields) × (ensure_state clock w run_id ≡ ok s)
      × ((host : String) → vm_of host w'.state ≡ vm_of host s)
unfolding cmd_sdn
cmd_sdn-vms clock w w' kind name status run_id h =
    >>=-elim (ensure_state clock w run_id) _ h λ s q rest.
      let change =
        at_key "sdn" (field "zone" (str "") (field "vnets" (dict end) end))
          (change_sdn kind name status) in
      >>=-elim (at_key "resources" end (within change) s) _ rest λ done q' saved.
        let keeps = saved-kept clock w w' done (ok-injective saved) in
        let (g, changed, outer) = at_key-within "resources" s done change q' in
        let (g', inner) = at_key-lem clock w w' "sdn" _ _ (mapping_at "resources" s) g changed in
        (
          s,
          q,
          λ host.
              vm_of-same w'.state done host (keeps "resources" (λ e. cc))
              ∙ ap (mapping_at host) (
                  ap (mapping_at "vms") (
                    ap (mapping_at "resources") outer
                    ∙ mapping_at-put_field "resources" "resources" g s
                    ∙ inner)
                  ∙ mapping_at-put_field "sdn" "vms" g' (mapping_at "resources" s)),
        )

run_id-apart : All (λ (c : String). c ≢ "run_id") ("resources" ∷ "updated_at" ∷ [])
run_id-apart = (apart "resources" "run_id" refl, (apart "updated_at" "run_id" refl, tt))

phases-apart : All (λ (c : String). c ≢ "phases") ("resources" ∷ "updated_at" ∷ [])
phases-apart = (apart "resources" "phases" refl, (apart "updated_at" "phases" refl, tt))

phases-kept : (s t : Fields) → field? "phases" t ≡ field? "phases" s → phases_of t ≡ phases_of s
unfolding phases_of
phases-kept s t h = ap listed h

module _ (run_id : String) (w w' : World) (run : HasRun w) where
  execute-apply :
      (c : Clock × Command)
      → execute run_id w c ≡ ok w'
      → HasRun w' × (ledger_of w'.state ≡ apply (ledger_of w.state) c)
  unfolding execute ledger_of apply
  execute-apply (clock, phase name status message) h =
      let (s, read, grown, _, kept) = cmd_phase-lem clock name status message run_id w w' h in
      let same = same_state w w' run clock run_id s read in
      let entry : Value = dict (phase_entry name status clock.appended_at message) in
      (
        keeps-run w w' run clock run_id s read (
            kept "run_id" (
              apart "phase" "run_id" refl,
              (apart "phases" "run_id" refl, (apart "updated_at" "run_id" refl, tt)),
            )),
        same_ledger _ _ (grown ∙ ap (λ x. snoc (phases_of x) entry) same) λ host.
            ap (field? "status") (
              vm_of-same w'.state s host (
                kept "resources" (
                  apart "phase" "resources" refl,
                  (apart "phases" "resources" refl, (apart "updated_at" "resources" refl, tt)),
                ))
              ∙ ap (vm_of host) same),
      )
  execute-apply (clock, vm host status management_ip) h =
      let (s, read, mine, _, _, _, others, kept) =
        cmd_vm-lem clock w w' host status management_ip run_id h in
      let same = same_state w w' run clock run_id s read in
      (
        keeps-run w w' run clock run_id s read (kept "run_id" run_id-apart),
        same_ledger _ _ (phases-kept s w'.state (kept "phases" phases-apart) ∙ ap phases_of same)
            λ other. elim (Bool-cases (host == other)) [
              | inl here ↦
                  let at : host ≡ other = (eq_iff host other).0 here in
                  rw here (ap (λ x. field? "status" (vm_of x w'.state)) (sym at) ∙ mine)
              | inr there ↦ rw there (
                  ap (field? "status")
                    (others other (apart host other there) ∙ ap (vm_of other) same))
            ],
      )
  execute-apply (clock, sdn kind name status) h =
      let (s, read, kept) = cmd_sdn-lem clock w w' kind name status run_id h in
      let same = same_state w w' run clock run_id s read in
      let (s', read', vms) = cmd_sdn-vms clock w w' kind name status run_id h in
      let same' = same_state w w' run clock run_id s' read' in
      (
        keeps-run w w' run clock run_id s read (kept "run_id" run_id-apart),
        same_ledger _ _ (phases-kept s w'.state (kept "phases" phases-apart) ∙ ap phases_of same)
            (λ host. ap (field? "status") (vms host ∙ ap (vm_of host) same')),
      )
  execute-apply (clock, sync_topology) h =
      let (s, read, vms, kept) = cmd_sync_topology-lem clock w w' run_id h in
      let same = same_state w w' run clock run_id s read in
      (
        keeps-run w w' run clock run_id s read (kept "run_id" run_id-apart),
        same_ledger _ _ (phases-kept s w'.state (kept "phases" phases-apart) ∙ ap phases_of same)
            λ host.
              vms host "status" status-address ∙ ap (λ x. field? "status" (vm_of host x)) same,
      )

-- A sequence of `phase`, `vm`, `sdn` and `sync-topology` commands that succeeds from a state with
-- a run id changes the phases and the status of each VM as the abstract ledger does: a `phase`
-- adds its entry, a `vm` sets the status of its host, and the others change neither.
pub execute-refines :
    (run_id : String) (cs : List (Clock × Command)) (w w' : World)
    → HasRun w
    → loop (execute run_id) w cs ≡ ok w'
    → ledger_of w'.state ≡ replay (ledger_of w.state) cs
unfolding loop replay
execute-refines run_id [] w w' run h = ap (λ x. ledger_of x.state) (sym (ok-injective h))
execute-refines run_id (c ∷ cs) w w' run h = >>=-elim (execute run_id w c) _ h λ next q later.
    let (run', step) = execute-apply run_id w next run c q in
    execute-refines run_id cs next w' run' later ∙ ap (λ l. replay l cs) step
