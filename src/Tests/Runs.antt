-- ===== src/Tests/Runs.antt =====
-- The commands of scripts/run-state.py at one run.
use Prim.Native.String.{String}
use pulsaros_testbed.Prelude.{ℕ, ◌≡◌, ◌≢◌, refl, true, some, Outcome, ok, [], ◌∷◌, snoc, any}
use pulsaros_testbed.Value.{
  Value, str, dict, end, Fields, field?, get_or, get_field, put_field, has_field, as_dict, truthy,
  is_str, py_str, fields, repr, repr_items, repr_fields,
}
use pulsaros_testbed.Text.{show_ℤ, show_in, spell, digit, show_ℕ}
use pulsaros_testbed.RunState.{
  save_state, other_run, first_state, fresh_state, ensure_state, phase_entry, add_phase, cmd_phase,
  set_vm, change_vm, cmd_vm, change_sdn, cmd_sdn, sync_hosts, cmd_sync_topology, carried, carry_vms,
  previous_state, previous_vms, new_state, cmd_init, declared_vm, declared_vms, declared_vnet,
  add_vnet, declared_vnets, declared_sdn, topology_resources, assignable, at_key, within, assign,
  append_item, appended, World, Clock,
}
use pulsaros_testbed.RunState.Nested.{vm_of, mapping_at}
use pulsaros_testbed.RunState.Guard.{Keeps, run_of, phases_of, ensure_state-run, cmd_phase-lem}
use pulsaros_testbed.RunState.Frame.{KeepsVms, cmd_vm-lem, cmd_sync_topology-lem}
use pulsaros_testbed.RunState.Carry.{cmd_init-status}
use pulsaros_testbed.RunState.History.{
  Life, idle, then_step, phase, vm, HasRun, GoesOn, Life-GoesOn,
}
use pulsaros_testbed.Tests.Sample.{succeeds, value, value-ok, mapping, number}

-- A theorem that unfolds this one computes with all definitions of the commands.
unfoldable program : Unit {0}
unfolding save_state other_run first_state fresh_state ensure_state phase_entry add_phase cmd_phase
    set_vm change_vm cmd_vm change_sdn cmd_sdn sync_hosts cmd_sync_topology carried carry_vms
    previous_state previous_vms new_state cmd_init declared_vm declared_vms declared_vnet add_vnet
    declared_vnets declared_sdn topology_resources assignable at_key within assign append_item
    appended field? get_or get_field put_field has_field as_dict truthy is_str py_str repr
    repr_items repr_fields show_ℤ show_in spell digit show_ℕ any mapping_at phases_of
program = tt

abbrev pub clock : Clock
clock = record { created = "t0"; updated = "t1"; appended_at = "t2"; saved = "t3" }

abbrev pub vm_host : ℕ → Value
vm_host n =
    mapping
      (("vmid", number n) ∷ ("vm_name", str "pulsar") ∷ ("management_ip", str "192.0.2.1") ∷ [])

abbrev pub hosts : Fields
hosts = fields (("a", vm_host 200001) ∷ ("b", vm_host 200002) ∷ [])

abbrev pub topology : Fields
topology = fields (("run_id", number 7) ∷ ("name", str "pair") ∷ ("hosts", dict hosts) ∷ [])

abbrev pub before : World
before = record { topology = topology; state = end }

abbrev pub opened : Outcome World
opened = cmd_init clock "boot" before

pub opens : succeeds opened ≡ true
unfolding program
opens = refl

abbrev pub started : World
started = value opened opens

abbrev pub marked : Outcome World
marked = cmd_vm clock "a" "running" "192.0.2.9" "7" started

pub marks : succeeds marked ≡ true
unfolding program
marks = refl

abbrev pub running : World
running = value marked marks

abbrev pub finished : Outcome World
finished = cmd_phase clock "boot" "completed" "done" "7" running

pub finishes : succeeds finished ≡ true
unfolding program
finishes = refl

abbrev pub ended : World
ended = value finished finishes

abbrev synced : Outcome World
synced = cmd_sync_topology clock "7" ended

syncs : succeeds synced ≡ true
unfolding program
syncs = refl

abbrev ensured : Outcome Fields
ensured = ensure_state clock started "7"

ensures : succeeds ensured ≡ true
unfolding program
ensures = refl

seven : ◌≢◌ {A = String} "7" ""
seven e = cc

ensure_state-run_example : run_of (value ensured ensures) ≡ "7"
ensure_state-run_example =
    ensure_state-run clock started "7" (value ensured ensures) seven (value-ok ensured ensures)

cmd_vm-lem_example :
    (s : Fields) × (ensure_state clock started "7" ≡ ok s)
    × (field? "status" (vm_of "a" running.state) ≡ some (str "running"))
    × (◌≡◌ {A = String} "192.0.2.9" ""
        → field? "management_ip" (vm_of "a" running.state) ≡ field? "management_ip" (vm_of "a" s))
    × (◌≢◌ {A = String} "192.0.2.9" ""
        → field? "management_ip" (vm_of "a" running.state) ≡ some (str "192.0.2.9"))
    × ((k : String)
        → "status" ≢ k
        → "management_ip" ≢ k
        → field? k (vm_of "a" running.state) ≡ field? k (vm_of "a" s))
    × ((other : String) → "a" ≢ other → vm_of other running.state ≡ vm_of other s)
    × Keeps ("resources" ∷ "updated_at" ∷ []) s running.state
cmd_vm-lem_example =
    cmd_vm-lem clock started running "a" "running" "192.0.2.9" "7" (value-ok marked marks)

cmd_phase-lem_example :
    (s : Fields) × (ensure_state clock running "7" ≡ ok s)
    × (phases_of ended.state
        ≡ snoc (phases_of s) (dict (phase_entry "boot" "completed" clock.appended_at "done")))
    × (field? "phase" ended.state ≡ some (str "boot"))
    × Keeps ("phase" ∷ "phases" ∷ "updated_at" ∷ []) s ended.state
cmd_phase-lem_example =
    cmd_phase-lem clock "boot" "completed" "done" "7" running ended (value-ok finished finishes)

cmd_sync_topology-lem_example :
    (s : Fields) × (ensure_state clock ended "7" ≡ ok s)
    × KeepsVms s (value synced syncs).state
    × Keeps ("resources" ∷ "updated_at" ∷ []) s (value synced syncs).state
cmd_sync_topology-lem_example =
    cmd_sync_topology-lem clock ended (value synced syncs) "7" (value-ok synced syncs)

pub has_run : HasRun started
unfolding program
has_run = (number 7, refl)

life : Life started ended
life =
    then_step (vm clock "a" "running" "192.0.2.9" "7" (value-ok marked marks))
      (then_step (phase clock "boot" "completed" "done" "7" (value-ok finished finishes)) idle)

Life-GoesOn_example : HasRun ended × GoesOn started ended
Life-GoesOn_example = Life-GoesOn has_run life

abbrev restarted : Outcome World
restarted = cmd_init clock "again" ended

restarts : succeeds restarted ≡ true
unfolding program
restarts = refl

abbrev old_entry : Fields
old_entry = mapping_at "a" (mapping_at "vms" (mapping_at "resources" (previous_state ended)))

cmd_init-status_example :
    field? "status" (vm_of "a" (value restarted restarts).state)
    ≡ some (get_or "status" (str "declared") old_entry)
unfolding program
cmd_init-status_example =
    cmd_init-status clock "again" "a" ended (value restarted restarts) hosts
      (fields (
        ("vmid", number 200001)
        ∷ ("vm_name", str "pulsar")
        ∷ ("management_ip", str "192.0.2.1")
        ∷ []))
      old_entry (value-ok restarted restarts) refl refl refl
