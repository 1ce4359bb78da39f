-- ===== src/RunState/Commands.antt =====
-- `ensure_state`, `save_state` and the `cmd_` functions of scripts/run-state.py.
use Prim.Native.String.{String, ◌++◌}
use pulsaros_testbed.Prelude.{
  Bool, ◌&&◌, not, ◌==◌, if◌then◌else◌, Outcome, ok, raise, type_error, die_if, ◌>>=◌, ◌>>◌, any,
}
use pulsaros_testbed.Number.{pos}
use pulsaros_testbed.Text.{has_text}
use pulsaros_testbed.Value.{
  Value, int, str, list, dict, nil, Fields, end, field, elems, truthy, is_str, get_or, get_field,
  has_field, put_field, as_dict, py_str,
}
use pulsaros_testbed.RunState.Shape.{at_key, within, assign, appended}
use pulsaros_testbed.RunState.Resources.{topology_resources}

-- The two files. A missing file and an empty mapping are both `end`.
pub record World : Type 0 where
  pub topology : Fields
  pub state : Fields

-- What `now()` returns at each of its calls in one command.
pub record Clock : Type 0 where
  pub created : String
  pub updated : String
  pub appended_at : String
  pub saved : String

unfoldable pub save_state : Clock → World → Fields → World
save_state clock w state = record {
  topology = w.topology;
  state = put_field "updated_at" (str clock.saved) state;
}

-- if run_id and str(state["run_id"]) != str(run_id)
unfoldable pub other_run : String → Value → Bool
other_run run_id recorded = not (run_id == "") && not (py_str recorded == run_id)

unfoldable pub first_state : Clock → Fields → Fields → Fields
first_state clock topology resources = field "schema_version" (int (pos 1)) (
    field "run_id" (get_field "run_id" topology) (
      field "topology" (get_or "name" (str "") topology) (
        field "network_mode" (get_or "network_mode" (str "") topology) (
          field "created_at" (str clock.created) (
            field "updated_at" (str clock.updated) (
              field "phase" (str "initialized")
                (field "phases" (list nil) (field "resources" (dict resources) end))))))))

-- The part of `ensure_state` behind `if state:`.
unfoldable pub fresh_state : Clock → Fields → String → Outcome Fields
fresh_state clock topology run_id = do
  die_if (not (truthy (dict topology))) "artifacts/topology.json not found"
  resources ← topology_resources topology
  die_if (other_run run_id (get_field "run_id" topology)) (
      "topology RUN_ID "
      ++ (py_str (get_field "run_id" topology) ++ (" does not match requested RUN_ID " ++ run_id)))
  ok (first_state clock topology resources)

unfoldable pub ensure_state : Clock → World → String → Outcome Fields
ensure_state clock w run_id =
    if truthy (dict w.state)
    then (die_if (other_run run_id (get_or "run_id" (str "") w.state)) (
          "run-state RUN_ID "
          ++ (py_str (get_field "run_id" w.state)
              ++ (" does not match requested RUN_ID " ++ run_id)))
        >> ok w.state)
    else fresh_state clock w.topology run_id

-- state["phase"] = name, and the entry of `phases`
unfoldable pub phase_entry : String → String → String → String → Fields
phase_entry name status at message = field "name" (str name) (
    field "status" (str status)
      (field "at" (str at) (if message == "" then end else field "message" (str message) end)))

unfoldable pub add_phase : String → String → String → String → Fields → Outcome Fields
add_phase name status at message state =
    appended (get_or "phases" (list nil) state) (dict (phase_entry name status at message))
    >>= λ phases. ok (put_field "phases" phases state)

unfoldable pub cmd_phase : Clock → String → String → String → String → World → Outcome World
cmd_phase clock name status message run_id w = ensure_state clock w run_id >>= λ state.
    add_phase name status clock.appended_at message (put_field "phase" (str name) state) >>= λ done.
    ok (save_state clock w done)

unfoldable pub set_vm : String → String → Fields → Fields
set_vm status management_ip vm =
    let marked = put_field "status" (str status) vm in
    if management_ip == "" then marked else put_field "management_ip" (str management_ip) marked

-- state.setdefault("resources", {}).setdefault("vms", {}).setdefault(host, {}), changed
unfoldable pub change_vm : String → (Fields → Fields) → Fields → Outcome Fields
change_vm host change state =
    at_key "resources" end (within (at_key "vms" end (within (at_key host end (assign change)))))
      state

unfoldable pub cmd_vm : Clock → String → String → String → String → World → Outcome World
cmd_vm clock host status management_ip run_id w = ensure_state clock w run_id >>= λ state.
    change_vm host (set_vm status management_ip) state >>= λ done. ok (save_state clock w done)

pub data SdnKind : Type 0 where
  zone vnet : SdnKind

unfoldable pub change_sdn : SdnKind → String → String → Value → Outcome Fields
change_sdn zone name status = assign (put_field "zone_status" (str status))
change_sdn vnet name status =
    within
      (at_key "vnets" end (within (at_key name end (assign (put_field "status" (str status))))))

unfoldable pub cmd_sdn : Clock → SdnKind → String → String → String → World → Outcome World
cmd_sdn clock kind name status run_id w = ensure_state clock w run_id >>= λ state.
    at_key "resources" end
      (within (
        at_key "sdn" (field "zone" (str "") (field "vnets" (dict end) end))
          (change_sdn kind name status)))
      state
    >>= λ done. ok (save_state clock w done)

-- The loop over the hosts of the topology.
unfoldable pub sync_hosts : Fields → Fields → Outcome Fields
sync_hosts state end = ok state
sync_hosts state (field name host rest) = as_dict host >>= λ h.
    change_vm name (put_field "management_ip" (get_or "management_ip" (str "") h)) state
    >>= λ changed. sync_hosts changed rest

unfoldable pub cmd_sync_topology : Clock → String → World → Outcome World
cmd_sync_topology clock run_id w = ensure_state clock w run_id >>= λ state.
    as_dict (get_or "hosts" (dict end) w.topology) >>= λ hosts.
    sync_hosts state hosts >>= λ done. ok (save_state clock w done)

-- if name in previous_vms: the status and the address of the run so far
unfoldable pub carried : Value → String → Fields → Outcome Fields
carried (dict previous) name vm =
    if has_field name previous
    then (as_dict (get_field name previous) >>= λ old.
        let marked = put_field "status" (get_or "status" (get_field "status" vm) old) vm in
        ok (
          put_field "management_ip" (get_or "management_ip" (get_field "management_ip" marked) old)
            marked))
    else ok vm
carried (list vs) name vm = if any (is_str name) (elems vs) then raise type_error else ok vm
carried (str s) name vm = if has_text name s then raise type_error else ok vm
carried _ name vm = raise type_error

unfoldable pub carry_vms : Value → Fields → Outcome Fields
carry_vms previous end = ok end
carry_vms previous (field name vm rest) = as_dict vm >>= λ fs. carried previous name fs >>= λ new.
    carry_vms previous rest >>= λ more. ok (field name (dict new) more)

-- The state that `cmd_init` goes on from: that of the same run, or none.
unfoldable pub previous_state : World → Fields
previous_state w =
    if truthy (dict w.state)
      && not (
          py_str (get_or "run_id" (str "") w.state) == py_str (get_or "run_id" (str "") w.topology))
    then end
    else w.state

-- `previous_vms`
unfoldable pub previous_vms : Fields → Outcome Value
previous_vms previous = as_dict (get_or "resources" (dict end) previous) >>= λ resources.
    ok (get_or "vms" (dict end) resources)

unfoldable pub new_state : Clock → String → Fields → Fields → Fields → Fields
new_state clock phase topology previous resources = field "schema_version" (int (pos 1)) (
    field "run_id" (get_field "run_id" topology) (
      field "topology" (get_or "name" (str "") topology) (
        field "network_mode" (get_or "network_mode" (str "") topology) (
          field "created_at" (get_or "created_at" (str clock.created) previous) (
            field "updated_at" (str clock.updated) (
              field "phase" (str phase) (
                field "phases" (get_or "phases" (list nil) previous)
                  (field "resources" (dict resources) end))))))))

unfoldable pub cmd_init : Clock → String → World → Outcome World
cmd_init clock phase w = do
  die_if (not (truthy (dict w.topology))) "artifacts/topology.json not found"
  vms ← previous_vms (previous_state w)
  resources ← topology_resources w.topology
  declared ← as_dict (get_field "vms" resources)
  kept ← carry_vms vms declared
  done ←
      add_phase phase "started" clock.appended_at "" (
        new_state clock phase w.topology (previous_state w) (put_field "vms" (dict kept) resources))
  ok (save_state clock w done)
