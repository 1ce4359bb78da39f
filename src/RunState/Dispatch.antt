-- ===== src/RunState/Dispatch.antt =====
-- `main` of scripts/run-state.py behind the parser of its command line.
use Prim.Native.String.{String}
use pulsaros_testbed.Prelude.{Option, none, some, Outcome}
use pulsaros_testbed.RunState.Commands.{
  World, Clock, SdnKind, cmd_init, cmd_phase, cmd_vm, cmd_sdn, cmd_sync_topology,
}

-- A command that goes on from a state, with its arguments.
pub data Command : Type 0 where
  phase : String → String → String → Command
  vm : String → String → String → Command
  sdn : SdnKind → String → String → Command
  sync_topology : Command

-- args.func(args), for such a command
unfoldable pub execute : String → World → Clock × Command → Outcome World
execute run_id w (clock, phase name status message) = cmd_phase clock name status message run_id w
execute run_id w (clock, vm host status management_ip) =
    cmd_vm clock host status management_ip run_id w
execute run_id w (clock, sdn kind name status) = cmd_sdn clock kind name status run_id w
execute run_id w (clock, sync_topology) = cmd_sync_topology clock run_id w

-- A command line: what is optional may be missing.
pub data Arguments : Type 0 where
  init : Option String → Arguments
  phase_args : String → Option String → Option String → Option String → Arguments
  vm_args : String → String → Option String → Option String → Arguments
  sdn_args : SdnKind → String → String → Option String → Arguments
  sync_args : Option String → Arguments

abbrev given_or : Option String → String → String
given_or none default = default
given_or (some s) default = s

-- args.func(args); `recorded` is os.environ.get("RUN_ID", "")
unfoldable pub main : String → Clock → World → Arguments → Outcome World
unfolding execute cmd_init
main recorded clock w (init name) = cmd_init clock (given_or name "initialized") w
main recorded clock w (phase_args name status message run_id) =
    execute (given_or run_id recorded) w
      (clock, phase name (given_or status "completed") (given_or message ""))
main recorded clock w (vm_args host status management_ip run_id) =
    execute (given_or run_id recorded) w (clock, vm host status (given_or management_ip ""))
main recorded clock w (sdn_args kind name status run_id) =
    execute (given_or run_id recorded) w (clock, sdn kind name status)
main recorded clock w (sync_args run_id) =
    execute (given_or run_id recorded) w (clock, sync_topology)
