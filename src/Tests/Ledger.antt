-- ===== src/Tests/Ledger.antt =====
-- The ledger of a run, and a run of a rendered document.
use Prim.Native.String.{String}
use pulsaros_testbed.Prelude.{◌≡◌, refl, some, ok, [], ◌∷◌, List, loop, get}
use pulsaros_testbed.Value.{str, end, field, int}
use pulsaros_testbed.Render.Hosts.{Host}
use pulsaros_testbed.Render.Output.{document_fields}
use pulsaros_testbed.RunState.{World, Clock, cmd_init}
use pulsaros_testbed.RunState.Dispatch.{Command, phase, vm, execute}
use pulsaros_testbed.RunState.Nested.{vm_of}
use pulsaros_testbed.RunState.Ledger.{ledger_of, replay, execute-refines}
use pulsaros_testbed.RunState.Rendered.{cmd_init-document}
use pulsaros_testbed.Tests.Sample.{value-ok}
use pulsaros_testbed.Tests.Runs.{clock, started, marked, marks, finished, finishes, ended, has_run}
use pulsaros_testbed.Tests.Renders.{document}

abbrev commands : List (Clock × Command)
commands = (clock, vm "a" "running" "192.0.2.9") ∷ (clock, phase "boot" "completed" "done") ∷ []

runs : loop (execute "7") started commands ≡ ok ended
unfolding loop execute
runs = rw (loop, execute, value-ok marked marks, value-ok finished finishes) refl

execute-refines_example : ledger_of ended.state ≡ replay (ledger_of started.state) commands
execute-refines_example = execute-refines "7" commands started ended has_run runs

cmd_init-document_example :
    (w : World) × (cmd_init clock "boot"
        (record { topology = document_fields document; state = end })
      ≡ ok w)
    × ((name : String) (h : Host)
        → get name document.hosts ≡ some h
        → vm_of name w.state
          ≡ field "vmid" (int h.vmid) (
              field "name"
                (str h.vm_name)
                (field "management_ip" h.management_ip (field "status" (str "declared") end))))
cmd_init-document_example = cmd_init-document clock "boot" document
