-- ===== src/Render/Output/Commands.antt =====
-- The commands of scripts/render-topology.py, with the files that they read and write.
use Prim.Native.String.{String}
use pulsaros_testbed.Prelude.{List, Option, none, some, Outcome, ok, die, raise, if◌then◌else◌}
use pulsaros_testbed.Value.{Value, dict, truthy}
use pulsaros_testbed.Render.Env.{Environ}
use pulsaros_testbed.Render.Topology.{Resolved, render}
use pulsaros_testbed.Render.Output.Defs.{write_env, update_ips, require_ips}
use pulsaros_testbed.Render.Output.Shape.{document_fields}
use pulsaros_testbed.Render.Output.Stored.{stored}
use pulsaros_testbed.Render.Output.Inventory.{write_inventory}

-- What `write_playbook` writes: the plays of the document, or ansible/site.yml.
pub data Playbook : Type 0 where
  plays : Value → Playbook
  site : Playbook

unfoldable pub write_playbook : Resolved → Playbook
unfolding truthy
write_playbook document = if truthy document.plays then plays document.plays else site

-- The files under artifacts/; topology.json is given by the document that it is read as.
pub record Artifacts : Type 0 where
  pub topology : Option Resolved
  pub env : Option (List String)
  pub inventory : Option (List String)
  pub playbook : Option Playbook

-- What a command leaves: the files, also when it fails, and how it ended.
pub record Left : Type 0 where
  pub files : Artifacts
  pub result : Outcome (Unit {0})

-- A step that reads the files; a failure ends the command.
unfoldable pub then_files {ℓ} : {A : Type ℓ} → Artifacts → Outcome A → (A → Left) → Left
then_files files (ok a) f = f a
then_files files (die message) f = record { files = files; result = die message }
then_files files (raise e) f = record { files = files; result = raise e }

unfoldable pub done : Artifacts → Left
done files = record { files = files; result = ok tt }

-- write_json(data)
unfoldable pub set_topology : Resolved → Artifacts → Artifacts
unfolding stored
set_topology document files = record files { topology = some (stored document) }

-- write_json(data), and then write_env(data), which can fail
unfoldable pub write_both : Resolved → Artifacts → Left
unfolding then_files write_env done set_topology
write_both document files =
    then_files (set_topology document files) (write_env document)
      λ lines. done (record (set_topology document files) { env = some lines })

unfoldable pub load_resolved : Artifacts → Outcome Resolved
load_resolved files = elim files.topology [
  | none ↦ die "artifacts/topology.json not found"
  | some document ↦ ok document
]

unfoldable pub previous_document : Artifacts → Option Value
unfolding document_fields
previous_document files = elim files.topology [
  | none ↦ none
  | some document ↦ some (dict (document_fields document))
]

unfoldable pub cmd_render : Environ → String → Option String → Value → Artifacts → Left
unfolding then_files render previous_document write_both
cmd_render environ path dataplane source files =
    then_files files (render environ path (previous_document files) dataplane source)
      λ document. write_both document files

unfoldable pub cmd_update_ips : List String → Artifacts → Left
unfolding then_files load_resolved update_ips write_both
cmd_update_ips host_ip files = then_files files (load_resolved files) λ document.
    then_files files (update_ips document.hosts host_ip)
      λ hosts. write_both (record document { hosts = hosts }) files

unfoldable pub cmd_ansible : Environ → Artifacts → Left
unfolding then_files load_resolved require_ips write_inventory write_playbook done
cmd_ansible environ files = then_files files (load_resolved files) λ document.
    then_files files (require_ips document.hosts) λ _.
      then_files files (write_inventory environ document) λ lines.
        done (record files { inventory = some lines; playbook = some (write_playbook document) })
