-- ===== src/Render/Output/Agreement.antt =====
-- Sessions of the commands of scripts/render-topology.py: what topology.env and topology.json share.
use Prim.Native.String.{String}
use pulsaros_testbed.Prelude.{
  List, [], ◌∷◌, Option, some, Outcome, ok, die, raise, ◌≡◌, refl, sym, ap, ◌∙◌, subst,
}
use pulsaros_testbed.Value.{Value}
use pulsaros_testbed.Render.Env.{Environ}
use pulsaros_testbed.Render.Topology.{Resolved, render}
use pulsaros_testbed.Render.Output.Defs.{write_env, update_ips, require_ips}
use pulsaros_testbed.Render.Output.Stored.{stored}
use pulsaros_testbed.Render.Output.StoredHosts.{KeepsHosts, stored-KeepsHosts}
use pulsaros_testbed.Render.Output.Inventory.{write_inventory}
use pulsaros_testbed.Render.Output.Commands.{
  Artifacts, Left, then_files, done, set_topology, write_both, load_resolved, previous_document,
  write_playbook, cmd_render, cmd_update_ips, cmd_ansible,
}

-- A command line that writes files, with its arguments. The topology file is given by its value.
pub data Command : Type 0 where
  render_file : String → Option String → Value → Command
  update : List String → Command
  ansible : Command

-- args.func(args)
unfoldable pub issue : Environ → Command → Artifacts → Left
issue environ (render_file path dataplane source) files =
    cmd_render environ path dataplane source files
issue environ (update host_ip) files = cmd_update_ips host_ip files
issue environ ansible files = cmd_ansible environ files

-- Commands one after the other, up to one that fails.
unfoldable pub issue_all : Environ → List Command → Artifacts → Left
issue_all environ [] files = done files
issue_all environ (c ∷ cs) files =
    then_files (issue environ c files).files (issue environ c files).result
      λ _. issue_all environ cs (issue environ c files).files

-- topology.json and topology.env are of one document: the one holds it with its keys sorted, and with
-- all its hosts, the other has the lines that `write_env` makes of it.
pub record Agrees (files : Artifacts) : Type 0 where
  pub document : Resolved
  pub lines : List String
  pub has_document : files.topology ≡ some (stored document)
  pub has_hosts : KeepsHosts document (stored document)
  pub has_lines : files.env ≡ some lines
  pub same : write_env document ≡ ok lines

then_files-ok {ℓ} :
    {A : Type ℓ} (files : Artifacts) (m : Outcome A) (f : A → Left)
    → (then_files files m f).result ≡ ok tt
    → (a : A) × (m ≡ ok a) × (then_files files m f ≡ f a)
unfolding then_files
then_files-ok files (ok a) f h = (a, refl, refl)
then_files-ok files (die message) f h = absurd (cc)
then_files-ok files (raise e) f h = absurd (cc)

written :
    (d : Resolved) (files : Artifacts) (lines : List String)
    → write_env d ≡ ok lines
    → Agrees (done (record (set_topology d files) { env = some lines })).files
unfolding done set_topology
written d files lines q = record {
  document = d;
  lines = lines;
  has_document = refl;
  has_hosts = stored-KeepsHosts d;
  has_lines = refl;
  same = q;
}

Agrees-inventory :
    (environ : Environ) (d : Resolved) (files : Artifacts) (lines : List String)
    → Agrees files
    → Agrees
        (done (record files { inventory = some lines; playbook = some (write_playbook d) })).files
unfolding done
Agrees-inventory environ d files lines h = record {
  document = h.document;
  lines = h.lines;
  has_document = h.has_document;
  has_hosts = h.has_hosts;
  has_lines = h.has_lines;
  same = h.same;
}

write_both-Agrees :
    (d : Resolved) (files : Artifacts)
    → (write_both d files).result ≡ ok tt
    → Agrees (write_both d files).files
unfolding write_both
write_both-Agrees d files h =
    let (lines, q, end) = then_files-ok (set_topology d files) (write_env d) _ h in
    subst (λ (l : Left). Agrees l.files) (sym end) (written d files lines q)

issue-Agrees :
    (environ : Environ) (c : Command) (files : Artifacts)
    → (issue environ c files).result ≡ ok tt
    → (c ≡ ansible → Agrees files)
    → Agrees (issue environ c files).files
unfolding issue cmd_render cmd_update_ips cmd_ansible
issue-Agrees environ (render_file path dataplane source) files h before =
    let (d, q, end) =
      then_files-ok files (render environ path (previous_document files) dataplane source) _ h in
    subst (λ (l : Left). Agrees l.files) (sym end)
      (write_both-Agrees d files (ap (λ l. l.result) (sym end) ∙ h))
issue-Agrees environ (update host_ip) files h before =
    let (d, q, end) = then_files-ok files (load_resolved files) _ h in
    let h' = ap (λ (l : Left). l.result) (sym end) ∙ h in
    let (hosts, q', end') = then_files-ok files (update_ips d.hosts host_ip) _ h' in
    subst (λ (l : Left). Agrees l.files) (sym (end ∙ end'))
      (write_both-Agrees (record d { hosts = hosts }) files
        (ap (λ (l : Left). l.result) (sym end') ∙ h'))
issue-Agrees environ ansible files h before =
    let (d, q, end) = then_files-ok files (load_resolved files) _ h in
    let h' = ap (λ (l : Left). l.result) (sym end) ∙ h in
    let (u, q', end') = then_files-ok files (require_ips d.hosts) _ h' in
    let h'' = ap (λ (l : Left). l.result) (sym end') ∙ h' in
    let (lines, q'', end'') = then_files-ok files (write_inventory environ d) _ h'' in
    subst (λ (l : Left). Agrees l.files) (sym (end ∙ end' ∙ end''))
      (Agrees-inventory environ d files lines (before refl))

issue_all-Agrees :
    (environ : Environ) (cs : List Command) (files : Artifacts)
    → (issue_all environ cs files).result ≡ ok tt
    → Agrees files
    → Agrees (issue_all environ cs files).files
unfolding issue_all done
issue_all-Agrees environ [] files h agrees = agrees
issue_all-Agrees environ (c ∷ cs) files h agrees =
    let next = (issue environ c files).files in
    let (u, q, end) = then_files-ok next (issue environ c files).result _ h in
    subst (λ (l : Left). Agrees l.files) (sym end)
      (issue_all-Agrees environ cs next (ap (λ (l : Left). l.result) (sym end) ∙ h)
        (issue-Agrees environ c files q (λ _. agrees)))

-- After a session of commands that all finish, of which the first is `render`, topology.json and
-- topology.env are of one document: topology.json holds it with the keys of its mappings sorted,
-- with each of its hosts under its name, with that host's name, VM id and VM name, and
-- topology.env has the lines that `write_env` makes of it.
pub session-Agrees :
    (environ : Environ) (path : String) (dataplane : Option String) (source : Value)
    (cs : List Command) (files : Artifacts)
    → (issue_all environ (render_file path dataplane source ∷ cs) files).result ≡ ok tt
    → Agrees (issue_all environ (render_file path dataplane source ∷ cs) files).files
unfolding issue_all
session-Agrees environ path dataplane source cs files h =
    let c = render_file path dataplane source in
    let next = (issue environ c files).files in
    let (u, q, end) = then_files-ok next (issue environ c files).result _ h in
    subst (λ (l : Left). Agrees l.files) (sym end)
      (issue_all-Agrees environ cs next (ap (λ (l : Left). l.result) (sym end) ∙ h)
        (issue-Agrees environ c files q (λ e. absurd (cc))))
