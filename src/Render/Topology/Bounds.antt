-- ===== src/Render/Topology/Bounds.antt =====
-- The numbers that a run id gives: the base of the VM ids and the service VLAN.
use Prim.Native.String.{String}
use native.Mathlib.Nat.{mod-lt}
use pulsaros_testbed.Prelude.{
  ℕ, ◌+◌, ◌%◌, ◌<◌, ◌≤◌, ◌≡◌, sym, subst, arith, [], All, values, Option, some, Outcome, ok,
  ok-injective, ap, ◌∙◌,
}
use pulsaros_testbed.Value.{Value, dict, Fields, get_field}
use pulsaros_testbed.Render.Env.{Environ, env_int}
use pulsaros_testbed.Render.Topology.{Run, base, Qinq, Resolved, render, render_qinq}
use pulsaros_testbed.Render.Topology.Steps.{base_of, render_base-Steps, render-Rendered}
use pulsaros_testbed.Render.Topology.VmIds.{Numbered, build_hosts-Numbered}

base-bounds : (run : Run) → (200000 ≤ base run) × (base run < 250000)
base-bounds run = omega arith

some-injective : {p q : Qinq} → ◌≡◌ {A = Outcome (Option Qinq)} (ok (some p)) (ok (some q)) → p ≡ q
some-injective e = cc

service_vlan-eq :
    (run : Run) (vb vc : ℕ) (q : Qinq)
    → render_qinq run vb vc ≡ ok (some q)
    → q.service_vlan ≡ vb + run.run_id % vc
unfolding render_qinq
service_vlan-eq run vb vc q h = ground arith

render_qinq-bounds :
    (run : Run) (vb vc : ℕ) (q : Qinq)
    → 0 < vc
    → render_qinq run vb vc ≡ ok (some q)
    → (vb ≤ q.service_vlan) × (q.service_vlan < vb + vc)
render_qinq-bounds run vb vc q p h =
    let below = mod-lt run.run_id p in
    let same = service_vlan-eq run vb vc q h in
    (
      subst (λ x. vb ≤ x) (sym same) (omega arith),
      subst (λ x. x < vb + vc) (sym same) (omega arith),
    )

-- In a document that `render` returns the base is at least 200000 and less than 250000, and each
-- host is declared in the topology file with an offset, and its VM id is the base plus that
-- offset; where the environment gives the service VLANs `first` and `count`, a QinQ service VLAN
-- is at least `first` and less than `first + count`.
pub render-bounds :
    (environ : Environ) (path : String) (previous : Option Value) (option : Option String)
    (v : Value) (r : Resolved) (first count : ℕ)
    → env_int environ "QINQ_SERVICE_VLAN_BASE" (some 3000) ≡ ok first
    → env_int environ "QINQ_SERVICE_VLAN_COUNT" (some 500) ≡ ok count
    → render environ path previous option v ≡ ok r
    → ((200000 ≤ r.base) × (r.base < 250000))
      × ((source : Fields) × (raw : Fields) × (v ≡ dict source)
          × (get_field "hosts" source ≡ dict raw)
          × All (Numbered r.base raw) (values r.hosts))
      × ((q : Qinq) → r.qinq ≡ some q → (first ≤ q.service_vlan) × (q.service_vlan < first + count))
unfolding values
render-bounds environ path previous option v r first count a b h =
    let p = render-Rendered environ path previous option v r h in
    let q = render_base-Steps p.run previous p.source (base_of r) p.steps.base in
    let first_same : p.vlan_base ≡ first = ok-injective (sym p.base_read ∙ a) in
    let count_same : p.vlan_count ≡ count = ok-injective (sym p.count_read ∙ b) in
    (
      subst (λ x. (200000 ≤ x) × (x < 250000)) (sym p.steps.same_base) (base-bounds p.run),
      (
        p.source,
        q.raw_hosts,
        p.loaded,
        q.hosts_given,
        subst (λ x. All (Numbered x q.raw_hosts) (values r.hosts)) (sym p.steps.same_base)
            (build_hosts-Numbered p.run r.networks q.before q.raw_hosts [] q.raw_hosts r.hosts
              (λ name v k. k) tt q.hosts_built),
      ),
      λ q e.
          let bounds =
            render_qinq-bounds p.run p.vlan_base p.vlan_count q p.count_pos
              (p.steps.qinq ∙ ap ok e) in
          subst (λ x. (x ≤ q.service_vlan) × (q.service_vlan < x + count)) first_same
            (subst (λ y. (p.vlan_base ≤ q.service_vlan) × (q.service_vlan < p.vlan_base + y))
              count_same bounds),
    )
