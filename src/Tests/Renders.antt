-- ===== src/Tests/Renders.antt =====
-- `render` at the sample topology, and the theorems about it there.
use pulsaros_testbed.Prelude.{
  ◌≡◌, ◌≢◌, All, values, ◌≤◌, ◌<◌, ◌+◌, refl, true, false, Bool, none, some, Outcome, Dict, map,
  AllPairs,
}
use pulsaros_testbed.Prelude.{get}
use pulsaros_testbed.Order.{in_texts}
use pulsaros_testbed.Value.{dict, Fields, get_field}
use pulsaros_testbed.Render.Env.{env_int}
use pulsaros_testbed.Render.Topology.{nics_of, render}
use pulsaros_testbed.Render.Topology.{Resolved, Qinq}
use pulsaros_testbed.Render.Topology.Macs.{render-macs}
use pulsaros_testbed.Render.Topology.Overlays.{render-segments, render-peers}
use pulsaros_testbed.Render.Topology.VmIds.{Numbered}
use pulsaros_testbed.Render.Topology.Bounds.{render-bounds}
use pulsaros_testbed.Render.Segments.Vnis.{AreWellFormed}
use pulsaros_testbed.Render.ControlPlane.{Evpn, evpn, static, ControlPlane, HostControl}
use pulsaros_testbed.Render.ControlPlane.Peers.{names}
use pulsaros_testbed.Tests.Program.{program}
use pulsaros_testbed.Tests.Sample.{
  succeeds, value, value-ok, is_some, content, content-some, false-true, topology, environ,
}

abbrev rendered : Outcome Resolved
rendered = render environ "pair.yml" none none topology

pub renders : succeeds rendered ≡ true
unfolding program
renders = refl

abbrev pub document : Resolved
document = value rendered renders

render-macs_example : AllPairs ◌≢◌ (map (λ n. n.mac) (nics_of document.hosts))
render-macs_example =
    render-macs environ "pair.yml" none none topology document (value-ok rendered renders)

render-segments_example : AreWellFormed document.segments
render-segments_example =
    render-segments environ "pair.yml" none none topology document (value-ok rendered renders)

abbrev plane : ControlPlane → Bool
plane (evpn c d) = true
plane static = false

abbrev controller : (p : ControlPlane) → plane p ≡ true → Evpn
controller (evpn c d) h = c
controller static h = absurd (false-true h)

abbrev controlled : (p : ControlPlane) → plane p ≡ true → Dict HostControl
controlled (evpn c d) h = d
controlled static h = absurd (false-true h)

plane-eq : (p : ControlPlane) (h : plane p ≡ true) → p ≡ evpn (controller p h) (controlled p h)
plane-eq (evpn c d) h = refl
plane-eq static h = absurd (false-true h)

is_evpn_document : plane document.control_plane ≡ true
unfolding program
is_evpn_document = refl

abbrev hosts : Dict HostControl
hosts = controlled document.control_plane is_evpn_document

has_a : is_some (get "a" hosts) ≡ true
unfolding program
has_a = refl

has_b : is_some (get "b" hosts) ≡ true
unfolding program
has_b = refl

render-peers_example :
    (in_texts "a" (names (content (get "a" hosts) has_a).peers) ≡ false)
    × (in_texts "b" (names (content (get "a" hosts) has_a).peers)
        ≡ in_texts "a" (names (content (get "b" hosts) has_b).peers))
render-peers_example =
    render-peers environ "pair.yml" none none topology document
      (controller document.control_plane is_evpn_document) hosts (value-ok rendered renders)
      (plane-eq document.control_plane is_evpn_document) "a" "b" (content (get "a" hosts) has_a)
      (content (get "b" hosts) has_b) (content-some (get "a" hosts) has_a)
      (content-some (get "b" hosts) has_b)

render-bounds_example :
    ((200000 ≤ document.base) × (document.base < 250000))
    × ((source : Fields) × (raw : Fields) × (topology ≡ dict source)
        × (get_field "hosts" source ≡ dict raw)
        × All (Numbered document.base raw) (values document.hosts))
    × ((q : Qinq)
        → document.qinq ≡ some q
        → (3000 ≤ q.service_vlan) × (q.service_vlan < 3000 + 500))
unfolding get env_int
render-bounds_example =
    render-bounds environ "pair.yml" none none topology document 3000 500 refl refl
      (value-ok rendered renders)
