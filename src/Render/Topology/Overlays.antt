-- ===== src/Render/Topology/Overlays.antt =====
-- The segments and the control plane of a document that `render` of scripts/render-topology.py
-- returns.
use Prim.Native.String.{String}
use pulsaros_testbed.Prelude.{
  ◌≡◌, subst, ap, Dict, get, keys, Option, some, Outcome, ok, false, ◌∙◌, >>=-elim,
}
use pulsaros_testbed.Order.{in_texts, sorted_set}
use pulsaros_testbed.Value.{Value, end, dict, get_or}
use pulsaros_testbed.Render.Env.{Environ}
use pulsaros_testbed.Render.Segments.Vnis.{AreWellFormed, resolve_segments-AreWellFormed}
use pulsaros_testbed.Render.ControlPlane.{
  Evpn, Requested, static, evpn, HostControl, ControlPlane, resolve_control_plane, vtep_underlays,
  control_hosts,
}
use pulsaros_testbed.Render.ControlPlane.Peers.{names, resolve_control_plane-symmetric}
use pulsaros_testbed.Render.Topology.{Resolved, render}
use pulsaros_testbed.Render.Topology.Steps.{render-Rendered, render_overlay-Steps, overlay_of}

static-evpn :
    (c : Evpn) (d : Dict HostControl)
    → ◌≡◌ {A = Outcome ControlPlane} (ok static) (ok (evpn c d))
    → ⊥
static-evpn c d e = cc

evpn-injective :
    (c c' : Evpn) (d d' : Dict HostControl)
    → ◌≡◌ {A = Outcome ControlPlane} (ok (evpn c d)) (ok (evpn c' d'))
    → c ≡ c'
evpn-injective c c' d d' e = cc

module _ (environ : Environ) (path : String) (previous : Option Value) (option : Option String)
    (v : Value) (r : Resolved) where
  -- In a document that `render` returns every segment is well formed (a VNI from 1 to 16777215, at
  -- least two VTEPs, on different hosts), and no two segments have one VNI.
  pub render-segments : render environ path previous option v ≡ ok r → AreWellFormed r.segments
  render-segments h =
      let p = render-Rendered environ path previous option v r h in
      let q = render_overlay-Steps r.hosts p.dataplane p.source (overlay_of r) p.steps.overlay in
      resolve_segments-AreWellFormed r.hosts (get_or "segments" (dict end) p.source) q.segments
        r.segments q.segments_valid q.segments_resolved

  resolved-symmetric :
      (asked : Requested) (c : Evpn) (d : Dict HostControl)
      → resolve_control_plane asked r.segments ≡ ok (evpn c d)
      → (a b : String) (ha hb : HostControl) → get a d ≡ some ha
      → get b d ≡ some hb
      → (in_texts a (names ha.peers) ≡ false)
        × (in_texts b (names ha.peers) ≡ in_texts a (names hb.peers))
  unfolding resolve_control_plane
  resolved-symmetric static c d e a b ha hb ga gb = absurd (static-evpn c d e)
  resolved-symmetric (evpn c') c d e a b ha hb ga gb =
      >>=-elim (vtep_underlays r.segments) _ e λ underlays _ rest.
        >>=-elim
          (control_hosts c' r.segments underlays (sorted_set (keys underlays))
            (sorted_set (keys underlays)))
          _ rest
          λ hosts _ done.
            let same : c' ≡ c = evpn-injective c' c hosts d done in
            resolve_control_plane-symmetric c r.segments d
              (unfold resolve_control_plane in
                subst (λ x. resolve_control_plane (evpn x) r.segments ≡ ok (evpn c d)) same e)
              a b ha hb ga gb

  -- In a document that `render` returns with an EVPN control plane, no host peers with itself, and
  -- a host peers with another exactly if that one peers with it.
  pub render-peers :
      (c : Evpn) (d : Dict HostControl)
      → render environ path previous option v ≡ ok r
      → r.control_plane ≡ evpn c d
      → (a b : String) (ha hb : HostControl) → get a d ≡ some ha
      → get b d ≡ some hb
      → (in_texts a (names ha.peers) ≡ false)
        × (in_texts b (names ha.peers) ≡ in_texts a (names hb.peers))
  render-peers c d h plane =
      let p = render-Rendered environ path previous option v r h in
      let q = render_overlay-Steps r.hosts p.dataplane p.source (overlay_of r) p.steps.overlay in
      resolved-symmetric q.requested c d (q.plane_resolved ∙ ap ok plane)
