-- ===== src/Render/ControlPlane/Peers.antt =====
-- The peers that `resolve_control_plane` of scripts/render-topology.py gives each VTEP host.
use Prim.Native.String.{String}
use pulsaros_testbed.Prelude.{
  List, [], ◌∷◌, true, false, ◌&&◌, not, ◌==◌, eq_iff, eq_refl, ◌≡◌, refl, sym, ap, arith, select,
  any, Bool-cases, inl, inr, keys, ◌∙◌, map, Dict, get, some, each, ok, >>=-elim, ok-injective,
  subst,
}
use pulsaros_testbed.Order.{in_texts, sorted_set, in_texts-sorted_set}
use pulsaros_testbed.Render.ControlPlane.Defs.{
  Peering, full_mesh, route_reflector, Evpn, others, peer_hosts, spokes, Peer, HostControl,
  Underlay, peer_of, host_control, control_hosts, ControlPlane, evpn, resolve_control_plane,
  vtep_underlays,
}
use pulsaros_testbed.Render.Segments.{Segments}

pub in_texts-others :
    (s host : String) (hosts : List String)
    → in_texts s (others host hosts) ≡ (in_texts s hosts && not (host == s))
unfolding others in_texts select any
in_texts-others s host [] = refl
in_texts-others s host (h ∷ hs) =
    ground (arith, eq_iff h host, eq_iff h s, eq_iff host s, in_texts-others s host hs)

module _ (rrs vteps : List String) where
  spokes-irreflexive :
      (p : Peering) (host : String) → in_texts host (spokes p rrs vteps host) ≡ false
  unfolding spokes
  spokes-irreflexive full_mesh host = ground (arith, in_texts-others host host vteps, eq_refl host)
  spokes-irreflexive route_reflector host =
      ground (arith, in_texts-others host host vteps, eq_refl host, in_texts-sorted_set host rrs)

  spokes-symmetric :
      (p : Peering) (a b : String)
      → in_texts a vteps ≡ true
      → in_texts b vteps ≡ true
      → in_texts b (spokes p rrs vteps a) ≡ in_texts a (spokes p rrs vteps b)
  unfolding spokes
  spokes-symmetric full_mesh a b ha hb =
      ground (arith, in_texts-others b a vteps, in_texts-others a b vteps, eq_iff a b, eq_iff b a)
  spokes-symmetric route_reflector a b ha hb = ground (
    arith,
    in_texts-others b a vteps,
    in_texts-others a b vteps,
    in_texts-sorted_set b rrs,
    in_texts-sorted_set a rrs,
    eq_iff a b,
    eq_iff b a,
  )

-- The names of the peers.
abbrev pub names : List Peer → List String
names ps = map (λ p. p.host) ps

module _ (c : Evpn) (segments : Segments) (underlays : Dict Underlay) (vteps : List String) where
  peers-names :
      (host : String) (hs : List String) (ps : List Peer)
      → each (peer_of c underlays host) hs ≡ ok ps
      → names ps ≡ hs
  unfolding each peer_of
  peers-names host [] ps h = ground arith
  peers-names host (x ∷ xs) ps h = >>=-elim (peer_of c underlays host x) _ h λ p q rest.
      >>=-elim (each (peer_of c underlays host) xs) _ rest
        λ more q' done. let tail = peers-names host xs more q' in ground arith

  host_control-names :
      (host : String) (h : HostControl)
      → host_control c segments underlays vteps host ≡ ok h
      → names h.peers ≡ peer_hosts c vteps host
  unfolding host_control
  host_control-names host h e =
      >>=-elim (each (peer_of c underlays host) (peer_hosts c vteps host)) _ e
        λ ps q rest. let named = peers-names host (peer_hosts c vteps host) ps q in ground arith

  control_hosts-names :
      (hs : List String) (d : Dict HostControl)
      → control_hosts c segments underlays vteps hs ≡ ok d
      → (host : String) (h : HostControl) → get host d ≡ some h
      → (names h.peers ≡ peer_hosts c vteps host) × (in_texts host hs ≡ true)
  unfolding control_hosts get in_texts any
  control_hosts-names [] d e host h g = let same : [] ≡ d = ok-injective e in ground arith
  control_hosts-names (x ∷ xs) d e host h g =
      >>=-elim (host_control c segments underlays vteps x) _ e λ hc q rest.
        >>=-elim (control_hosts c segments underlays vteps xs) _ rest λ more q' done.
          let g' : get host ((x, hc) ∷ more) ≡ some h =
            subst (λ l. get host l ≡ some h) (sym (ok-injective done)) g in
          let head = host_control-names x hc q in
          let tail = control_hosts-names xs more q' host h in
          elim (Bool-cases (x == host)) [
            | inl same ↦ ground (arith, eq_iff x host)
            | inr apart ↦ let (named, listed) = tail (ground arith) in (named, ground arith)
          ]

evpn-injective :
    (c : Evpn) (a b : Dict HostControl) → ◌≡◌ {A = ControlPlane} (evpn c a) (evpn c b) → a ≡ b
evpn-injective c a b h = cc

-- In a resolved control plane no host peers with itself, and where one host peers with another,
-- that one peers with it.
pub resolve_control_plane-symmetric :
    (c : Evpn) (segments : Segments) (d : Dict HostControl)
    → resolve_control_plane (evpn c) segments ≡ ok (evpn c d)
    → (a b : String) (ha hb : HostControl) → get a d ≡ some ha
    → get b d ≡ some hb
    → (in_texts a (names ha.peers) ≡ false)
      × (in_texts b (names ha.peers) ≡ in_texts a (names hb.peers))
unfolding resolve_control_plane peer_hosts
resolve_control_plane-symmetric c segments d e a b ha hb ga gb =
    >>=-elim (vtep_underlays segments) _ e λ underlays q rest.
      let vteps = sorted_set (keys underlays) in
      >>=-elim (control_hosts c segments underlays vteps vteps) _ rest λ hosts q' done.
        let same : hosts ≡ d = evpn-injective c hosts d (ok-injective done) in
        let names_of = control_hosts-names c segments underlays vteps vteps hosts q' in
        let (na, la) = names_of a ha (subst (λ l. get a l ≡ some ha) (sym same) ga) in
        let (nb, lb) = names_of b hb (subst (λ l. get b l ≡ some hb) (sym same) gb) in
        (
          ap (in_texts a) na ∙ spokes-irreflexive c.route_reflectors vteps c.peering a,
          ap (in_texts b) na
              ∙ spokes-symmetric c.route_reflectors vteps c.peering a b la lb
              ∙ sym (ap (in_texts a) nb),
        )
