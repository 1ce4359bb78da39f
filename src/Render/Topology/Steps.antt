-- ===== src/Render/Topology/Steps.antt =====
-- A successful `render` ran each of its steps with success.
use Prim.Native.String.{String, ◌++◌}
use pulsaros_testbed.Number.{pos}
use pulsaros_testbed.Prelude.{
  ℕ, List, [], ap, Option, none, ◌≡◌, refl, arith, ok, >>=-elim, ok-injective, die_if, not, eqb,
  some, ◌||◌, subst, each, ◌==◌, ◌<◌,
}
use pulsaros_testbed.Value.{
  Value, null, bool, int, float, str, value_eq, list, nil, dict, Fields, end, field, items,
  get_field, get_or, field?,
}
use pulsaros_testbed.Render.Env.{Environ, env_int, env_str}
use pulsaros_testbed.Render.Unique.{validate_unique}
use pulsaros_testbed.Render.Dataplane.{resolve_dataplane, filter_for_dataplane}
use pulsaros_testbed.Render.Hosts.{Hosts}
use pulsaros_testbed.Render.Segments.{validate_segments, resolve_segments}
use pulsaros_testbed.Render.ControlPlane.{Requested, validate_control_plane, resolve_control_plane}
use pulsaros_testbed.Render.Checks.{validate_checks}
use pulsaros_testbed.Render.Faults.{validate_faults}
use pulsaros_testbed.Render.Tokens.{Scope, resolve_tokens}
use pulsaros_testbed.Render.Topology.Build.{
  Run, base as first_vmid, build_networks, build_hosts, all_mac_offsets,
}
use pulsaros_testbed.Render.Topology.Document.{
  Base, Overlay, Intent, render_base, render_overlay, render_intent, Resolved, nonempty_dict, found,
  pluck, previous_hosts, requested_control_plane, render_qinq, render_run, render,
}

nonempty_dict-lem :
    (message : String) (v : Value) (fs : Fields) → nonempty_dict message v ≡ ok fs → v ≡ dict fs
nonempty_dict-lem message (dict (field k v gs)) fs h = ap dict (ok-injective h)
nonempty_dict-lem message (dict end) fs h = ground arith
nonempty_dict-lem message null fs h = ground arith
nonempty_dict-lem message (bool b) fs h = ground arith
nonempty_dict-lem message (int z) fs h = ground arith
nonempty_dict-lem message (float z k) fs h = ground arith
nonempty_dict-lem message (str s) fs h = ground arith
nonempty_dict-lem message (list vs) fs h = ground arith

-- The intermediate values of `render_base`, with the calls that gave them.
pub record BaseSteps (run : Run) (previous : Option Value) (source : Fields) (b : Base)
    : Type 0 where
  pub raw_networks : Fields
  pub raw_hosts : Fields
  pub hosts_given : get_field "hosts" source ≡ dict raw_hosts
  pub prefixes : List Value
  pub offsets : List Value
  pub before : Value
  pub pluck_prefixes : pluck "vnet_prefix" raw_networks ≡ ok prefixes
  pub prefixes_unique : validate_unique prefixes "network vnet_prefix" ≡ ok tt
  pub pluck_offsets : pluck "vmid_offset" raw_hosts ≡ ok offsets
  pub offsets_unique : validate_unique offsets "host vmid_offset" ≡ ok tt
  pub networks_built : build_networks run [] raw_networks ≡ ok b.networks
  pub hosts_built : build_hosts run b.networks before [] raw_hosts ≡ ok b.hosts
  pub macs_unique : validate_unique (all_mac_offsets b.hosts) "mac_offset" ≡ ok tt

pub render_base-Steps :
    (run : Run) (previous : Option Value) (source : Fields) (b : Base)
    → render_base run previous source ≡ ok b
    → BaseSteps run previous source b
unfolding render_base
render_base-Steps run previous source b e0 =
    >>=-elim (nonempty_dict "topology must define networks" (get_field "networks" source)) _ e0
      λ raw_networks _ e1.
        >>=-elim (nonempty_dict "topology must define hosts" (get_field "hosts" source)) _ e1
          λ raw_hosts q2 e2. >>=-elim (pluck "vnet_prefix" raw_networks) _ e2 λ prefixes q3 e3.
            >>=-elim (validate_unique prefixes "network vnet_prefix") _ e3 λ _ q4 e4.
              >>=-elim (pluck "vmid_offset" raw_hosts) _ e4 λ offsets q5 e5.
                >>=-elim (validate_unique offsets "host vmid_offset") _ e5 λ _ q6 e6.
                  >>=-elim (build_networks run [] raw_networks) _ e6 λ networks q7 e7.
                    >>=-elim (previous_hosts previous run.run_id) _ e7 λ before _ e8.
                      >>=-elim (build_hosts run networks before [] raw_hosts) _ e8 λ hosts q9 e9.
                        >>=-elim (validate_unique (all_mac_offsets hosts) "mac_offset") _ e9
                          λ _ q10 e10.
                            subst (BaseSteps run previous source) (ok-injective e10) (record {
                              raw_networks = raw_networks;
                              raw_hosts = raw_hosts;
                              hosts_given =
                                  nonempty_dict-lem _ (get_field "hosts" source) raw_hosts q2;
                              prefixes = prefixes;
                              offsets = offsets;
                              before = before;
                              pluck_prefixes = q3;
                              prefixes_unique = q4;
                              pluck_offsets = q5;
                              offsets_unique = q6;
                              networks_built = q7;
                              hosts_built = q9;
                              macs_unique = q10;
                            })

pub record OverlaySteps (hosts : Hosts) (dataplane : String) (source : Fields) (o : Overlay)
    : Type 0 where
  pub segments : Fields
  pub requested : Requested
  pub segments_valid : validate_segments hosts (get_or "segments" (dict end) source) ≡ ok segments
  pub segments_resolved : resolve_segments hosts segments ≡ ok o.segments
  pub plane_valid :
      validate_control_plane hosts o.segments (requested_control_plane dataplane source)
      ≡ ok requested
  pub plane_resolved : resolve_control_plane requested o.segments ≡ ok o.control_plane

pub render_overlay-Steps :
    (hosts : Hosts) (dataplane : String) (source : Fields) (o : Overlay)
    → render_overlay hosts dataplane source ≡ ok o
    → OverlaySteps hosts dataplane source o
unfolding render_overlay
render_overlay-Steps hosts dataplane source o e0 =
    >>=-elim (validate_segments hosts (get_or "segments" (dict end) source)) _ e0 λ segments q1 e1.
      >>=-elim (resolve_segments hosts segments) _ e1 λ resolved q2 e2.
        >>=-elim (validate_control_plane hosts resolved (requested_control_plane dataplane source))
          _ e2
          λ requested q3 e3. >>=-elim (found (field? "name" source)) _ e3 λ name _ e4.
            >>=-elim (resolve_control_plane requested resolved) _ e4 λ plane q5 e5.
              subst (OverlaySteps hosts dataplane source) (ok-injective e5) (record {
                segments = segments;
                requested = requested;
                segments_valid = q1;
                segments_resolved = q2;
                plane_valid = q3;
                plane_resolved = q5;
              })

pub record IntentSteps (b : Base) (o : Overlay) (dataplane : String) (source : Fields) (i : Intent)
    : Type 0 where
  pub raw_checks : List Value
  pub raw_faults : List Value
  pub checks : List Value
  pub faults : List Value
  pub checks_filtered :
      filter_for_dataplane (get_or "checks" (list nil) source) dataplane "check" ≡ ok raw_checks
  pub checks_valid :
      validate_checks b.hosts (list (items raw_checks)) o.segments o.control_plane ≡ ok checks
  pub checks_resolved :
      each (resolve_tokens (record { hosts = b.hosts; networks = b.networks }) none) checks
      ≡ ok i.checks
  pub faults_filtered :
      filter_for_dataplane (get_or "faults" (list nil) source) dataplane "fault" ≡ ok raw_faults
  pub faults_valid :
      validate_faults (list (items raw_faults)) o.segments o.control_plane ≡ ok faults
  pub faults_resolved :
      each (resolve_tokens (record { hosts = b.hosts; networks = b.networks }) none) faults
      ≡ ok i.faults

pub render_intent-Steps :
    (b : Base) (o : Overlay) (dataplane : String) (source : Fields) (i : Intent)
    → render_intent b o dataplane source ≡ ok i
    → IntentSteps b o dataplane source i
unfolding render_intent
render_intent-Steps b o dataplane source i e0 =
    let scope : Scope = record { hosts = b.hosts; networks = b.networks } in
    >>=-elim (filter_for_dataplane (get_or "checks" (list nil) source) dataplane "check") _ e0
      λ raw_checks q1 e1.
        >>=-elim (validate_checks b.hosts (list (items raw_checks)) o.segments o.control_plane) _ e1
          λ checks q2 e2. >>=-elim (each (resolve_tokens scope none) checks) _ e2 λ rc q3 e3.
            >>=-elim (filter_for_dataplane (get_or "faults" (list nil) source) dataplane "fault") _
              e3
              λ raw_faults q4 e4.
                >>=-elim (validate_faults (list (items raw_faults)) o.segments o.control_plane) _ e4
                  λ faults q5 e5.
                    >>=-elim (each (resolve_tokens scope none) faults) _ e5 λ rf q6 e6.
                      subst (IntentSteps b o dataplane source) (ok-injective e6) (record {
                        raw_checks = raw_checks;
                        raw_faults = raw_faults;
                        checks = checks;
                        faults = faults;
                        checks_filtered = q1;
                        checks_valid = q2;
                        checks_resolved = q3;
                        faults_filtered = q4;
                        faults_valid = q5;
                        faults_resolved = q6;
                      })

abbrev pub base_of : Resolved → Base
base_of r = record { networks = r.networks; hosts = r.hosts }

abbrev pub overlay_of : Resolved → Overlay
overlay_of r = record { name = r.name; segments = r.segments; control_plane = r.control_plane }

abbrev pub intent_of : Resolved → Intent
intent_of r = record { checks = r.checks; faults = r.faults }

-- A document that `render_run` returns, with the calls that made it.
pub record Steps (run : Run) (dataplane : String) (vlan_base vlan_count : ℕ)
    (previous : Option Value) (source : Fields) (r : Resolved) : Type 0 where
  pub same_run : r.run_id ≡ run.run_id
  pub same_base : r.base ≡ first_vmid run
  pub base : render_base run previous source ≡ ok (base_of r)
  pub overlay : render_overlay r.hosts dataplane source ≡ ok (overlay_of r)
  pub qinq : render_qinq run vlan_base vlan_count ≡ ok r.qinq
  pub intent : render_intent (base_of r) (overlay_of r) dataplane source ≡ ok (intent_of r)

pub render_run-Steps :
    (run : Run) (mode dataplane : String) (vb vc : ℕ) (previous : Option Value) (source : Fields)
    (r : Resolved)
    → render_run run mode dataplane vb vc previous source ≡ ok r
    → Steps run dataplane vb vc previous source r
unfolding render_run
render_run-Steps run mode dataplane vb vc previous source r e0 =
    >>=-elim (render_base run previous source) _ e0 λ b q1 e1.
      >>=-elim (render_overlay b.hosts dataplane source) _ e1 λ o q2 e2.
        >>=-elim (render_qinq run vb vc) _ e2 λ qinq q3 e3.
          >>=-elim (render_intent b o dataplane source) _ e3 λ i q4 e4.
            subst (Steps run dataplane vb vc previous source) (ok-injective e4) (record {
              same_run = refl;
              same_base = refl;
              base = q1;
              overlay = q2;
              qinq = q3;
              intent = q4;
            })

-- What `render` read before the body.
pub record Rendered (environ : Environ) (previous : Option Value) (v : Value) (r : Resolved)
    : Type 0 where
  pub run : Run
  pub dataplane : String
  pub vlan_base : ℕ
  pub vlan_count : ℕ
  pub source : Fields
  pub loaded : v ≡ dict source
  pub count_pos : 0 < vlan_count
  pub run_read : env_int environ "RUN_ID" none ≡ ok run.run_id
  pub base_read : env_int environ "QINQ_SERVICE_VLAN_BASE" (some 3000) ≡ ok vlan_base
  pub count_read : env_int environ "QINQ_SERVICE_VLAN_COUNT" (some 500) ≡ ok vlan_count
  pub steps : Steps run dataplane vlan_base vlan_count previous source r

pub render-Rendered :
    (environ : Environ) (path : String) (previous : Option Value) (option : Option String)
    (v : Value) (r : Resolved)
    → render environ path previous option v ≡ ok r
    → Rendered environ previous v r
unfolding render
render-Rendered environ path previous option (dict source) r e0 =
    >>=-elim
      (die_if (not (value_eq (get_field "schema_version" source) (int (pos 1))))
        "only topology schema_version 1 is supported")
      _ e0
      λ _ _ e1. >>=-elim (resolve_dataplane environ option) _ e1 λ dataplane _ e2.
        >>=-elim (env_int environ "RUN_ID" none) _ e2 λ run_id run_read e3.
          >>=-elim (env_str environ "NETWORK_MODE" (some "qinq")) _ e3 λ mode _ e4.
            >>=-elim
              (die_if (not (mode == "qinq" || mode == "bridge"))
                ("NETWORK_MODE must be qinq or bridge, got: " ++ mode))
              _ e4
              λ _ _ e5.
                >>=-elim (env_int environ "QINQ_SERVICE_VLAN_BASE" (some 3000)) _ e5
                  λ vb base_read e6.
                    >>=-elim (env_int environ "QINQ_SERVICE_VLAN_COUNT" (some 500)) _ e6
                      λ vc count_read e7.
                        >>=-elim
                          (die_if (eqb vc 0) "QINQ_SERVICE_VLAN_COUNT must be greater than zero") _
                          e7
                          λ _ count e8. record {
                            run = record {
                              environ = environ;
                              run_id = run_id;
                              qinq = mode == "qinq";
                            };
                            dataplane = dataplane;
                            vlan_base = vb;
                            vlan_count = vc;
                            source = source;
                            loaded = refl;
                            count_pos = ground arith;
                            run_read = run_read;
                            base_read = base_read;
                            count_read = count_read;
                            steps = render_run-Steps _ mode dataplane vb vc previous source r e8;
                          }
render-Rendered environ path previous option null r e = ground arith
render-Rendered environ path previous option (bool b) r e = ground arith
render-Rendered environ path previous option (int z) r e = ground arith
render-Rendered environ path previous option (float z k) r e = ground arith
render-Rendered environ path previous option (str s) r e = ground arith
render-Rendered environ path previous option (list vs) r e = ground arith
