-- ===== src/Tests/Program.antt =====
-- The definitions that a run of scripts/render-topology.py computes with.
use pulsaros_testbed.Prelude.{any, all, select, get, put, has, keys, values, each, loop, enumerate}
use pulsaros_testbed.Text.{
  digit, spell, show_in, show_ℕ, show_ℤ, zeros, pad, show_hex2, is_digit, is_lower, is_name_tail,
  is_name, is_prefix_tail, is_vnet_prefix, before, after, has_char, strip_prefix, has_text,
  digits_only, numeric, is_space, all_space, digits_tail, unsigned, negated, positive, parse_int,
}
use pulsaros_testbed.Order.{insert_text, sorted_set, insert_number, sorted_numbers, join, in_texts}
use pulsaros_testbed.Value.{
  to_int, get_or, get_field, has_field, put_field, without_field, as_dict, iterate, hashable,
  in_keys, truthy, is_blank, is_str, number_of, same_number, field?, size, value_eq, items_eq,
  fields_eq, py_str, repr, repr_items, repr_fields,
}
use pulsaros_testbed.Render.Env.{env_int, env_str, mac_for}
use pulsaros_testbed.Render.Unique.{unique_from, validate_unique}
use pulsaros_testbed.Render.Dataplane.{
  is_dataplane, resolve_dataplane, supports, selects, filter_item, filter_from,
  filter_for_dataplane,
}
use pulsaros_testbed.Render.Hosts.{
  lookup, validate_host_ref, has_nic, validate_host_nic_ref, find_nic, nic_by_name,
}
use pulsaros_testbed.Render.Segments.{
  validate_vlan, validate_vni, optional_vlan, underlay_of as recorded_underlay, set_underlay,
  validate_local_nic, validate_vtep, validate_member, validate_segment, segments_from,
  validate_segments, subscript, or_nil, int_unless_blank, resolve_local_nic, resolve_vtep,
  member_vlan, resolve_member, resolve_segment, resolve_from, resolve_segments,
}
use pulsaros_testbed.Render.ControlPlane.{
  empty, read_peering, check_vtep_ref, read_reflectors, check_reflectors, check_reflector, vteps_of,
  segment_vtep_hosts, underlay_of, same_underlay, add_underlay, vtep_underlays, validate_evpn,
  validate_control_plane, others, spokes, peer_hosts, peer_of, host_control, control_hosts,
  resolve_control_plane,
}
use pulsaros_testbed.Render.Checks.{
  validate_ping_check, validate_capture, validate_captures, allowed_key, at_least_one, text_field,
  check_assertions, validate_capture_assertions, validate_packet_capture_check,
  validate_pktgen_dpdk_check, endpoint, members_by_endpoint, segment_members, validate_endpoint,
  validate_pair, validate_pairs, named_segment, segment_of, validate_segment_ping_matrix_check,
  validate_segment_bidirectional_capture_check, validate_threshold, validate_thresholds,
  validate_segment_perf_probe_check, is_evpn, validate_evpn_control_plane_check, valid_name,
  validate_by_type, validate_check, validate_checks,
}
use pulsaros_testbed.Render.Faults.{
  source_of, member_of, trunk_member, one_of, validate_vlan_mismatch, validate_fault_body,
  validate_fault, validate_faults,
}
use pulsaros_testbed.Render.Tokens.{
  nic_field, host_field, network_field, is_reference, resolve_token, resolve_tokens, resolve_items,
  resolve_fields,
}
use pulsaros_testbed.Render.Topology.{
  read_mode, read_prefix, build_network, build_networks, build_nic, build_nics, previous_ip,
  build_host, build_hosts, nics_before, nics_of, all_mac_offsets, pluck, previous_hosts,
  requested_control_plane, render_qinq, render_base, render_overlay, render_intent, render_run,
  render,
}

-- A theorem that unfolds this one computes with all definitions of `render`.
unfoldable pub program : Unit {0}
unfolding source_of member_of trunk_member empty read_peering check_vtep_ref read_reflectors
    check_reflectors check_reflector recorded_underlay any all select get put has keys values each
    loop enumerate digit spell show_in show_ℕ show_ℤ zeros pad show_hex2 is_digit is_lower
    is_name_tail is_name is_prefix_tail is_vnet_prefix before after has_char strip_prefix has_text
    digits_only numeric is_space all_space digits_tail unsigned negated positive parse_int
    insert_text sorted_set insert_number sorted_numbers join in_texts to_int get_or get_field
    has_field put_field without_field as_dict iterate hashable in_keys truthy is_blank is_str
    number_of same_number field? size value_eq items_eq fields_eq py_str repr repr_items repr_fields
    env_int env_str mac_for unique_from validate_unique is_dataplane resolve_dataplane supports
    selects filter_item filter_from filter_for_dataplane lookup validate_host_ref has_nic
    validate_host_nic_ref find_nic nic_by_name validate_vlan validate_vni optional_vlan underlay_of
    set_underlay validate_local_nic validate_vtep validate_member validate_segment segments_from
    validate_segments subscript or_nil int_unless_blank resolve_local_nic resolve_vtep member_vlan
    resolve_member resolve_segment resolve_from resolve_segments vteps_of segment_vtep_hosts
    same_underlay add_underlay vtep_underlays validate_evpn validate_control_plane others spokes
    peer_hosts peer_of host_control control_hosts resolve_control_plane validate_ping_check
    validate_capture validate_captures allowed_key at_least_one text_field check_assertions
    validate_capture_assertions validate_packet_capture_check validate_pktgen_dpdk_check endpoint
    members_by_endpoint segment_members validate_endpoint validate_pair validate_pairs named_segment
    segment_of validate_segment_ping_matrix_check validate_segment_bidirectional_capture_check
    validate_threshold validate_thresholds validate_segment_perf_probe_check is_evpn
    validate_evpn_control_plane_check valid_name validate_by_type validate_check validate_checks
    one_of validate_vlan_mismatch validate_fault_body validate_fault validate_faults nic_field
    host_field network_field is_reference resolve_token resolve_tokens resolve_items resolve_fields
    read_mode read_prefix build_network build_networks build_nic build_nics previous_ip build_host
    build_hosts nics_before nics_of all_mac_offsets pluck previous_hosts requested_control_plane
    render_qinq render_base render_overlay render_intent render_run render
program = tt
