-- ===== src/Tests.antt =====
-- Tests by evaluation. `evaluated` opens every function of the model at once.
pub mod Data
pub mod Scope
pub mod Decisions
pub mod Keys
pub mod Brackets
pub mod Seeds
pub mod Reaps
pub mod Hubs
pub mod Ceilings
pub mod Saves
pub mod Watches
pub mod Demands
pub mod Stores
use xemu_cartographer.Base.{◌==◌}
use xemu_cartographer.Text.{
  text_eq, lower_rune, to_lower, is_space, trim_left, trim_right, trim_space, cut, split, join,
  words, fields, has_prefix, has_suffix, trim_suffix, count_rune, elem, attr,
}
use xemu_cartographer.Authz.Action.{action_text, all_actions, action_of, family, is_action_family}
use xemu_cartographer.Authz.Cells.{
  room_join_rules, room_shape, scope_for, room_join_wants, token_kinds, token_mint_resource,
  token_mint_wants, row_scope_user, row_scope_user_machine, row_box_access, row_box_owner, row_role,
  row_team, row_scraper, row_overlay_state, row_provision, row_lan_file, row_guild,
}
use xemu_cartographer.Authz.Decision.{
  verdict, first_match, by_mode, by_cell, by_kind, denied_by, by_rule, can_with, can,
}
use xemu_cartographer.Authz.Mint.{
  sanitized_tags, mint_instance, clashes, instance_from, scopes_instance, principal_from_token,
  mint_allow_list, overlay_mint_covers, bad_class, parse_all, check_pats, validate_for_mint,
}
use xemu_cartographer.Authz.Predicates.{
  pred_always, pred_authed, pred_linked, pred_rostered, pred_box_owner, pred_bound, pred_level_ok,
  pred_team_authority, profile_file_kind, lan_file_kind, split_tags, pred_station_file, parse_uint,
  pred_manage_guild, deny_last_admin, any_of,
}
use xemu_cartographer.Authz.Principal.{
  kind_known, has_role, has_scope, bound_instance, is_admin, audit_actor_id, text_le, insert_text,
  sort_texts, canon_new, canon_scopes, new_anonymous, new_internal, new_superuser, nobody,
}
use xemu_cartographer.Authz.Resource.{
  is_host, is_host_aggregate, room_selector, selector, instance_of,
}
use xemu_cartographer.Authz.Rules.{rules, same_room, room_canonical, accepts, kinds_for, wants_for}
use xemu_cartographer.Authz.Scope.{
  canon_segment, canon, validate_segment, parse_action, parse_selector, parse_pattern, parse_scope,
  want_parts, parse_want, match_action, match_segments, only_wildcard, match_selector, match_parts,
  match, match_any, pat_is_wildcard, is_wildcard, named_host, named_in, named_instance,
  names_one_instance,
}
use xemu_cartographer.Authz.Seed.{find_seed, seed_role}
use xemu_cartographer.Authz.Token.{
  kid_symbol, lookup_text, new_kid, split_token, kid_has_known_prefix, looks_opaque, verify_token,
}
use xemu_cartographer.Authz.Ws.{
  has_space, parse_room, ws_send_allowed, same_instance, first_same, joinable_instances,
}
use xemu_cartographer.Bracket.{
  is_bye, grow, expand, order_loop, seed_order, text_at, seed_name, pair_up, single_elim,
  circle_pairs, rotate, circle_rounds, even_field, round_robin,
}
use xemu_cartographer.Reaper.{
  clock_of, stop_clock, start_clock, enabled, in_scope, check_clock, visit, visit_all, prune, tick,
  countdown, info, run,
}
use xemu_cartographer.Hub.{
  holds, add_client, drop_client, members, has_entry, join_set, keep_entry, leave_set, leave_all,
  emptied_by, register, room_has_members, add_to_room, remove_from_room, remove_client, handle,
  run_events, client_rooms, still_admitted, leave_each, recheck_rooms,
}
use xemu_cartographer.Pb.Ceiling.{
  action_covers, selector_covers, scope_covers, some_covers, holds_scope, is_exempt,
  first_uncovered, mints_overlays, check_mint_ceiling,
}
use xemu_cartographer.Halosave.Bytes.{
  byte_at, set_byte, copy_bytes, slice, get_u32, put_u32, get_u16, put_u16, is_high, is_low,
  encode_rune, utf16_encode, join_pair, decode_unit, utf16_decode, read_units, read_utf16z,
  zero_bytes, write_units, write_utf16z, utf16_char_len,
}
use xemu_cartographer.Halosave.Digest.{title_sig_key, derive_auth_key, recompute_digest}
use xemu_cartographer.Halosave.Ce.{
  ce_engine_name, ce_score_unit, ce_view, ce_parse, put_u32_opt, put_name_opt, ce_fields, ce_sign,
  ce_finish, ce_build,
}
use xemu_cartographer.Hub.Observer.{
  take_one, note_room_edge, forget, check_room, room_names, act, run_actions,
}
use xemu_cartographer.Pb.Grants.{
  count_live, level_in, decision_error, audit_actor_label, admin_count, roles_table, role_level,
  holds_role, deps_at, pb_deps, audited, delete_row, revoke_role, revoke_tx, revoke, save_row,
  add_row, grant_role, grant_decided, grant,
}
use xemu_cartographer.Pb.Keys.{
  all_without_hash, legacy_rows, lookup_token, revoke_row, revoke_token, list_tokens,
}
use xemu_cartographer.Xcclient.Demand.{
  delete_room, occupy, arm, observe, release, lingering, close, take_input, run_inputs,
}

pub evaluated : Unit {0}
unfolding text_eq lower_rune to_lower is_space trim_left trim_right trim_space cut split join words
    fields has_prefix has_suffix trim_suffix count_rune elem attr action_text all_actions action_of
    family is_action_family room_join_rules room_shape scope_for room_join_wants token_kinds
    token_mint_resource token_mint_wants row_scope_user row_scope_user_machine row_box_access
    row_box_owner row_role row_team row_scraper row_overlay_state row_provision row_lan_file
    row_guild verdict first_match by_mode by_cell by_kind denied_by by_rule can_with can
    sanitized_tags mint_instance clashes instance_from scopes_instance principal_from_token
    mint_allow_list overlay_mint_covers bad_class parse_all check_pats validate_for_mint pred_always
    pred_authed pred_linked pred_rostered pred_box_owner pred_bound pred_level_ok
    pred_team_authority profile_file_kind lan_file_kind split_tags pred_station_file parse_uint
    pred_manage_guild deny_last_admin any_of kind_known has_role has_scope bound_instance is_admin
    audit_actor_id text_le insert_text sort_texts canon_new canon_scopes new_anonymous new_internal
    new_superuser nobody is_host is_host_aggregate room_selector selector instance_of rules
    same_room room_canonical accepts kinds_for wants_for canon_segment canon validate_segment
    parse_action parse_selector parse_pattern parse_scope want_parts parse_want match_action
    match_segments only_wildcard match_selector match_parts match match_any pat_is_wildcard
    is_wildcard named_host named_in named_instance names_one_instance find_seed seed_role kid_symbol
    lookup_text new_kid split_token kid_has_known_prefix looks_opaque verify_token has_space
    parse_room ws_send_allowed same_instance first_same joinable_instances is_bye grow expand
    order_loop seed_order text_at seed_name pair_up single_elim circle_pairs rotate circle_rounds
    even_field round_robin clock_of stop_clock start_clock enabled in_scope check_clock visit
    visit_all prune tick countdown info run holds add_client drop_client members has_entry join_set
    keep_entry leave_set leave_all emptied_by register room_has_members add_to_room remove_from_room
    remove_client handle run_events client_rooms still_admitted leave_each recheck_rooms
    action_covers selector_covers scope_covers some_covers holds_scope is_exempt first_uncovered
    mints_overlays check_mint_ceiling byte_at set_byte copy_bytes slice get_u32 put_u32 get_u16
    put_u16 is_high is_low encode_rune utf16_encode join_pair decode_unit utf16_decode read_units
    read_utf16z zero_bytes write_units write_utf16z utf16_char_len title_sig_key derive_auth_key
    recompute_digest ce_engine_name ce_score_unit ce_view ce_parse put_u32_opt put_name_opt
    ce_fields ce_sign ce_finish ce_build take_one note_room_edge forget check_room room_names act
    run_actions count_live level_in decision_error audit_actor_label admin_count roles_table
    role_level holds_role deps_at pb_deps audited delete_row revoke_role revoke_tx revoke save_row
    add_row grant_role grant_decided grant all_without_hash legacy_rows lookup_token revoke_row
    revoke_token list_tokens delete_room occupy arm observe release lingering close take_input
    run_inputs
evaluated = tt
