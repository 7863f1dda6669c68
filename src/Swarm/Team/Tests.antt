-- ===== src/Swarm/Team/Tests.antt =====
-- The team of one lead, at concrete inputs.
use agent_message_queue.Base.{
  String, ◌≡◌, ◌≢◌, refl, arith, true, false, [], ◌∷◌, string_eq, ◌==◌, if◌then◌else◌,
}
use agent_message_queue.Base.Dict.{lookup}
use agent_message_queue.Swarm.Json.{object, get_text}
use agent_message_queue.Swarm.Team.{
  Member, TeamConfig, Document, array, decoded, TeamFile, ok, err, not_found, ◌>>=◌, member_raw,
  find_duplicate, any_with, without, decode_member, decode_members, decode_field, decode_config,
  load_team, register_member, unregister_member, read_team_config_raw, write_members, find_member,
}
use agent_message_queue.Swarm.Team.Registry.{
  with_items, here, next, register, unregister, HasDistinctIds, distinct_forever,
}
use agent_message_queue.Swarm.Team.View.{enrol, is_some, drop_member, register_member-load_team}

abbrev lead : Member
lead = record { name = "lead"; agent_id = "a1"; agent_type = "claude-code" }

abbrev helper : Member
helper = record { name = "codex"; agent_id = "ext_1"; agent_type = "external" }

abbrev config : Document
config = record { fields = []; members = array (object (member_raw lead) ∷ []) }

abbrev file : TeamFile
file = record { content = decoded config; writable = true }

abbrev joined : TeamFile
joined = with_items file config (object (member_raw lead) ∷ object (member_raw helper) ∷ [])

abbrev left : TeamFile
left = with_items file config (object (member_raw lead) ∷ [])

joins : register_member helper file ≡ ok joined
unfolding register_member find_duplicate read_team_config_raw write_members get_text lookup
    string_eq
joins = refl

leaves : unregister_member "ext_1" joined ≡ ok left
unfolding unregister_member any_with without read_team_config_raw write_members get_text lookup
    string_eq
leaves = refl

distinct : HasDistinctIds file
unfolding any_with
distinct = (refl, tt)

distinct_forever_example : HasDistinctIds left
distinct_forever_example =
    distinct_forever (next (next here (register helper joins)) (unregister "ext_1" leaves)) distinct

abbrev shown : TeamConfig
shown = record { name = "team"; lead = ""; members = lead ∷ [] }

loads : load_team "team" file ≡ ok shown
unfolding load_team read_team_config_raw decode_config decode_field decode_members decode_member
    lookup string_eq
loads = refl

ne_of_test : (s t : String) → (s == t) ≡ false → s ≢ t
ne_of_test s t h = ground arith

register_member-load_team_example :
    ((register_member helper file >>= load_team "team")
      ≡ (enrol helper shown.members >>= λ ms. ok (record shown { members = ms })))
    × ((unregister_member "ext_1" file >>= load_team "team") ≡ (
        if is_some (find_member "ext_1" shown.members)
        then ok (record shown { members = drop_member "ext_1" shown.members })
        else err not_found))
register_member-load_team_example =
    register_member-load_team "team" helper file shown
      (ne_of_test "ext_1" "" (unfold string_eq in refl)) refl loads
