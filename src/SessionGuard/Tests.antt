-- ===== src/SessionGuard/Tests.antt =====
-- The policy table at concrete inputs.
use agent_message_queue.Base.{◌≡◌, ◌↔◌, refl, true, false}
use agent_message_queue.SessionGuard.{
  Input, mailbox, source, list, json, identity, mismatch, own_pinned_base, allow, refuse_exit5,
  Flags, decide,
}
use agent_message_queue.SessionGuard.Policy.{decide-allow_iff, Permits}

abbrev no_flags : Flags
no_flags = record {
  routed = false;
  ignore_pin = false;
  explicit_root = true;
  explicit_context = true;
  cross_project = true;
  from_session = false;
  revalidation = false;
}

abbrev routed_source : Input
routed_source = record {
  kind = source;
  channel = json;
  pin = identity;
  relation = mismatch;
  flags = no_flags;
}

listing_allowed :
    (decide (record routed_source { kind = list; relation = own_pinned_base })).verdict ≡ allow
unfolding decide
listing_allowed = refl

mailbox_refused : (decide (record routed_source { kind = mailbox })).verdict ≡ refuse_exit5
unfolding decide
mailbox_refused = refl

decide-allow_iff_example : ((decide routed_source).verdict ≡ allow) ↔ Permits routed_source
decide-allow_iff_example = decide-allow_iff routed_source
