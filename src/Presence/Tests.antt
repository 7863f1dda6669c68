-- ===== src/Presence/Tests.antt =====
-- Presences at concrete agents.
use agent_message_queue.Base.{◌≡◌, refl, true, some, [], ◌∷◌, string_eq}
use agent_message_queue.Base.Dict.{lookup, insert}
use agent_message_queue.Presence.{Presence, stored, Files, touch, read, decode}

abbrev busy : Presence
busy = record {
  schema = 1;
  handle = "claude";
  status = "busy";
  last_seen = "t0";
  note = "reviewing";
  notifier_status = "";
  notifier_mode = "";
  notifier_reason = "";
  doorbell_parked = true;
  doorbell_attempts = 4;
}

-- The file of claude names codex: a touch of claude leaves it, and writes the presence of codex.
abbrev misfiled : Files
misfiled = ("claude", stored (record busy { handle = "codex" })) ∷ []

touched_elsewhere :
    (lookup "claude" (touch true "t1" "claude" misfiled).0
      ≡ some (stored (record busy { handle = "codex" })))
    × (lookup "codex" (touch true "t1" "claude" misfiled).0
        ≡ some (stored (record busy { handle = "codex"; last_seen = "t1" })))
unfolding touch read decode lookup insert string_eq
touched_elsewhere = (refl, refl)
