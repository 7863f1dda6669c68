-- ===== src/Fsq/Dlq/Tests.antt =====
-- The dead letter queue at concrete inputs.
use agent_message_queue.Base.{
  ◌≡◌, refl, inr, arith, true, false, none, some, [], ◌∷◌, ◌++◌, string_eq,
}
use agent_message_queue.Fsq.Store.{Root, FilePath, Bytes, regular, join, dlq_cur}
use agent_message_queue.Fsq.Monad.{Result, ok}
use agent_message_queue.Fsq.Claim.{box_new}
use agent_message_queue.Fsq.Dlq.Transition.{
  Outcome, Failure, inbox_source_dir, move_inbox_message_to_dlq,
}
use agent_message_queue.Fsq.Dlq.Transition.Kept.{Kept, Preserved, move-Kept}
use agent_message_queue.Fsq.Dlq.{
  Envelope, valid, normalize_retry_state, set_retry_state, state_ready, state_pending,
}
use agent_message_queue.Fsq.Dlq.Format.{
  Codec, serialize, parse, normalize_newlines, split_at, after_prefix, fence_start, fence_end,
}
use agent_message_queue.Fsq.Dlq.Format.RoundTrip.{parse-serialize, Encodes}
use agent_message_queue.Fsq.Dlq.Moves.{dlq_new_dir}

-- A pending envelope of an older release, which names no state.
abbrev legacy_pending : Envelope
legacy_pending = record {
  schema = "amq/dlq/v1";
  id = "dlq_1";
  original_id = "1";
  original_file = "m.md";
  failure_reason = "parse_error";
  failure_detail = "bad header";
  failure_time = "2025-01-01T00:00:00Z";
  negative_count = false;
  retry_count = 3;
  retry_state = "";
  retry_pending = true;
  retry_delivered = false;
  source_dir = "new";
}

abbrev named_pending : Envelope
named_pending = record legacy_pending { retry_state = state_pending }

accepted_pending : normalize_retry_state legacy_pending ≡ valid named_pending
unfolding normalize_retry_state set_retry_state string_eq
accepted_pending = refl

-- An encoding that reads every header as the one envelope.
abbrev braces : Codec
braces = record { encode = λ e. 123 ∷ 10 ∷ 125 ∷ []; decode = λ b. some named_pending }

abbrev body : Bytes
body = 104 ∷ 13 ∷ 10 ∷ 105 ∷ []

abbrev file : Bytes
file = fence_start ++ (123 ∷ 10 ∷ 125 ∷ []) ++ fence_end ++ body

written : serialize braces legacy_pending body ≡ some file
unfolding serialize normalize_retry_state set_retry_state string_eq
written = refl

encodes : Encodes braces named_pending (normalize_newlines body)
unfolding split_at after_prefix normalize_newlines
encodes = record {
  decoded = refl;
  no_cr = (λ p. omega arith, (λ p. omega arith, (λ p. omega arith, tt)));
  ends = refl;
}

parse-serialize_example : parse braces file ≡ some (named_pending, normalize_newlines body)
parse-serialize_example =
    parse-serialize braces legacy_pending named_pending body file accepted_pending
      (inr (omega arith)) encodes written

abbrev spent : Envelope
spent = record legacy_pending { retry_state = state_ready; retry_pending = false }

abbrev some_root : Root
some_root = record { files = []; dirs = []; faults = []; tokens = []; pinned = true }

abbrev spent_path : FilePath
spent_path = record { agent = "alice"; leaf = dlq_cur; name = "d.md" }

-- An encoding that reads every header as the spent envelope.
abbrev spent_braces : Codec
spent_braces = record { encode = λ e. 123 ∷ 10 ∷ 125 ∷ []; decode = λ b. some spent }

-- The envelope stands in `dlq/cur`, and an older copy of it in `dlq/new`.
abbrev spent_root : Root
spent_root = record some_root {
  files = (spent_path, regular file) ∷ (join (dlq_new_dir "alice") "d.md", regular file) ∷ [];
}

-- The message stands in alice's inbox.
abbrev stuck_root : Root
stuck_root = record some_root {
  files = (join (inbox_source_dir "alice" box_new) "m.md", regular body) ∷ [];
  tokens = "x" ∷ "y" ∷ [];
}

abbrev unreadable : Failure
unreadable = record { original_id = "1"; reason = "parse_error"; detail = "bad header"; time = "t" }

abbrev moved : Result Outcome × Root
moved = move_inbox_message_to_dlq braces "alice" box_new box_new "m.md" unreadable stuck_root

move-Kept_example :
    (o : Outcome) × (moved.0 ≡ ok o)
    × Kept braces "alice" box_new box_new "m.md" unreadable stuck_root.files moved.1.files
    × (o.error ≡ none
        → Preserved braces "alice" box_new box_new "m.md" unreadable stuck_root.files moved.1.files)
move-Kept_example = move-Kept braces "alice" box_new box_new "m.md" unreadable stuck_root
