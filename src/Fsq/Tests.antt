-- ===== src/Fsq/Tests.antt =====
-- The mailbox operations at concrete inputs.
use agent_message_queue.Base.{
  ◌≡◌, ◌≢◌, refl, true, none, some, List, [], ◌∷◌, string_eq, codes_eq, All, String,
}
use agent_message_queue.Base.Dict.{Dict, lookup, insert, erase}
use agent_message_queue.Fsq.Store.{Root, FilePath, Bytes, regular, path_eq, dir_eq, join, eio}
use native.Mathlib.Decide.{ℕ_discrete}
use agent_message_queue.Base.Text.{has_prefix, contains_text, has_suffix, trim_space}
use agent_message_queue.Fsq.Names.{
  validate_message_filename, validate_handle, validate_legacy_inspectable_handle, handle_char,
}
use agent_message_queue.Fsq.Root.{verify_base, write_and_sync, write_file_atomic}
use agent_message_queue.Fsq.Root.Atomic.{Whole, Written, write_file_atomic_holds}
use agent_message_queue.Fsq.Syscall.{
  mkdir_all, tick, unique_token, next_fault, open_exclusive, rename_no_replace, sync_dir,
  write_file,
}
use agent_message_queue.Fsq.Monad.{M, ok, cases}
use agent_message_queue.Fsq.Delivery.{
  deliver_to_inboxes, inbox_new_dir, validate_handles, stage_all, stage_one,
  unique_attempt_tmp_path, commit_all, delivered_paths, publish_tmp_no_replace,
}
use agent_message_queue.Fsq.Claim.{move_new_to_cur, claim_rename, deliver_to_existing_inbox}
use agent_message_queue.Fsq.Claim.Existing.{existing_delivery}
use agent_message_queue.Fsq.Claim.Exclusive.{Claimed, move_new_to_cur-Claimed, one_claim}
use agent_message_queue.Fsq.Delivery.Frame.{Delivers}
use agent_message_queue.Fsq.Delivery.Correct.{InInbox, deliver-Delivers, deliver_success}

abbrev empty_root : Root
empty_root = record { files = []; dirs = []; faults = []; tokens = "t1" ∷ "t2" ∷ []; pinned = true }

abbrev hello : Bytes
hello = 104 ∷ 105 ∷ []

abbrev both : List String
both = "alice" ∷ "bob" ∷ []

abbrev both_paths : Dict String FilePath
both_paths =
    ("alice", join (inbox_new_dir "alice") "m.md") ∷ ("bob", join (inbox_new_dir "bob") "m.md") ∷ []

delivered_to_both : (deliver_to_inboxes both "m.md" hello empty_root).0 ≡ ok both_paths
unfolding deliver_to_inboxes string_eq codes_eq path_eq dir_eq cases validate_message_filename
    has_prefix contains_text has_suffix validate_handles validate_handle
    validate_legacy_inspectable_handle trim_space verify_base stage_all stage_one mkdir_all tick
    unique_attempt_tmp_path unique_token write_and_sync erase insert lookup commit_all
    delivered_paths publish_tmp_no_replace handle_char next_fault open_exclusive rename_no_replace
    sync_dir write_file ℕ_discrete
delivered_to_both = refl

-- The first write of the run fails after one byte.
abbrev failing_root : Root
failing_root = record empty_root {
  faults = none ∷ none ∷ none ∷ none ∷ some (record { errno = eio; written = 1 }) ∷ [];
}

-- A root where the message waits in alice's inbox.
abbrev waiting_root : Root
waiting_root = record empty_root {
  files = (join (inbox_new_dir "alice") "m.md", regular hello) ∷ [];
  dirs = inbox_new_dir "alice" ∷ [];
}

claims : (move_new_to_cur "alice" "m.md" waiting_root).0 ≡ ok tt
unfolding move_new_to_cur string_eq codes_eq path_eq dir_eq cases validate_message_filename
    has_prefix contains_text has_suffix validate_handle validate_legacy_inspectable_handle
    trim_space verify_base mkdir_all tick erase insert lookup handle_char next_fault
    rename_no_replace sync_dir claim_rename ℕ_discrete
claims = refl

move_new_to_cur-Claimed_example :
    Claimed "alice" "m.md" waiting_root.files
      (move_new_to_cur "alice" "m.md" waiting_root).0
      (move_new_to_cur "alice" "m.md" waiting_root).1.files
move_new_to_cur-Claimed_example = move_new_to_cur-Claimed "alice" "m.md" waiting_root

one_claim_example :
    (move_new_to_cur "alice" "m.md" (move_new_to_cur "alice" "m.md" waiting_root).1).0 ≢ ok tt
one_claim_example =
    one_claim "alice" "m.md" waiting_root (move_new_to_cur "alice" "m.md" waiting_root).1 claims
      refl

deliver-Delivers_example :
    Delivers "m.md" hello [] (deliver_to_inboxes both "m.md" hello failing_root).1.files
deliver-Delivers_example = deliver-Delivers both "m.md" hello failing_root

deliver_success_example :
    All (InInbox "m.md" hello (deliver_to_inboxes both "m.md" hello empty_root).1.files) both
deliver_success_example = deliver_success both "m.md" hello empty_root both_paths delivered_to_both

-- A check of the layout that finds nothing.
abbrev no_check : String → M (Unit {0})
no_check a = λ r. (ok tt, r)

existing_delivery_example :
    Delivers "n.md" hello waiting_root.files
      (deliver_to_existing_inbox no_check "alice" "n.md" hello waiting_root).1.files
    × ((p : FilePath)
        → (deliver_to_existing_inbox no_check "alice" "n.md" hello waiting_root).0 ≡ ok p
        → (p ≡ join (inbox_new_dir "alice") "n.md")
          × (lookup p (deliver_to_existing_inbox no_check "alice" "n.md" hello waiting_root).1.files
              ≡ some (regular hello)))
existing_delivery_example =
    existing_delivery no_check "alice" "n.md" hello waiting_root (λ a r. refl)

write_file_atomic_holds_example :
    Whole
      (inbox_new_dir "alice")
      "m.md"
      (1 ∷ 2 ∷ [])
      waiting_root.files
      (write_file_atomic (inbox_new_dir "alice") "m.md" (1 ∷ 2 ∷ []) waiting_root).1.files
    × ((p : FilePath)
        → (write_file_atomic (inbox_new_dir "alice") "m.md" (1 ∷ 2 ∷ []) waiting_root).0 ≡ ok p
        → (p ≡ join (inbox_new_dir "alice") "m.md")
          × Written
              (join (inbox_new_dir "alice") "m.md")
              (1 ∷ 2 ∷ [])
              waiting_root.files
              (write_file_atomic (inbox_new_dir "alice") "m.md" (1 ∷ 2 ∷ []) waiting_root).1.files)
write_file_atomic_holds_example =
    write_file_atomic_holds (inbox_new_dir "alice") "m.md" (1 ∷ 2 ∷ []) waiting_root
