-- ===== src/Swarm/Lifecycle.antt =====
-- The life of a task as its operations allow it, over the raw fields of its file.
use agent_message_queue.Base.{
  String, arith, refl, sym, ◌∙◌, ◌≡◌, ◌≢◌, ◌⊎◌, true, false, Option, none, some, string_eq, ◌==◌,
}
use agent_message_queue.Base.Dict.{lookup, insert, erase, lookup-insert, lookup-erase, dict_laws}
use agent_message_queue.Base.Text.{equal_fold, trim_space}
use agent_message_queue.Swarm.Json.{text, Raw, get_text}
use agent_message_queue.Swarm.Tasks.{
  status_in_progress, status_completed, status_failed, status_blocked, Result, ok,
  require_in_progress, is_assigned_to_me, require_task_assignee, set_optional_object,
  set_optional_string,
}
use agent_message_queue.Swarm.Update.{claim_raw, complete_raw, fail_raw, block_raw}

-- The fields that the operations write.
abbrev pub IsForeign : String → Type 0
IsForeign key =
    (key ≢ "status")
    × (key ≢ "assigned_to")
    × (key ≢ "updated_at")
    × (key ≢ "evidence")
    × (key ≢ "failure_reason")
    × (key ≢ "block_reason")

abbrev pub SameForeign : Raw → Raw → Type 0
SameForeign raw raw' = (key : String) → IsForeign key → lookup key raw' ≡ lookup key raw

-- A claim succeeds exactly on a task that is not completed and is free or the claimer's own.
abbrev pub Claimable : String → Raw → Type 0
Claimable agent_id raw =
    (get_text raw "status" ≢ status_completed)
    × ((get_text raw "assigned_to" ≡ "")
        ⊎ (equal_fold (get_text raw "assigned_to") agent_id ≡ true))

-- The fields of a claimed task.
pub record Claimed (now agent_id : String) (raw raw' : Raw) : Type 0 where
  pub status : lookup "status" raw' ≡ some (text status_in_progress)
  pub assigned : lookup "assigned_to" raw' ≡ some (text agent_id)
  pub updated : lookup "updated_at" raw' ≡ some (text now)
  pub no_evidence : lookup "evidence" raw' ≡ none
  pub no_failure : lookup "failure_reason" raw' ≡ none
  pub no_block : lookup "block_reason" raw' ≡ none
  pub foreign : SameForeign raw raw'

abbrev claimed_fields : String → String → Raw → Raw
claimed_fields now agent_id raw = insert "updated_at" (text now) (
    erase "evidence" (
      erase "block_reason" (
        erase "failure_reason"
          (insert "assigned_to" (text agent_id) (insert "status" (text status_in_progress) raw)))))

claimed_fields-Claimed :
    (now agent_id : String) (raw : Raw) → Claimed now agent_id raw (claimed_fields now agent_id raw)
claimed_fields-Claimed now agent_id raw = record {
  status = simp dict_laws (unfold string_eq in refl);
  assigned = simp dict_laws (unfold string_eq in refl);
  updated = simp dict_laws (unfold string_eq in refl);
  no_evidence = simp dict_laws (unfold string_eq in refl);
  no_failure = simp dict_laws (unfold string_eq in refl);
  no_block = simp dict_laws (unfold string_eq in refl);
  foreign = λ key h. simp dict_laws (ground arith);
}

claim_raw-cases :
    (now agent_id : String) (raw raw' : Raw)
    → claim_raw now agent_id raw ≡ ok raw'
    → Claimable agent_id raw × (raw' ≡ claimed_fields now agent_id raw)
unfolding claim_raw
claim_raw-cases now agent_id raw raw' h = ground arith

claim_raw_of_Claimable :
    (now agent_id : String) (raw : Raw)
    → Claimable agent_id raw
    → claim_raw now agent_id raw ≡ ok (claimed_fields now agent_id raw)
unfolding claim_raw
claim_raw_of_Claimable now agent_id raw h = ground arith

-- A claim that succeeds found a task that is not completed and is free or the claimer's own. It leaves
-- the task in progress, assigned to the claimer, with no evidence or reasons of an earlier attempt, and
-- with every field that the program does not know as it was.
pub claim_raw_effect :
    (now agent_id : String) (raw raw' : Raw)
    → claim_raw now agent_id raw ≡ ok raw'
    → Claimable agent_id raw × Claimed now agent_id raw raw'
claim_raw_effect now agent_id raw raw' h =
    let (c, e) = claim_raw-cases now agent_id raw raw' h in
    (c, rw e (claimed_fields-Claimed now agent_id raw))

-- A task that is not completed and is free or the claimer's own can be claimed.
pub Claimable-claim_raw :
    (now agent_id : String) (raw : Raw)
    → Claimable agent_id raw
    → (raw' : Raw) × (claim_raw now agent_id raw ≡ ok raw')
Claimable-claim_raw now agent_id raw h =
    (claimed_fields now agent_id raw, claim_raw_of_Claimable now agent_id raw h)

-- The operations that end the work on a task.
pub data Ending : Type 0 where
  completing : Option String → Ending
  failing blocking : String → Ending

abbrev pub ending_status : Ending → String
ending_status (completing e) = status_completed
ending_status (failing r) = status_failed
ending_status (blocking r) = status_blocked

abbrev pub end_raw : Ending → String → String → String → Raw → Result Raw
end_raw (completing e) now handle agent_id = complete_raw now handle agent_id e
end_raw (failing r) now handle agent_id = fail_raw now handle agent_id r
end_raw (blocking r) now handle agent_id = block_raw now handle agent_id r

-- The work on a task may be ended by its assignee, or by anyone where it has none, while it is in progress.
abbrev pub Endable : String → String → Raw → Type 0
Endable handle agent_id raw =
    (get_text raw "status" ≡ status_in_progress)
    × ((get_text raw "assigned_to" ≡ "")
        ⊎ (is_assigned_to_me (get_text raw "assigned_to") handle agent_id ≡ true))

foreign_object :
    (raw : Raw) (key name : String) (v : Option String)
    → key ≢ name
    → lookup key (set_optional_object raw name v) ≡ lookup key raw
unfolding set_optional_object
foreign_object raw key name none h = simp dict_laws (ground arith)
foreign_object raw key name (some v) h = simp dict_laws (ground arith)

foreign_string :
    (raw : Raw) (key name v : String)
    → key ≢ name
    → lookup key (set_optional_string raw name v) ≡ lookup key raw
unfolding set_optional_string
foreign_string raw key name v h =
    ground (arith, lookup-erase key name raw, lookup-insert key name (text (trim_space v)) raw)

abbrev ended_fields : Ending → String → Raw → Raw
ended_fields (completing e) now raw = insert "updated_at" (text now) (
    set_optional_object
      (erase "block_reason" (erase "failure_reason" (insert "status" (text status_completed) raw)))
      "evidence" e)
ended_fields (failing r) now raw = insert "updated_at" (text now) (
    set_optional_string (erase "block_reason" (insert "status" (text status_failed) raw))
      "failure_reason" r)
ended_fields (blocking r) now raw = insert "updated_at" (text now) (
    set_optional_string (erase "failure_reason" (insert "status" (text status_blocked) raw))
      "block_reason" r)

end_raw-cases :
    (e : Ending) (now handle agent_id : String) (raw raw' : Raw)
    → end_raw e now handle agent_id raw ≡ ok raw'
    → Endable handle agent_id raw × (raw' ≡ ended_fields e now raw)
unfolding complete_raw fail_raw block_raw require_in_progress require_task_assignee
end_raw-cases (completing e) now handle agent_id raw raw' h = ground arith
end_raw-cases (failing r) now handle agent_id raw raw' h = ground arith
end_raw-cases (blocking r) now handle agent_id raw raw' h = ground arith

ne_of_test : (s t : String) → (s == t) ≡ false → s ≢ t
ne_of_test s t h = ground arith

status_ne_evidence : ◌≢◌ {A = String} "status" "evidence"
status_ne_evidence = ne_of_test "status" "evidence" (unfold string_eq in refl)

status_ne_failure : ◌≢◌ {A = String} "status" "failure_reason"
status_ne_failure = ne_of_test "status" "failure_reason" (unfold string_eq in refl)

status_ne_block : ◌≢◌ {A = String} "status" "block_reason"
status_ne_block = ne_of_test "status" "block_reason" (unfold string_eq in refl)

status_changed :
    (e : Ending) (now : String) (raw : Raw)
    → lookup "status" (ended_fields e now raw) ≡ some (text (ending_status e))
status_changed (completing e) now raw =
    simp (dict_laws, foreign_object _ "status" "evidence" e status_ne_evidence)
      (unfold string_eq in refl)
status_changed (failing r) now raw =
    simp (dict_laws, foreign_string _ "status" "failure_reason" r status_ne_failure)
      (unfold string_eq in refl)
status_changed (blocking r) now raw =
    simp (dict_laws, foreign_string _ "status" "block_reason" r status_ne_block)
      (unfold string_eq in refl)

-- A field that no ending writes.
abbrev pub Unwritten : String → Type 0
Unwritten key =
    (key ≢ "status")
    × (key ≢ "updated_at")
    × (key ≢ "evidence")
    × (key ≢ "failure_reason")
    × (key ≢ "block_reason")

kept :
    (e : Ending) (now : String) (raw : Raw) (key : String)
    → Unwritten key
    → lookup key (ended_fields e now raw) ≡ lookup key raw
kept (completing e) now raw key h =
    simp (dict_laws, foreign_object _ key "evidence" e h.2) (ground arith)
kept (failing r) now raw key h =
    simp (dict_laws, foreign_string _ key "failure_reason" r h.3) (ground arith)
kept (blocking r) now raw key h =
    simp (dict_laws, foreign_string _ key "block_reason" r h.4) (ground arith)

-- Work that was ended, as completed, failed or blocked, was in progress and unassigned or assigned to
-- the caller. Its task has the status of the ending, and the fields that no ending writes are as they were,
-- the assignee and all that the program does not know among them.
pub end_raw_effect :
    (e : Ending) (now handle agent_id : String) (raw raw' : Raw)
    → end_raw e now handle agent_id raw ≡ ok raw'
    → Endable handle agent_id raw
      × (lookup "status" raw' ≡ some (text (ending_status e)))
      × ((key : String) → Unwritten key → lookup key raw' ≡ lookup key raw)
end_raw_effect e now handle agent_id raw raw' h =
    let (c, p) = end_raw-cases e now handle agent_id raw raw' h in
    (c, rw p (status_changed e now raw), λ key u. rw p (kept e now raw key u))

in_progress_ne : (e : Ending) → status_in_progress ≢ ending_status e
in_progress_ne (completing e) =
    ne_of_test status_in_progress status_completed (unfold string_eq in refl)
in_progress_ne (failing r) = ne_of_test status_in_progress status_failed (unfold string_eq in refl)
in_progress_ne (blocking r) =
    ne_of_test status_in_progress status_blocked (unfold string_eq in refl)

Endable-ok :
    (e : Ending) (now handle agent_id : String) (raw : Raw)
    → Endable handle agent_id raw
    → end_raw e now handle agent_id raw ≡ ok (ended_fields e now raw)
unfolding complete_raw fail_raw block_raw require_in_progress require_task_assignee
Endable-ok (completing e) now handle agent_id raw h = ground (arith, in_progress_ne (completing e))
Endable-ok (failing r) now handle agent_id raw h = ground (arith, in_progress_ne (failing r))
Endable-ok (blocking r) now handle agent_id raw h = ground (arith, in_progress_ne (blocking r))

-- Work in progress that is unassigned or the caller's own can be ended in each of the three ways.
pub Endable-end_raw :
    (e : Ending) (now handle agent_id : String) (raw : Raw)
    → Endable handle agent_id raw
    → (raw' : Raw) × (end_raw e now handle agent_id raw ≡ ok raw')
Endable-end_raw e now handle agent_id raw h =
    (ended_fields e now raw, Endable-ok e now handle agent_id raw h)

-- A completed task stays completed: every operation on it, by any agent, is refused.
pub completed_final :
    (now handle agent_id : String) (raw : Raw)
    → get_text raw "status" ≡ status_completed
    → ((raw' : Raw) → claim_raw now agent_id raw ≢ ok raw')
      × ((e : Ending) (raw' : Raw) → end_raw e now handle agent_id raw ≢ ok raw')
completed_final now handle agent_id raw h = (
  λ raw' p. (claim_raw-cases now agent_id raw raw' p).0.0 h,
  λ e raw' p.
      in_progress_ne (completing none)
        (sym (end_raw-cases e now handle agent_id raw raw' p).0.0 ∙ h),
)
