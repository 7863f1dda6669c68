-- ===== src/SessionGuard/Policy.antt =====
-- What the policy table guarantees, over every input.
use agent_message_queue.Base.{◌≡◌, ◌≢◌, ◌⊎◌, inl, inr, ◌↔◌, true, false, arith}
use agent_message_queue.SessionGuard.{
  Kind, mailbox, source, list, env, doctor_repair, Channel, json, invalid, unbound, match, mismatch,
  own_pinned_base, Verdict, allow, refuse_exit5, warn_continue, structured_error_continue_exit0,
  json_error_exit0, Row, r08, r09, r10, r11, r12, r13, r14, r15, Input, decide,
}

-- The ways in which a pin allows a target: the early bypasses, and the relations that match.
pub data Permits (i : Input) : Type 0 where
  routed : i.kind ≡ mailbox → i.flags.routed ≡ true → i.pin ≢ invalid → Permits i
  ignored : i.kind ≢ list → i.kind ≢ env → i.flags.ignore_pin ≡ true → Permits i
  from_session : i.kind ≡ source → i.flags.from_session ≡ true → i.pin ≢ invalid → Permits i
  no_conflict : i.relation ≡ unbound → i.pin ≢ invalid → Permits i
  matches : i.relation ≡ match → i.pin ≢ invalid → Permits i
  listed_base :
      i.relation ≡ own_pinned_base
      → i.kind ≡ list
      → i.flags.explicit_root ≡ true
      → i.pin ≢ invalid
      → Permits i
  repaired_base :
      i.relation ≡ own_pinned_base → i.kind ≡ doctor_repair → i.pin ≢ invalid → Permits i

ruleset permissions =
    (routed, ignored, from_session, no_conflict, matches, listed_base, repaired_base)

abbrev pub verdict_of : Row → Verdict
verdict_of r08 = refuse_exit5
verdict_of r09 = refuse_exit5
verdict_of r10 = warn_continue
verdict_of r11 = warn_continue
verdict_of r12 = structured_error_continue_exit0
verdict_of r13 = structured_error_continue_exit0
verdict_of r14 = json_error_exit0
verdict_of r15 = json_error_exit0
verdict_of _ = allow

-- The row that is reported fixes the verdict: rows 1 to 7 allow, 8 and 9 refuse with exit code 5,
-- 10 and 11 warn, 12 and 13 are structured errors and 14 and 15 JSON errors.
pub decide-verdict_of : (i : Input) → (decide i).verdict ≡ verdict_of (decide i).row
unfolding decide
decide-verdict_of i = ground arith

Permits-allow : (i : Input) → Permits i → (decide i).verdict ≡ allow
unfolding decide
Permits-allow i (routed k f p) = ground arith
Permits-allow i (ignored k k' f) = ground arith
Permits-allow i (from_session k f p) = ground arith
Permits-allow i (no_conflict r p) = ground arith
Permits-allow i (matches r p) = ground arith
Permits-allow i (listed_base r k f p) = ground arith
Permits-allow i (repaired_base r k p) = ground arith

abbrev PermitsCases : Input → Type 0
PermitsCases i =
    ((i.kind ≡ mailbox) × (i.flags.routed ≡ true) × (i.pin ≢ invalid))
    ⊎ (((i.kind ≢ list) × (i.kind ≢ env) × (i.flags.ignore_pin ≡ true))
        ⊎ (((i.kind ≡ source) × (i.flags.from_session ≡ true) × (i.pin ≢ invalid))
            ⊎ (((i.relation ≡ unbound) × (i.pin ≢ invalid))
                ⊎ (((i.relation ≡ match) × (i.pin ≢ invalid))
                    ⊎ (((i.relation ≡ own_pinned_base)
                          × (i.kind ≡ list)
                          × (i.flags.explicit_root ≡ true)
                          × (i.pin ≢ invalid))
                        ⊎ ((i.relation ≡ own_pinned_base)
                            × (i.kind ≡ doctor_repair)
                            × (i.pin ≢ invalid)))))))

allow-cases : (i : Input) → (decide i).verdict ≡ allow → PermitsCases i
unfolding decide
allow-cases i h = ground arith

Permits-of-cases : (i : Input) → PermitsCases i → Permits i
Permits-of-cases i (inl h) = routed h.0 h.1 h.2
Permits-of-cases i (inr (inl h)) = ignored h.0 h.1 h.2
Permits-of-cases i (inr (inr (inl h))) = from_session h.0 h.1 h.2
Permits-of-cases i (inr (inr (inr (inl h)))) = no_conflict h.0 h.1
Permits-of-cases i (inr (inr (inr (inr (inl h))))) = matches h.0 h.1
Permits-of-cases i (inr (inr (inr (inr (inr (inl h)))))) = listed_base h.0 h.1 h.2 h.3
Permits-of-cases i (inr (inr (inr (inr (inr (inr h)))))) = repaired_base h.0 h.1 h.2

-- The table allows a target exactly when one of the seven permissions holds: a valid pin with a
-- routed mailbox, a session source, no conflict, a match or the pinned base itself, or a pin that a
-- command other than list and env was told to ignore.
pub decide-allow_iff : (i : Input) → ((decide i).verdict ≡ allow) ↔ Permits i
decide-allow_iff i = (λ h. Permits-of-cases i (allow-cases i h), Permits-allow i)

-- What a command of one kind and channel can be told besides "allow".
abbrev pub denial : Kind → Channel → Verdict
denial list c = warn_continue
denial doctor_repair c = structured_error_continue_exit0
denial source json = json_error_exit0
denial _ _ = refuse_exit5

-- A target that is not allowed is answered through the kind's own channel: a list warns and goes on,
-- a doctor repair reports a structured error, a JSON source a JSON error, and all else exits with 5.
pub decide-denial :
    (i : Input) → ((decide i).verdict ≡ allow) ⊎ ((decide i).verdict ≡ denial i.kind i.channel)
unfolding decide
decide-denial i = ground arith

-- An explicit root, an explicit context and a cross-project route never turn a pin that conflicts
-- with the target into permission: without the three bypass flags a mismatch is always denied.
pub mismatch_denied :
    (i : Input)
    → i.relation ≡ mismatch
    → i.flags.routed ≡ false
    → i.flags.ignore_pin ≡ false
    → i.flags.from_session ≡ false
    → (decide i).verdict ≡ denial i.kind i.channel
unfolding decide
mismatch_denied i m a b c = ground arith
