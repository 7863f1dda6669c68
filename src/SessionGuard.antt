-- ===== src/SessionGuard.antt =====
-- internal/sessionguard/session_guard_table.go: the pure policy table that decides whether a command
-- may act, given the session pin and how the target relates to it.
pub mod Policy
pub mod Tests
use agent_message_queue.Base.{Bool, true, false, ◌&&◌, ◌||◌, List, [], ◌∷◌, if◌then◌else◌}

pub data Kind : Type 0 where
  mailbox source list env doctor_repair : Kind

pub data Channel : Type 0 where
  exit5 json : Channel

pub data PinState : Type 0 where
  absent legacy identity invalid : PinState

pub data TargetRelation : Type 0 where
  unbound match mismatch own_pinned_base : TargetRelation

pub data Verdict : Type 0 where
  allow refuse_exit5 warn_continue structured_error_continue_exit0 json_error_exit0 : Verdict

-- The source names a row by a string; here it is a constructor with the same number.
pub data Row : Type 0 where
  r01 r02 r03 r04 r05 r06 r07 r08 r09 r10 r11 r12 r13 r14 r15 : Row

abbrev pub canonical_rows : List Row
canonical_rows =
    r01 ∷ r02 ∷ r03 ∷ r04 ∷ r05 ∷ r06 ∷ r07 ∷ r08 ∷ r09 ∷ r10 ∷ r11 ∷ r12 ∷ r13 ∷ r14 ∷ r15 ∷ []

pub record Flags : Type 0 where
  pub routed : Bool
  pub ignore_pin : Bool
  pub explicit_root : Bool
  pub explicit_context : Bool
  pub cross_project : Bool
  pub from_session : Bool
  pub revalidation : Bool

pub record Input : Type 0 where
  pub kind : Kind
  pub channel : Channel
  pub pin : PinState
  pub relation : TargetRelation
  pub flags : Flags

pub record Decision : Type 0 where
  pub row : Row
  pub verdict : Verdict

abbrev pub is_mailbox : Kind → Bool
is_mailbox mailbox = true
is_mailbox _ = false

abbrev pub is_source : Kind → Bool
is_source source = true
is_source _ = false

abbrev pub is_list : Kind → Bool
is_list list = true
is_list _ = false

abbrev pub is_doctor_repair : Kind → Bool
is_doctor_repair doctor_repair = true
is_doctor_repair _ = false

abbrev pub is_json : Channel → Bool
is_json json = true
is_json exit5 = false

abbrev pub is_invalid : PinState → Bool
is_invalid invalid = true
is_invalid _ = false

abbrev is_unbound : TargetRelation → Bool
is_unbound unbound = true
is_unbound _ = false

abbrev is_match : TargetRelation → Bool
is_match match = true
is_match _ = false

abbrev is_own_base : TargetRelation → Bool
is_own_base own_pinned_base = true
is_own_base _ = false

unfoldable pub valid_pin : PinState → Bool
valid_pin absent = true
valid_pin legacy = true
valid_pin identity = true
valid_pin invalid = false

abbrev pub decision_for : Row → Verdict → Decision
decision_for row verdict = record { row = row; verdict = verdict }

-- `if invalid { switch in.Kind … }`.
decide_invalid : Kind → Channel → Decision
decide_invalid list c = decision_for r11 warn_continue
decide_invalid doctor_repair c = decision_for r13 structured_error_continue_exit0
decide_invalid source json = decision_for r15 json_error_exit0
decide_invalid source exit5 = decision_for r09 refuse_exit5
decide_invalid mailbox c = decision_for r09 refuse_exit5
decide_invalid env c = decision_for r09 refuse_exit5

-- What is left at the end of `Decide`, once no row has allowed the target.
decide_mismatch : Kind → Channel → Decision
decide_mismatch k c =
    if is_list k
    then decision_for r10 warn_continue
    else if is_doctor_repair k
    then decision_for r12 structured_error_continue_exit0
    else if is_source k && is_json c
    then decision_for r14 json_error_exit0
    else decision_for r08 refuse_exit5

unfoldable pub decide : Input → Decision
unfolding valid_pin decide_invalid decide_mismatch
decide i =
    if is_mailbox i.kind && i.flags.routed && valid_pin i.pin
    then decision_for r03 allow
    else if i.flags.ignore_pin && (is_mailbox i.kind || is_source i.kind || is_doctor_repair i.kind)
    then decision_for r04 allow
    else if is_source i.kind && i.flags.from_session && valid_pin i.pin
    then decision_for r05 allow
    else if is_invalid i.pin
    then decide_invalid i.kind i.channel
    else if is_unbound i.relation
    then decision_for r01 allow
    else if is_match i.relation && valid_pin i.pin
    then decision_for r02 allow
    else if is_own_base i.relation && is_list i.kind && i.flags.explicit_root && valid_pin i.pin
    then decision_for r06 allow
    else if is_own_base i.relation && is_doctor_repair i.kind && valid_pin i.pin
    then decision_for r07 allow
    else decide_mismatch i.kind i.channel
