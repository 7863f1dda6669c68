-- ===== src/Bridge.antt =====
-- internal/bridge: the envelope that carries a message between hosts (envelope.go), and its application
-- to the inbox of a local agent (apply.go). SHA-256 and hexadecimal texts are the parameter `Crypto`.
pub mod Apply
pub mod Deliver
pub mod Auth
pub mod Tests
use Prim.Native.Char.{code}
use agent_message_queue.Base.{
  ℕ, String, ◌<>◌, Bool, true, false, not, ◌||◌, ◌&&◌, Option, none, some, List, [], ◌∷◌, length,
  string_eq, codes_eq, ◌==◌, ◌!=◌, eqb, is_empty, if◌then◌else◌,
}
use agent_message_queue.Base.Text.{trim_space, contains_text, has_prefix, equal_fold}
use agent_message_queue.Fsq.Store.{FilePath, join, Bytes, eexist}
use agent_message_queue.Fsq.Errors.{Error, message, wrapped, is}
use agent_message_queue.Fsq.Monad.{
  Result, ok, err, M, pure, fail, lift, ◌>>=◌, ◌>>◌, cases, error_of,
}
use agent_message_queue.Fsq.Names.{validate_handle}
use agent_message_queue.Fsq.Root.{read_regular_no_follow}
use agent_message_queue.Fsq.Delivery.{inbox_new_dir}
use agent_message_queue.Fsq.Claim.{deliver_to_existing_inbox}
use agent_message_queue.Fsq.Dlq.Moves.{root_stat}

-- A negative version is as unsupported as any but 1.
pub record Envelope : Type 0 where
  pub version : ℕ
  pub transfer_id : String
  pub source_host : String
  pub source_handle : String
  pub dest_alias : String
  pub source_message_id : String
  pub thread_id : String
  pub payload_sha256 : String
  pub key_generation : String
  pub signature : String
  pub payload : Bytes

-- The hexadecimal SHA-256 of the payload, and `hex.DecodeString`.
pub record Crypto : Type 0 where
  pub digest : Bytes → String
  pub decode_hex : String → Option Bytes

-- `strings.Cut(s, "/")`.
unfoldable pub cut : String → Option (String × String)
cut String.[] = none
cut (String.◌∷◌ c s) =
    let later = cut s in
    if eqb (code c) 47
    then some ("", s)
    else elim later [ none ↦ none | some (h, a) ↦ some (String.◌∷◌ c h, a) ]

checked_alias : String → String → Result (String × String)
checked_alias host agent = elim (validate_handle host) [
  | err e ↦ err (wrapped "bridge dest_alias host" e)
  | ok _ ↦ elim (validate_handle agent) [
    | err e ↦ err (wrapped "bridge dest_alias agent" e)
    | ok _ ↦ ok (host, agent)
  ]
]

cut_alias : Option (String × String) → Result (String × String)
unfolding checked_alias
cut_alias none = err (message "bridge dest_alias must be host/agent")
cut_alias (some (host, agent)) =
    if contains_text agent "/"
    then err (message "bridge dest_alias must be host/agent")
    else checked_alias host agent

unfoldable pub parse_alias : String → Result (String × String)
unfolding cut_alias
parse_alias alias = cut_alias (cut alias)

named : String → Result (Unit {0}) → Result (Unit {0})
named what (ok _) = ok tt
named what (err e) = err (wrapped what e)

unfoldable pub validate_transfer_id : String → Result (Unit {0})
unfolding named
validate_transfer_id id =
    if contains_text id "/"
      || (contains_text id "\\" || contains_text id ".")
      || (has_prefix id "-" || has_prefix id ".")
    then err (message "bridge envelope transfer_id is invalid")
    else named "bridge envelope transfer_id" (validate_handle id)

-- The texts of an envelope that must not be blank or padded.
abbrev text_fields : Envelope → List String
text_fields env =
    env.transfer_id ∷ env.source_host ∷ env.source_handle ∷ env.dest_alias ∷ env.source_message_id
    ∷ env.thread_id ∷ env.payload_sha256 ∷ env.key_generation ∷ env.signature ∷ []

unfoldable pub trimmed : List String → Bool
trimmed [] = true
trimmed (v ∷ rest) =
    let later = trimmed rest in if trim_space v == "" || v != trim_space v then false else later

signature_length : Option Bytes → Bool
signature_length none = false
signature_length (some sig) = eqb (length sig) 64

unless : Bool → String → M (Unit {0})
unless b what = if b then pure tt else fail (message what)

-- `ValidateEnvelope`.
unfoldable pub validate_envelope : Crypto → Envelope → M (Unit {0})
unfolding signature_length unless named
validate_envelope crypto env = do
  unless (eqb env.version 1) "bridge envelope version is unsupported"
  unless (trimmed (text_fields env)) "bridge envelope field is invalid"
  lift (named "bridge envelope source_host" (validate_handle env.source_host))
  lift (named "bridge envelope source_handle" (validate_handle env.source_handle))
  lift (parse_alias env.dest_alias)
  lift (validate_transfer_id env.transfer_id)
  unless (equal_fold env.payload_sha256 (crypto.digest env.payload))
      "payload_sha256 does not match payload"
  unless (not (is_empty env.payload)) "bridge envelope payload is empty"
  unless (signature_length (crypto.decode_hex env.signature)) "bridge envelope signature is invalid"

-- `TransferFilename`.
unfoldable pub transfer_filename : String → String → String
transfer_filename source_host transfer_id =
    "xfer-" <> (source_host <> ("-" <> (transfer_id <> ".md")))

pub record Applied : Type 0 where
  pub path : FilePath
  pub replayed : Bool

existed : Option Error → Bool
existed none = true
existed (some e) = false

-- The delivery met a file of the name: the same payload is a replay.
collided : FilePath → Bytes → Error → M Applied
collided rel payload e =
    if is eexist e
    then cases (read_regular_no_follow rel)
        (λ existing.
          if existing == payload then pure (record { path = rel; replayed = true }) else fail e)
        (λ _. fail e)
    else fail e

unfoldable pub stat_error : FilePath → M (Option Error)
stat_error rel = cases (root_stat rel) (λ _. pure none) (λ e. pure (some e))

-- The delivery of an envelope that is addressed to the agent.
unfoldable pub deliver_envelope : (String → M (Unit {0})) → String → Envelope → M Applied
unfolding existed collided
deliver_envelope validate_layout local_agent env =
    let filename = transfer_filename env.source_host env.transfer_id in
    let rel = join (inbox_new_dir local_agent) filename in
    do
      before ← stat_error rel
      cases (deliver_to_existing_inbox validate_layout local_agent filename env.payload)
          (λ path. pure (record { path = path; replayed = existed before }))
          (collided rel env.payload)

-- `ApplyEnvelope`.
unfoldable pub apply_envelope :
    Crypto → (String → M (Unit {0})) → String → String → Envelope → M Applied
apply_envelope crypto validate_layout local_host local_agent env = do
  validate_envelope crypto env
  dest ← lift (parse_alias env.dest_alias)
  if dest.0 != local_host
      then fail (message "bridge dest_alias host is not local host")
      else if dest.1 != local_agent
      then fail (message "bridge dest_alias agent is not local agent")
      else deliver_envelope validate_layout local_agent env
