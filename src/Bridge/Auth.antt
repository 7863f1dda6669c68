-- ===== src/Bridge/Auth.antt =====
-- auth.go: the signature of an envelope, and the text of the file that names the host. Ed25519 is the
-- parameter `Signing`.
pub mod Binding
pub mod Sound
pub mod HostId
pub mod Tests
use agent_message_queue.Base.{
  ℕ, zero, suc, ◌+◌, String, ◌<>◌, Bool, Option, none, some, List, [], ◌∷◌, ◌++◌, string_eq, ◌==◌,
  ◌!=◌, ◌&&◌, ltb, if◌then◌else◌,
}
use Prim.Native.Nat.{◌/◌, ◌%◌}
use agent_message_queue.Base.Text.{codes, to_lower, trim_space}
use agent_message_queue.Fsq.Store.{Bytes}
use agent_message_queue.Fsq.Errors.{message, wrapped}
use agent_message_queue.Fsq.Monad.{Result, ok, err, M, pure, fail, ◌>>=◌, ◌>>◌}
use agent_message_queue.Fsq.Names.{validate_handle}
use agent_message_queue.Bridge.{Envelope, Crypto, validate_envelope}

-- `ed25519` and `hex.EncodeToString`.
pub record Signing : Type 0 where
  pub sign : Bytes → Bytes → Bytes
  pub verify : Bytes → Bytes → Bytes → Bool
  pub public_key : Bytes → Bytes
  pub encode_hex : Bytes → String

pub record HostKey : Type 0 where
  pub generation : String
  pub private_key : Bytes

-- `strconv.Itoa`: the digits before those that are there; `n + 1` rounds are enough.
decimal_onto : ℕ → ℕ → Bytes → Bytes
decimal_onto zero n ds = ds
decimal_onto (suc fuel) n ds =
    let longer = decimal_onto fuel (n / 10) ((48 + n % 10) ∷ ds) in
    if ltb n 10 then (48 + n) ∷ ds else longer

unfoldable pub decimal : ℕ → Bytes
unfolding decimal_onto
decimal n = decimal_onto (n + 1) n []

-- `strings.Join(lines, "\n")`.
abbrev pub join_lines : List Bytes → Bytes
join_lines [] = []
join_lines (l ∷ []) = l
join_lines (l ∷ m ∷ rest) = l ++ 10 ∷ join_lines (m ∷ rest)

-- `CanonicalBytes`.
unfoldable pub canonical_bytes : Envelope → Bytes
canonical_bytes env = join_lines (
    codes "amq-bridge-envelope-v1"
    ∷ (codes "version=" ++ decimal env.version)
    ∷ (codes "transfer_id=" ++ codes env.transfer_id)
    ∷ (codes "source_host=" ++ codes env.source_host)
    ∷ (codes "source_handle=" ++ codes env.source_handle)
    ∷ (codes "dest_alias=" ++ codes env.dest_alias)
    ∷ (codes "source_message_id=" ++ codes env.source_message_id)
    ∷ (codes "thread_id=" ++ codes env.thread_id)
    ∷ (codes "payload_sha256=" ++ to_lower env.payload_sha256)
    ∷ (codes "key_generation=" ++ codes env.key_generation)
    ∷ [])

module _ (crypto : Crypto) (signing : Signing) where
  -- `SignEnvelope`: the envelope as it is left, and the error.
  unfoldable pub sign_envelope : Envelope → HostKey → Envelope × M (Unit {0})
  sign_envelope env key =
      let signed = record env {
        signature = signing.encode_hex (signing.sign key.private_key (canonical_bytes env));
      } in
      if env.key_generation != key.generation
      then (env, fail (message "key_generation does not match identity generation"))
      else (signed, validate_envelope crypto signed)

  verify_decoded : Envelope → Bytes → Option Bytes → M (Unit {0})
  verify_decoded env pub_key none = fail (message "bridge envelope signature")
  verify_decoded env pub_key (some sig) =
      if signing.verify pub_key (canonical_bytes env) sig
      then pure tt
      else fail (message "bridge envelope signature does not match source host")

  -- `VerifyEnvelope`.
  unfoldable pub verify_envelope : Envelope → Bytes → String → M (Unit {0})
  unfolding verify_decoded
  verify_envelope env pub_key generation = do
    validate_envelope crypto env
    if env.key_generation != generation
        then fail (message "envelope key_generation is not the trusted generation")
        else verify_decoded env pub_key (crypto.decode_hex env.signature)

-- `parseHostID`.
checked_host : String → String → Result (Unit {0}) → Result String
checked_host data' host (err e) = err (wrapped "bridge host-id" e)
checked_host data' host (ok _) =
    if data' != (host <> "\n") && data' != host
    then err (message "bridge host-id has surrounding whitespace")
    else ok host

unfoldable pub parse_host_id : String → Result String
unfolding checked_host
parse_host_id data' = checked_host data' (trim_space data') (validate_handle (trim_space data'))
