-- ===== src/Bridge/Auth/Tests.antt =====
-- A signed envelope, at concrete inputs.
use native.Mathlib.Decide.{ℕ_discrete}
use agent_message_queue.Base.{
  ◌<>◌, ◌≡◌, refl, arith, ℕ, zero, suc, true, some, [], ◌∷◌, string_eq, codes_eq,
}
use agent_message_queue.Base.Text.{to_lower, trim_space, contains_text, has_prefix, equal_fold}
use agent_message_queue.Fsq.Store.{Root, Bytes}
use agent_message_queue.Fsq.Monad.{ok, cases}
use agent_message_queue.Fsq.Names.{validate_handle, validate_legacy_inspectable_handle, handle_char}
use agent_message_queue.Bridge.{
  Envelope, Crypto, cut, parse_alias, trimmed, validate_transfer_id, validate_envelope,
}
use agent_message_queue.Bridge.Auth.{
  Signing, HostKey, canonical_bytes, sign_envelope, verify_envelope,
}
use agent_message_queue.Bridge.Auth.Sound.{Promises, verify_envelope-sign_envelope}
use agent_message_queue.Bridge.Auth.Binding.{
  HasOneLines, SameSigned, SameSigned-canonical_bytes, canonical_bytes_shared,
}

abbrev letter : Envelope
letter = record {
  version = 1;
  transfer_id = "t1";
  source_host = "north";
  source_handle = "alice";
  dest_alias = "south/bob";
  source_message_id = "m1";
  thread_id = "t2";
  payload_sha256 = "00";
  key_generation = "k1";
  signature = "ff";
  payload = 104 ∷ 105 ∷ [];
}

abbrev zeros : ℕ → Bytes
zeros zero = []
zeros (suc n) = 0 ∷ zeros n

-- Signatures of one kind, which every key makes and accepts.
abbrev plain : Crypto
plain = record { digest = λ b. "00"; decode_hex = λ s. some (zeros 64) }

abbrev naive : Signing
naive = record {
  sign = λ k m. zeros 64;
  verify = λ k m s. true;
  public_key = λ k. k;
  encode_hex = λ b. "00";
}

abbrev key : HostKey
key = record { generation = "k1"; private_key = [] }

abbrev some_root : Root
some_root = record { files = []; dirs = []; faults = []; tokens = []; pinned = true }

signed : ((sign_envelope plain naive letter key).1 some_root).0 ≡ ok tt
unfolding sign_envelope validate_envelope trimmed validate_transfer_id parse_alias cut string_eq
    codes_eq trim_space contains_text has_prefix equal_fold validate_handle
    validate_legacy_inspectable_handle handle_char cases ℕ_discrete
signed = refl

promises : Promises plain naive
promises = record { verifies = λ k m. refl; decodes = λ k m. refl }

verify_envelope-sign_envelope_example :
    (verify_envelope plain naive (sign_envelope plain naive letter key).0 [] "k1" some_root).0
    ≡ ok tt
verify_envelope-sign_envelope_example =
    verify_envelope-sign_envelope plain naive letter key some_root promises signed

one_lines : HasOneLines letter
unfolding to_lower
one_lines = record {
  version = refl;
  transfer_id = omega arith;
  source_host = omega arith;
  source_handle = omega arith;
  dest_alias = omega arith;
  source_message_id = omega arith;
  thread_id = omega arith;
  payload_sha256 = omega arith;
  key_generation = omega arith;
}

-- The same letter with another signature and payload.
abbrev forged : Envelope
forged = record letter { signature = "00"; payload = 1 ∷ [] }

same_bytes : canonical_bytes letter ≡ canonical_bytes forged
unfolding canonical_bytes
same_bytes = refl

forged_lines : HasOneLines forged
unfolding to_lower
forged_lines = record {
  version = refl;
  transfer_id = omega arith;
  source_host = omega arith;
  source_handle = omega arith;
  dest_alias = omega arith;
  source_message_id = omega arith;
  thread_id = omega arith;
  payload_sha256 = omega arith;
  key_generation = omega arith;
}

SameSigned-canonical_bytes_example : SameSigned letter forged
SameSigned-canonical_bytes_example =
    SameSigned-canonical_bytes letter forged one_lines forged_lines same_bytes

abbrev moved_left : Envelope
moved_left = record letter {
  source_message_id = "m1" <> ("\nthread_id=" <> "t2");
  thread_id = "t3";
}

abbrev moved_right : Envelope
moved_right = record letter {
  source_message_id = "m1";
  thread_id = "t2" <> ("\nthread_id=" <> "t3");
}

-- Both pass the check.
left_valid : (validate_envelope plain moved_left some_root).0 ≡ ok tt
unfolding validate_envelope trimmed validate_transfer_id parse_alias cut string_eq codes_eq
    trim_space contains_text has_prefix equal_fold validate_handle
    validate_legacy_inspectable_handle handle_char cases ℕ_discrete
left_valid = refl

right_valid : (validate_envelope plain moved_right some_root).0 ≡ ok tt
unfolding validate_envelope trimmed validate_transfer_id parse_alias cut string_eq codes_eq
    trim_space contains_text has_prefix equal_fold validate_handle
    validate_legacy_inspectable_handle handle_char cases ℕ_discrete
right_valid = refl

canonical_bytes_shared_example : canonical_bytes moved_left ≡ canonical_bytes moved_right
canonical_bytes_shared_example = canonical_bytes_shared letter "m1" "t2" "t3"
