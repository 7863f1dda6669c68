-- ===== src/Bridge/Tests.antt =====
-- Envelopes at concrete inputs.
use native.Mathlib.Decide.{ℕ_discrete}
use agent_message_queue.Base.{
  String, ◌≡◌, ◌≢◌, refl, arith, true, false, none, some, [], ◌∷◌, string_eq, codes_eq, ◌==◌,
}
use agent_message_queue.Base.Text.{trim_space, contains_text, has_prefix}
use agent_message_queue.Fsq.Store.{Root, path_eq, join, regular}
use agent_message_queue.Fsq.Delivery.{inbox_new_dir}
use agent_message_queue.Fsq.Delivery.Frame.{Delivers}
use agent_message_queue.Base.Dict.{lookup}
use agent_message_queue.Bridge.Deliver.{apply_holds}
use agent_message_queue.Fsq.Monad.{ok, pure}
use agent_message_queue.Fsq.Names.{validate_handle, validate_legacy_inspectable_handle, handle_char}
use agent_message_queue.Bridge.{
  Envelope, Crypto, Applied, cut, parse_alias, apply_envelope, transfer_filename,
}
use agent_message_queue.Bridge.Apply.{transfer_filename-shared, apply-refused}

transfer_filename-shared_example : transfer_filename "host-a" "b" ≡ transfer_filename "host" "a-b"
transfer_filename-shared_example = transfer_filename-shared "host" "a" "b"

abbrev letter : Envelope
letter = record {
  version = 1;
  transfer_id = "t1";
  source_host = "north";
  source_handle = "alice";
  dest_alias = "south/bob";
  source_message_id = "m1";
  thread_id = "p2p/alice__bob";
  payload_sha256 = "00";
  key_generation = "k1";
  signature = "ff";
  payload = 104 ∷ 105 ∷ [];
}

-- A digest and a decoding that know nothing.
abbrev plain : Crypto
plain = record { digest = λ b. "00"; decode_hex = λ s. none }

abbrev some_root : Root
some_root = record { files = []; dirs = []; faults = []; tokens = []; pinned = true }

parsed : parse_alias "south/bob" ≡ ok ("south", "bob")
unfolding parse_alias cut string_eq codes_eq trim_space contains_text has_prefix validate_handle
    validate_legacy_inspectable_handle handle_char ℕ_discrete
parsed = refl

differs : (s t : String) → (s == t) ≡ false → s ≢ t
differs s t h = ground arith

not_here : parse_alias "south/bob" ≢ ok ("west", "bob")
not_here e = ground (arith, e, parsed, differs "south" "west" (unfold string_eq in refl))

apply-refused_example :
    ((a : Applied) → (apply_envelope plain (λ _. pure tt) "west" "bob" letter some_root).0 ≢ ok a)
    × ((apply_envelope plain (λ _. pure tt) "west" "bob" letter some_root).1.files ≡ [])
apply-refused_example = apply-refused plain (λ _. pure tt) "west" "bob" letter some_root not_here

abbrev renamed : String
renamed = transfer_filename "north" "t1"

apply_holds_example :
    Delivers renamed letter.payload []
      (apply_envelope plain (λ _ r. (ok tt, r)) "south" "bob" letter some_root).1.files
    × ((a : Applied)
        → (apply_envelope plain (λ _ r. (ok tt, r)) "south" "bob" letter some_root).0 ≡ ok a
        → (a.path ≡ join (inbox_new_dir "bob") renamed)
          × (lookup a.path
                (apply_envelope plain (λ _ r. (ok tt, r)) "south" "bob" letter some_root).1.files
              ≡ some (regular letter.payload)))
apply_holds_example =
    apply_holds plain (λ _ r. (ok tt, r)) "south" "bob" letter some_root (λ a r. refl)
