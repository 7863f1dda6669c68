-- ===== src/Bridge/Auth/Sound.antt =====
-- What is signed is verified.
use agent_message_queue.Base.{String, arith, ◌≡◌, refl, true, some, string_eq}
use agent_message_queue.Fsq.Store.{Root, Bytes}
use agent_message_queue.Fsq.Monad.{ok, cases}
use agent_message_queue.Bridge.{Envelope, Crypto}
use agent_message_queue.Bridge.Auth.{
  Signing, HostKey, canonical_bytes, sign_envelope, verify_decoded, verify_envelope,
}

-- What Ed25519 and hexadecimal texts promise: a signature is verified by the key's public half, and the hexadecimal text of a signature is decoded as the signature.
pub record Promises (crypto : Crypto) (signing : Signing) : Type 0 where
  pub verifies :
      (key content : Bytes)
      → signing.verify (signing.public_key key) content (signing.sign key content) ≡ true
  pub decodes :
      (key content : Bytes)
      → crypto.decode_hex (signing.encode_hex (signing.sign key content))
        ≡ some (signing.sign key content)

canonical_unsigned :
    (env : Envelope) (s : String)
    → canonical_bytes (record env { signature = s }) ≡ canonical_bytes env
unfolding canonical_bytes
canonical_unsigned env s = refl

-- An envelope that was signed without error passes the verification by the public half of the key and
-- its generation, where Ed25519 and the hexadecimal texts keep their promises.
pub verify_envelope-sign_envelope :
    (crypto : Crypto) (signing : Signing) (env : Envelope) (key : HostKey) (r : Root)
    → Promises crypto signing
    → ((sign_envelope crypto signing env key).1 r).0 ≡ ok tt
    → (verify_envelope crypto signing
        (sign_envelope crypto signing env key).0
        (signing.public_key key.private_key)
        key.generation
        r).0
      ≡ ok tt
unfolding sign_envelope verify_envelope verify_decoded cases
verify_envelope-sign_envelope crypto signing env key r p h = ground (
  arith,
  p.verifies key.private_key (canonical_bytes env),
  p.decodes key.private_key (canonical_bytes env),
  canonical_unsigned env (signing.encode_hex (signing.sign key.private_key (canonical_bytes env))),
)
