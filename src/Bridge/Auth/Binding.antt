-- ===== src/Bridge/Auth/Binding.antt =====
-- What the signed bytes say of an envelope.
use mathlib.Core.Path.{subst}
use text.Mathlib.TextEquality.{Char-path}
use mathlib.Core.List.{append_assoc}
use agent_message_queue.Base.{ℕ, String, ◌<>◌, arith, ◌≡◌, ◌≢◌, refl, sym, true, [], ◌∷◌, ◌++◌, All}
use agent_message_queue.Base.Text.{codes-append, codes, to_lower, equal_fold, equal_fold-to_lower}
use agent_message_queue.Fsq.Store.{Bytes}
use agent_message_queue.Bridge.{Envelope}
use agent_message_queue.Bridge.Auth.{canonical_bytes, decimal}

abbrev pub OneLine : Bytes → Type 0
OneLine = All (λ c. c ≢ 10)

codes_injective : (s t : String) → codes s ≡ codes t → s ≡ t
codes_injective String.[] String.[] h = refl
codes_injective String.[] (String.◌∷◌ d t) h = cc h
codes_injective (String.◌∷◌ c s) String.[] h = cc h
codes_injective (String.◌∷◌ c s) (String.◌∷◌ d t) h =
    cc (Char-path c d (cc h), codes_injective s t (cc h))

first_line :
    (a b r s : Bytes) → OneLine a → OneLine b → a ++ 10 ∷ r ≡ b ++ 10 ∷ s → (a ≡ b) × (r ≡ s)
first_line [] [] r s h k e = (refl, cc e)
first_line [] (c ∷ b) r s h (n, k) e = absurd (n (cc e))
first_line (c ∷ a) [] r s (n, h) k e = absurd (n (cc e))
first_line (c ∷ a) (d ∷ b) r s (n, h) (m, k) e =
    let (same, rest) = first_line a b r s h k (cc e) in (cc (e, same), rest)

cancel : (p a b : Bytes) → p ++ a ≡ p ++ b → a ≡ b
cancel [] a b h = h
cancel (c ∷ p) a b h = cancel p a b (cc h)

-- The fields whose texts are free, without their newlines.
pub record HasOneLines (e : Envelope) : Type 0 where
  pub version : e.version ≡ 1
  pub transfer_id : OneLine (codes e.transfer_id)
  pub source_host : OneLine (codes e.source_host)
  pub source_handle : OneLine (codes e.source_handle)
  pub dest_alias : OneLine (codes e.dest_alias)
  pub source_message_id : OneLine (codes e.source_message_id)
  pub thread_id : OneLine (codes e.thread_id)
  pub payload_sha256 : OneLine (to_lower e.payload_sha256)
  pub key_generation : OneLine (codes e.key_generation)

-- Two envelopes agree in what is signed; the digest is read without regard to case.
pub record SameSigned (e f : Envelope) : Type 0 where
  pub transfer_id : e.transfer_id ≡ f.transfer_id
  pub source_host : e.source_host ≡ f.source_host
  pub source_handle : e.source_handle ≡ f.source_handle
  pub dest_alias : e.dest_alias ≡ f.dest_alias
  pub source_message_id : e.source_message_id ≡ f.source_message_id
  pub thread_id : e.thread_id ≡ f.thread_id
  pub payload_sha256 : equal_fold e.payload_sha256 f.payload_sha256 ≡ true
  pub key_generation : e.key_generation ≡ f.key_generation

field_line :
    (p a b r s : Bytes)
    → OneLine a
    → OneLine b
    → (p ++ a) ++ 10 ∷ r ≡ (p ++ b) ++ 10 ∷ s
    → (a ≡ b) × (r ≡ s)
field_line [] a b r s h k e = first_line a b r s h k e
field_line (c ∷ p) a b r s h k e = field_line p a b r s h k (cc e)

one_line : (n : ℕ) → n ≡ 1 → OneLine (decimal n)
unfolding decimal
one_line n h = subst (λ n. OneLine (decimal n)) (sym h) (omega arith)

-- The signed bytes bind the envelope: two envelopes of version 1 whose signed fields hold no newline,
-- and whose signed bytes are the same, agree in every signed field, and so in the digest of the payload
-- up to the case of its letters.
pub SameSigned-canonical_bytes :
    (e f : Envelope)
    → HasOneLines e
    → HasOneLines f
    → canonical_bytes e ≡ canonical_bytes f
    → SameSigned e f
unfolding canonical_bytes
SameSigned-canonical_bytes e f a b h =
    let h0 = cancel (codes "amq-bridge-envelope-v1" ++ 10 ∷ []) _ _ h in
    let (_, h1) =
      field_line (codes "version=") _ _ _ _ (one_line e.version a.version)
        (one_line f.version b.version) h0 in
    let (transfer, h2) = field_line (codes "transfer_id=") _ _ _ _ a.transfer_id b.transfer_id h1 in
    let (host, h3) = field_line (codes "source_host=") _ _ _ _ a.source_host b.source_host h2 in
    let (handle, h4) =
      field_line (codes "source_handle=") _ _ _ _ a.source_handle b.source_handle h3 in
    let (dest, h5) = field_line (codes "dest_alias=") _ _ _ _ a.dest_alias b.dest_alias h4 in
    let (id, h6) =
      field_line (codes "source_message_id=") _ _ _ _ a.source_message_id b.source_message_id h5 in
    let (thread, h7) = field_line (codes "thread_id=") _ _ _ _ a.thread_id b.thread_id h6 in
    let (sha, h8) =
      field_line (codes "payload_sha256=") _ _ _ _ a.payload_sha256 b.payload_sha256 h7 in
    let generation = cancel (codes "key_generation=") _ _ h8 in
    record {
      transfer_id = codes_injective _ _ transfer;
      source_host = codes_injective _ _ host;
      source_handle = codes_injective _ _ handle;
      dest_alias = codes_injective _ _ dest;
      source_message_id = codes_injective _ _ id;
      thread_id = codes_injective _ _ thread;
      payload_sha256 = equal_fold-to_lower _ _ sha;
      key_generation = codes_injective _ _ generation;
    }

-- A newline in a field lets two different envelopes share their signed bytes: what stands after it in
-- the message id of the one may as well begin the thread of the other.
pub canonical_bytes_shared :
    (e : Envelope) (id thread thread' : String)
    → canonical_bytes
        (record e { source_message_id = id <> ("\nthread_id=" <> thread); thread_id = thread' })
      ≡ canonical_bytes
          (record e { source_message_id = id; thread_id = thread <> ("\nthread_id=" <> thread') })
unfolding canonical_bytes
canonical_bytes_shared e id thread thread' = simp (codes-append, append_assoc)
