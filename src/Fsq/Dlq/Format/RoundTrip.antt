-- ===== src/Fsq/Dlq/Format/RoundTrip.antt =====
-- dlq.go: an envelope that is written to its file is read back.
use agent_message_queue.Base.{
  ℕ, ◌<◌, arith, ◌≡◌, ◌≢◌, ◌⊎◌, inl, inr, refl, sym, ap, ◌∙◌, false, some, [], ◌∷◌, ◌++◌, All,
  string_eq, ne_of_test, ◌==◌,
}
use agent_message_queue.Fsq.Store.{Bytes}
use agent_message_queue.Fsq.Dlq.{
  Envelope, valid, normalize_retry_state, set_retry_state, state_ready, state_pending,
  state_delivered, state_indeterminate,
}
use agent_message_queue.Fsq.Dlq.RetryState.{IsNormal, normalize-IsNormal}
use agent_message_queue.Fsq.Dlq.Format.{
  Codec, fence_start, fence_end, normalize_newlines, after_prefix, serialize, parse, EndsAt,
}

abbrev pub HasNoCr : Bytes → Type 0
HasNoCr = All (λ c. c ≢ 13)

pub newlines_cons :
    (c : ℕ) (s : Bytes) → c ≢ 13 → normalize_newlines (c ∷ s) ≡ c ∷ normalize_newlines s
unfolding normalize_newlines
newlines_cons c [] h = refl
newlines_cons c (d ∷ s) h = ground arith

pub newlines_append :
    (a s : Bytes) → HasNoCr a → normalize_newlines (a ++ s) ≡ a ++ normalize_newlines s
newlines_append [] s h = refl
newlines_append (c ∷ a) s (n, h) =
    newlines_cons c (a ++ s) n ∙ ap (λ (t : Bytes). c ∷ t) (newlines_append a s h)

pub after_prefix-append : (p s : Bytes) → after_prefix p (p ++ s) ≡ some s
unfolding after_prefix
after_prefix-append [] s = refl
after_prefix-append (c ∷ p) s = ground (arith, after_prefix-append p s)

-- A state that a reader accepts: a retry that has been tried is counted.
abbrev pub IsCounted : Envelope → Type 0
IsCounted env = (env.retry_state ≡ state_ready) ⊎ (0 < env.retry_count)

set_same :
    (env : Envelope)
    → env.retry_pending ≡ (env.retry_state == state_pending)
    → env.retry_delivered ≡ (env.retry_state == state_delivered)
    → set_retry_state env env.retry_state ≡ env
unfolding set_retry_state
set_same env p d = rw (sym p, sym d) refl

-- The four states, and the text of an envelope without one, all differ.
ready_ne : (state_ready ≢ "") × (state_ready ≢ state_pending) × (state_ready ≢ state_delivered)
ready_ne = (
  ne_of_test state_ready "" (unfold string_eq in refl),
  ne_of_test state_ready state_pending (unfold string_eq in refl),
  ne_of_test state_ready state_delivered (unfold string_eq in refl),
)

pending_ne :
    (state_pending ≢ "") × (state_pending ≢ state_ready) × (state_pending ≢ state_delivered)
pending_ne = (
  ne_of_test state_pending "" (unfold string_eq in refl),
  ne_of_test state_pending state_ready (unfold string_eq in refl),
  ne_of_test state_pending state_delivered (unfold string_eq in refl),
)

delivered_ne :
    (state_delivered ≢ "") × (state_delivered ≢ state_ready) × (state_delivered ≢ state_pending)
delivered_ne = (
  ne_of_test state_delivered "" (unfold string_eq in refl),
  ne_of_test state_delivered state_ready (unfold string_eq in refl),
  ne_of_test state_delivered state_pending (unfold string_eq in refl),
)

indeterminate_ne :
    (state_indeterminate ≢ "")
    × (state_indeterminate ≢ state_ready)
    × (state_indeterminate ≢ state_pending)
    × (state_indeterminate ≢ state_delivered)
indeterminate_ne = (
  ne_of_test state_indeterminate "" (unfold string_eq in refl),
  ne_of_test state_indeterminate state_ready (unfold string_eq in refl),
  ne_of_test state_indeterminate state_pending (unfold string_eq in refl),
  ne_of_test state_indeterminate state_delivered (unfold string_eq in refl),
)

accepted :
    (env : Envelope)
    → IsNormal env
    → IsCounted env
    → normalize_retry_state env ≡ valid (set_retry_state env env.retry_state)
unfolding normalize_retry_state
accepted env n c = go env n.known n.pending n.delivered n.counted c
  where
    go :
        (env : Envelope)
        → (env.retry_state ≡ state_ready)
          ⊎ ((env.retry_state ≡ state_pending)
              ⊎ ((env.retry_state ≡ state_delivered) ⊎ (env.retry_state ≡ state_indeterminate)))
        → env.retry_pending ≡ (env.retry_state == state_pending)
        → env.retry_delivered ≡ (env.retry_state == state_delivered)
        → env.negative_count ≡ false
        → IsCounted env
        → normalize_retry_state env ≡ valid (set_retry_state env env.retry_state)
    go env (inl k) p d m c = ground (arith, ready_ne)
    go env (inr (inl k)) p d m c = ground (arith, pending_ne)
    go env (inr (inr (inl k))) p d m c = ground (arith, delivered_ne)
    go env (inr (inr (inr k))) p d m c = ground (arith, indeterminate_ne)

normal_again :
    (env : Envelope) → IsNormal env → IsCounted env → normalize_retry_state env ≡ valid env
normal_again env n c = accepted env n c ∙ ap valid (set_same env n.pending n.delivered)

-- What `encoding/json` does with one envelope: it is decoded to what was encoded, and the text of an
-- indented object has no carriage return and no line that is the closing fence.
pub record Encodes (codec : Codec) (env : Envelope) (body : Bytes) : Type 0 where
  pub decoded : codec.decode (codec.encode env) ≡ some env
  pub no_cr : HasNoCr (codec.encode env)
  pub ends : EndsAt (codec.encode env) body

newlines-file :
    (header content : Bytes)
    → HasNoCr header
    → normalize_newlines (fence_start ++ (header ++ (fence_end ++ content)))
      ≡ fence_start ++ (header ++ (fence_end ++ normalize_newlines content))
newlines-file header content h =
    newlines_append fence_start (header ++ (fence_end ++ content)) fence_start_no_cr
    ∙ ap (λ (t : Bytes). fence_start ++ t)
        (newlines_append header (fence_end ++ content) h
          ∙ ap (λ (t : Bytes). header ++ t) (newlines_append fence_end content fence_end_no_cr))
  where
    fence_start_no_cr : HasNoCr fence_start
    fence_start_no_cr =
        (λ p. omega arith, (λ p. omega arith, (λ p. omega arith, (λ p. omega arith, tt))))

    fence_end_no_cr : HasNoCr fence_end
    fence_end_no_cr = (
      λ p. omega arith,
      (λ p. omega arith, (λ p. omega arith, (λ p. omega arith, (λ p. omega arith, tt)))),
    )

-- The file that is written for an envelope and a message is read back as the envelope, in the normal
-- form of its retry state, and the message with its line ends normalised, where the JSON of the
-- envelope round-trips and the retry that it records is counted.
pub parse-serialize :
    (codec : Codec) (env env' : Envelope) (content file : Bytes)
    → normalize_retry_state env ≡ valid env'
    → IsCounted env'
    → Encodes codec env' (normalize_newlines content)
    → serialize codec env content ≡ some file
    → parse codec file ≡ some (env', normalize_newlines content)
unfolding serialize parse
parse-serialize codec env env' content file h c j e = ground (
  arith,
  h,
  e,
  j.decoded,
  j.ends,
  normal_again env' (normalize-IsNormal env env' h) c,
  newlines-file (codec.encode env') content j.no_cr,
  after_prefix-append fence_start (codec.encode env' ++ (fence_end ++ normalize_newlines content)),
)
