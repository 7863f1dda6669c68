-- ===== src/Fsq/Dlq/Refusal/Spent.antt =====
-- What a retry does with an envelope that is delivered, or has used up its retries.
use agent_message_queue.Base.{
  ◌≤◌, String, arith, ◌≡◌, ◌≢◌, ◌⊎◌, inl, inr, Bool, false, none, some, Option, string_eq, ◌==◌,
  ◌||◌, not, ◌&&◌, leb, if◌then◌else◌,
}
use agent_message_queue.Fsq.Store.{FilePath, Files, Bytes, path_eq}
use agent_message_queue.Fsq.Errors.{is_not_exist}
use agent_message_queue.Fsq.Monad.{lift, cases}
use agent_message_queue.Fsq.Monad.Triple.{
  Post, post, Triple, Triple-then, Triple-bind, Triple-cases, Triple-if, Triple-pure, Triple-fail,
  Triple-quiet, Quiet, files-lift,
}
use agent_message_queue.Fsq.Syscall.{tick, stat}
use agent_message_queue.Fsq.Names.{validate_message_filename}
use agent_message_queue.Fsq.Root.{verify_base}
use agent_message_queue.Fsq.Claim.{Box}
use agent_message_queue.Fsq.Dlq.{
  Envelope, max_retries, state_pending, state_delivered, state_indeterminate,
}
use agent_message_queue.Fsq.Dlq.Format.{Codec}
use agent_message_queue.Fsq.Dlq.Moves.{root_stat}
use agent_message_queue.Fsq.Dlq.Retry.{original_box, finish_earlier, fresh_retry, retry_envelope}

pub files-root_stat : (p : FilePath) → Quiet (root_stat p)
unfolding root_stat verify_base stat cases tick
files-root_stat p r = ground arith

original_box-Triple :
    (codec : Codec) (agent file : String) (P : Files → Type 0)
    → Triple P (original_box codec agent file) (post (λ _. P) P)
unfolding original_box
original_box-Triple codec agent file P =
    Triple-cases (root_stat _) _ _ (Triple-quiet _ (files-root_stat _))
      (λ _. Triple-pure _ (λ fs p. p))
      λ e.
        Triple-if (is_not_exist e) _ _
          (λ _.
            Triple-cases (root_stat _) _ _ (Triple-quiet _ (files-root_stat _))
              (λ _. Triple-pure _ (λ fs p. p))
              λ e'.
                Triple-if (is_not_exist e') _ _ (λ _. Triple-pure _ (λ fs p. p))
                  (λ _. Triple-fail _ (λ fs p. p)))
          (λ _. Triple-fail _ (λ fs p. p))

-- An envelope whose retry is over, or that has used up its retries without force.
abbrev pub Exhausted : Bool → Envelope → Type 0
Exhausted force env =
    (env.retry_state ≡ state_delivered)
    ⊎ ((env.retry_state ≢ state_pending)
        × (env.retry_state ≢ state_indeterminate)
        × (max_retries ≤ env.retry_count)
        × (force ≡ false))

module _ (codec : Codec) (agent filename : String) (path : FilePath) (box : Box)
    (content : Bytes) where
  abbrev pub Refused : Files → Post (Unit {0})
  Refused fs = post (λ _ gs. ⊥) (λ gs. gs ≡ fs)

  refused_fresh :
      (env : Envelope) (fs : Files) (present : Option Box)
      → max_retries ≤ env.retry_count
      → Triple
          (λ gs. gs ≡ fs)
          (fresh_retry codec false agent filename path box env content present)
          (Refused fs)
  unfolding fresh_retry
  refused_fresh env fs (some b) h = Triple-fail _ (λ gs e. e)
  refused_fresh env fs none h =
      Triple-if (leb max_retries env.retry_count && not false) _ _ (λ _. Triple-fail _ (λ gs e. e))
        (λ n. ground arith)

  refused_present :
      (env : Envelope) (fs : Files) (present : Option Box) (force : Bool)
      → env.retry_state ≢ state_delivered
      → Exhausted force env
      → Triple
          (λ gs. gs ≡ fs)
          (if env.retry_state == state_pending || env.retry_state == state_indeterminate
            then finish_earlier codec agent filename path box env content present
            else fresh_retry codec force agent filename path box env content present)
          (Refused fs)
  refused_present env fs present force ne (inl d) = elim (ne d) [ ]
  refused_present env fs present force ne (inr (p, q, h, f)) =
      Triple-if (env.retry_state == state_pending || env.retry_state == state_indeterminate) _ _
        (λ e. ground (arith, e, p, q)) (λ _. rw f (refused_fresh env fs present h))

  pub Exhausted-Triple :
      (env : Envelope) (fs : Files) (force : Bool)
      → Exhausted force env
      → Triple
          (λ gs. gs ≡ fs)
          (retry_envelope codec force agent filename path box env content)
          (Refused fs)
  unfolding retry_envelope
  Exhausted-Triple env fs force h =
      Triple-then (lift (validate_message_filename env.original_file)) _ (files-lift _)
        (λ _.
          Triple-if (env.retry_state == state_delivered) _ _ (λ _. Triple-fail _ (λ gs e. e))
            (λ n.
              Triple-bind (original_box codec agent env.original_file) _
                (original_box-Triple codec agent env.original_file _)
                (λ present. refused_present env fs present force (λ e. ground (arith, e, n)) h)
                (λ e gs d. d)))
        (λ e gs d. d)
