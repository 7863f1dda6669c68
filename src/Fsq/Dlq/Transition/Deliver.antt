-- ===== src/Fsq/Dlq/Transition/Deliver.antt =====
-- What the delivery of an envelope to `dlq/new` does to the tree.
use agent_message_queue.Base.{
  String, arith, ◌≡◌, ◌≢◌, ◌⊎◌, ◌∙◌, sym, ap, inl, inr, refl, none, some,
}
use agent_message_queue.Base.Dict.{lookup}
use agent_message_queue.Fsq.Store.{FilePath, Files, Bytes, regular, dlq_tmp, join, path_eq}
use agent_message_queue.Fsq.Monad.{cases, on_error, ignore}
use agent_message_queue.Fsq.Monad.Triple.{
  post, Triple, Triple-then, Triple-bind, Triple-pure, Triple-fail, Triple-quiet, Triple-on_error,
  Triple-under, Triple-mono, Triple-given, Triple-ignore, Quiet,
}
use agent_message_queue.Fsq.Syscall.{tick, mkdir_all, sync_dir, unique_token}
use agent_message_queue.Fsq.Syscall.Effect.{files-mkdir_all, files-sync_dir, files-unique_token}
use agent_message_queue.Fsq.Root.{verify_base, write_and_sync, cleanup_temp}
use agent_message_queue.Fsq.Root.Write.{Except}
use agent_message_queue.Fsq.Delivery.{unique_attempt_tmp_path, publish_tmp_no_replace}
use agent_message_queue.Fsq.Delivery.Publish.{Published}
use agent_message_queue.Fsq.Delivery.Single.{written-Triple, synced-Triple, Published-Triple}
use agent_message_queue.Fsq.Dlq.Moves.{dlq_new_dir, dlq_tmp_dir, deliver_to_dlq}

files-base : Quiet verify_base
unfolding verify_base cases tick
files-base r = ground arith

-- Outside `dlq/tmp` a path holds what it held; only the path of the envelope, if it was free, may hold
-- the envelope instead.
abbrev pub Enveloped : FilePath → Bytes → Files → Files → Type 0
Enveloped n b fs gs =
    (q : FilePath)
    → q.leaf ≢ dlq_tmp
    → (lookup q gs ≡ lookup q fs)
      ⊎ ((q ≡ n) × (lookup q fs ≡ none) × (lookup q gs ≡ some (regular b)))

module _ (n : FilePath) (b : Bytes) (fs : Files) where
  Except-Enveloped :
      (t : FilePath) (gs : Files) → t.leaf ≡ dlq_tmp → Except t fs gs → Enveloped n b fs gs
  Except-Enveloped t gs e h q ne = inl (h q (λ p. ne (ap (λ (q : FilePath). q.leaf) p ∙ e)))

  Published-Enveloped :
      (t : FilePath) (apart : t ≢ n) (gs : Files)
      → t.leaf ≡ dlq_tmp
      → Published t n b apart fs gs
      → Enveloped n b fs gs
  Published-Enveloped t apart gs e (stored, before, h) q ne = elim (path_eq.dec q n) [
    | yes p ↦ elim before [
      | inl absent ↦ inr (
        p,
        ap (λ (r : FilePath). lookup r fs) p ∙ absent,
        ap (λ (r : FilePath). lookup r gs) p ∙ stored,
      )
      | inr there ↦ inl (
          ap (λ (r : FilePath). lookup r gs) p
          ∙ stored
          ∙ sym (ap (λ (r : FilePath). lookup r fs) p ∙ there))
    ]
    | no k ↦ inl (h q (λ p. ne (ap (λ (q : FilePath). q.leaf) p ∙ e)) k)
  ]

  -- The envelope stands, or the delivery has failed; either way nothing else has changed.
  abbrev pub Delivered : FilePath → Files → Type 0
  Delivered p gs = (p ≡ n) × (lookup n gs ≡ some (regular b)) × Enveloped n b fs gs

module _ (agent filename : String) (b : Bytes) (fs : Files) where
  abbrev dest : FilePath
  dest = join (dlq_new_dir agent) filename

  tmp-Triple :
      Triple
        (λ gs. gs ≡ fs)
        (unique_attempt_tmp_path (dlq_tmp_dir agent) filename)
        (post (λ t gs. (gs ≡ fs) × (t.leaf ≡ dlq_tmp)) (Enveloped dest b fs))
  unfolding unique_attempt_tmp_path
  tmp-Triple =
      Triple-then unique_token _ files-unique_token (λ token. Triple-pure _ (λ gs h. (h, refl)))
        (λ e gs h. λ q ne. inl (ap (lookup q) h))

  apart : (t : FilePath) → t.leaf ≡ dlq_tmp → t ≢ dest
  apart t e p = cc (e, ap (λ (q : FilePath). q.leaf) p)

  same : (gs : Files) → gs ≡ fs → Enveloped dest b fs gs
  same gs h q ne = inl (ap (lookup q) h)

  abbrev Standing : Files → Type 0
  Standing gs = (lookup dest gs ≡ some (regular b)) × Enveloped dest b fs gs

  pub deliver_to_dlq-Triple :
      Triple
        (λ gs. gs ≡ fs)
        (deliver_to_dlq agent filename b)
        (post (Delivered dest b fs) (Enveloped dest b fs))
  unfolding deliver_to_dlq
  deliver_to_dlq-Triple =
      Triple-then verify_base _ files-base
        (λ _.
          Triple-then (mkdir_all (dlq_tmp_dir agent)) _ (files-mkdir_all _)
            (λ _.
              Triple-then (mkdir_all (dlq_new_dir agent)) _ (files-mkdir_all _)
                (λ _.
                  Triple-bind (unique_attempt_tmp_path (dlq_tmp_dir agent) filename) _ tmp-Triple
                    (λ t.
                      Triple-given (t.leaf ≡ dlq_tmp) _ (λ gs h. h.1)
                        λ l.
                          Triple-bind (write_and_sync t b) _
                            (Triple-under _ (λ gs h. h.0) (written-Triple t dest b (apart t l) fs))
                            (λ _.
                              Triple-bind (on_error (sync_dir (dlq_tmp_dir agent)) (cleanup_temp t))
                                _ (synced-Triple t dest b (apart t l) fs (dlq_tmp_dir agent))
                                (λ _.
                                  Triple-bind (publish_tmp_no_replace t dest b) _
                                    (Triple-mono {F' = λ _. Standing} {G' = Enveloped dest b fs} _
                                      (Published-Triple t dest b (apart t l) fs)
                                      (λ _ gs h.
                                        (h.0, Published-Enveloped dest b fs t (apart t l) gs l h))
                                      (λ gs h. Except-Enveloped dest b fs t gs l h))
                                    (λ _.
                                      Triple-bind (on_error (sync_dir (dlq_new_dir agent)) _) _
                                        (Triple-on_error
                                          {Q = post (λ _. Standing) (Enveloped dest b fs)}
                                          (sync_dir (dlq_new_dir agent)) _
                                          (Triple-quiet _ (files-sync_dir _)) (λ _ gs h. h)
                                          (λ e. Triple-fail _ (λ gs h. h.1)))
                                        (λ _.
                                          Triple-bind (ignore (sync_dir (dlq_tmp_dir agent))) _
                                            (Triple-ignore _ (Triple-quiet _ (files-sync_dir _)))
                                            (λ _. Triple-pure _ (λ gs h. (refl, h.0, h.1)))
                                            (λ e gs h. absurd h))
                                        (λ e gs h. h))
                                    (λ e gs h. h))
                                (λ e gs h. Except-Enveloped dest b fs t gs l h))
                            (λ e gs h. Except-Enveloped dest b fs t gs l h))
                    (λ e gs h. h))
                (λ e gs h. same gs h))
            (λ e gs h. same gs h))
        (λ e gs h. same gs h)
