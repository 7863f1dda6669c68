-- ===== src/Fsq/Delivery/Single.antt =====
-- The three steps that every delivery of one file takes: it writes a temporary file, syncs its
-- directory, and publishes it, from the files `fs` on.
use agent_message_queue.Base.{◌≡◌, ◌≢◌, ◌∙◌, sym, ap, inl, inr, refl}
use agent_message_queue.Base.Dict.{lookup}
use agent_message_queue.Fsq.Store.{Dir, FilePath, Files, Bytes, path_eq}
use agent_message_queue.Fsq.Monad.{Result, ok, err, on_error}
use agent_message_queue.Fsq.Monad.Triple.{
  post, Triple, Triple-quiet, Triple-on_error, Triple-under, Triple-mono,
}
use agent_message_queue.Fsq.Syscall.{sync_dir}
use agent_message_queue.Fsq.Syscall.Effect.{files-sync_dir}
use agent_message_queue.Fsq.Root.{write_and_sync, cleanup_temp}
use agent_message_queue.Fsq.Root.Write.{
  Except, Stored, Untouched, write_and_sync-Triple, cleanup_temp-Triple,
}
use agent_message_queue.Fsq.Delivery.{publish_tmp_no_replace}
use agent_message_queue.Fsq.Delivery.Publish.{Published, publish-Triple}

module _ (t n : FilePath) (b : Bytes) (apart : t ≢ n) (fs : Files) where
  untouched : (gs : Files) → Untouched t fs gs → Except t fs gs
  untouched gs (inl same) q ne = ap (lookup q) same
  untouched gs (inr (absent, h)) q ne = h q ne

  pub written-Triple :
      Triple (λ gs. gs ≡ fs) (write_and_sync t b) (post (λ _. Stored t b fs) (Except t fs))
  written-Triple = Triple-mono _ (write_and_sync-Triple t b fs) (λ _ gs h. h) untouched

  pub synced-Triple :
      (d : Dir)
      → Triple
          (Stored t b fs)
          (on_error (sync_dir d) (cleanup_temp t))
          (post (λ _. Stored t b fs) (Except t fs))
  synced-Triple d =
      Triple-on_error (sync_dir d) _ (Triple-quiet _ (files-sync_dir d)) (λ _ gs h. h)
        λ e.
          Triple-mono _ (Triple-under _ (λ gs h. h.0.1) (cleanup_temp-Triple t e fs))
            (λ _ gs h. absurd h) (λ gs h. h)

  published :
      (gs : Files)
      → Stored t b fs gs
      → (x : Result (Unit {0})) (hs : Files)
      → post (λ _. Published t n b apart gs) (Except t gs) x hs
      → post (λ _. Published t n b apart fs) (Except t fs) x hs
  published gs ((absent, h), held) (ok _) hs (stored, before, k) = (
    stored,
    elim before [
      | inl e ↦ inl (sym (h n (λ p. apart (sym p))) ∙ e)
      | inr e ↦ inr (sym (h n (λ p. apart (sym p))) ∙ e)
    ],
    λ q nt nn. k q nt nn ∙ h q nt,
  )
  published gs ((absent, h), held) (err _) hs k = λ q ne. k q ne ∙ h q ne

  pub Published-Triple :
      Triple
        (Stored t b fs)
        (publish_tmp_no_replace t n b)
        (post (λ _. Published t n b apart fs) (Except t fs))
  Published-Triple = record {
    at = λ r h.
        let m = publish_tmp_no_replace t n b r in
        published r.files h m.0 m.1.files ((publish-Triple t n b apart r.files h.1).at r refl);
  }
