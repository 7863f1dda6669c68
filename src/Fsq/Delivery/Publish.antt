-- ===== src/Fsq/Delivery/Publish.antt =====
-- What the publication of one temporary file does: it creates the destination in one step, or finds
-- the same content there, or fails and leaves every path but the temporary one alone.
use agent_message_queue.Base.{
  arith, ◌≡◌, ◌≢◌, ◌⊎◌, ◌∙◌, sym, ap, inl, inr, true, none, some, ◌==◌, codes_eq,
}
use agent_message_queue.Base.Dict.{lookup, lookup-insert, lookup-erase}
use agent_message_queue.Fsq.Store.{Root, FilePath, Files, Bytes, regular, eexist, path_eq}
use agent_message_queue.Fsq.Errors.{Error, is, is_not_exist, wrapped}
use agent_message_queue.Fsq.Monad.{cases, on_error}
use agent_message_queue.Fsq.Monad.Triple.{
  post, Triple, Triple-from, Triple-cases, Triple-on_error, Triple-pure, Triple-fail, Triple-if,
  Triple-under, Triple-keeps, Triple-mono,
}
use agent_message_queue.Fsq.Syscall.{tick, stat, read_all, remove, rename_no_replace}
use agent_message_queue.Fsq.Syscall.Effect.{remove_except, Moved, rename_no_replace-Triple}
use agent_message_queue.Fsq.Root.{verify_base, cleanup_temp, read_regular_no_follow}
use agent_message_queue.Fsq.Root.Write.{Except, cleanup_temp-Triple}
use agent_message_queue.Fsq.Delivery.{
  publish_tmp_no_replace, publish_failed, resolve_publish_collision, same_content, drop_idempotent,
}

pub read_post :
    (p : FilePath) (r : Root)
    → post
        (λ b gs. (gs ≡ r.files) × (lookup p r.files ≡ some (regular b)))
        (λ gs. gs ≡ r.files)
        (read_regular_no_follow p r).0
        (read_regular_no_follow p r).1.files
unfolding read_regular_no_follow verify_base stat read_all cases tick
read_post p r = ground arith

==-eq : (b c : Bytes) → (b == c) ≡ true → b ≡ c
==-eq b c h = ground arith

module _ (t n : FilePath) (b : Bytes) (apart : t ≢ n) (fs : Files) where
  -- The destination holds the data, it was absent or held them already, and all else is kept.
  abbrev pub Published : Files → Type 0
  Published gs =
      (lookup n gs ≡ some (regular b))
      × ((lookup n fs ≡ none) ⊎ (lookup n fs ≡ some (regular b)))
      × ((q : FilePath) → q ≢ t → q ≢ n → lookup q gs ≡ lookup q fs)

  Except-Published : (gs : Files) → lookup n fs ≡ some (regular b) → Except t fs gs → Published gs
  Except-Published gs e h = (h n (λ p. apart (sym p)) ∙ e, inr e, λ q ne _. h q ne)

  Moved-Published : lookup t fs ≡ some (regular b) → (gs : Files) → Moved t n fs gs → Published gs
  Moved-Published held gs (k, e, absent, moved) = (
    rw moved (rw lookup-insert (ground (arith, e, held))),
    inl absent,
    λ q nt nn. rw moved (rw (lookup-insert, lookup-erase) (ground arith)),
  )

  abbrev AlreadyThere : Files → Type 0
  AlreadyThere gs = Except t fs gs × (lookup n fs ≡ some (regular b))

  drop-Triple :
      Triple AlreadyThere
        (on_error (remove t) drop_idempotent)
        (post (λ _. Published) (Except t fs))
  unfolding drop_idempotent
  drop-Triple =
      Triple-on_error (remove t) _
        (Triple-keeps (remove t) λ r (h, e). (λ q ne. remove_except t q r ne ∙ h q ne, e))
        (λ _ gs h. Except-Published gs h.1 h.0)
        λ c.
          Triple-if (is_not_exist c) _ _ (λ _. Triple-pure tt (λ gs h. Except-Published gs h.1 h.0))
            (λ _. Triple-fail _ (λ gs h. h.0))

  same_content-Triple :
      (e : Error) (existing : Bytes)
      → Triple
          (λ gs. (gs ≡ fs) × (lookup n fs ≡ some (regular existing)))
          (same_content t b e existing)
          (post (λ _. Published) (Except t fs))
  unfolding same_content drop_idempotent
  same_content-Triple e existing =
      Triple-if (existing == b) _ _
        (λ same.
          Triple-under {S = AlreadyThere} _
            (λ gs h.
              (λ q ne. rw h.0, h.1 ∙ ap (λ (c : Bytes). some (regular c)) (==-eq existing b same)))
            drop-Triple)
        (λ _. Triple-fail e (λ gs h q ne. rw h.0))

  resolve-Triple :
      (e : Error)
      → Triple
          (λ gs. gs ≡ fs)
          (resolve_publish_collision t n b e)
          (post (λ _. Published) (Except t fs))
  unfolding resolve_publish_collision
  resolve-Triple e =
      Triple-cases (read_regular_no_follow n) _ _
        (Triple-from
          (λ gs. post (λ c hs. (hs ≡ gs) × (lookup n gs ≡ some (regular c))) (λ hs. hs ≡ gs)) _
          (read_post n) fs)
        (same_content-Triple e) λ c. Triple-fail (wrapped "inspect dest" e) (λ gs h q ne. rw h)

  pub publish-Triple :
      lookup t fs ≡ some (regular b)
      → Triple (λ gs. gs ≡ fs) (publish_tmp_no_replace t n b) (post (λ _. Published) (Except t fs))
  unfolding publish_tmp_no_replace publish_failed
  publish-Triple held =
      Triple-on_error (rename_no_replace t n) _ (rename_no_replace-Triple t n fs)
        (λ _. Moved-Published held)
        λ e.
          Triple-if (is eexist e) _ _ (λ _. resolve-Triple e)
            (λ _.
              Triple-under _ (λ gs h q ne. rw h)
                (Triple-mono (cleanup_temp t e) (cleanup_temp-Triple t e fs) (λ _ gs h. absurd h)
                  (λ gs h. h)))
