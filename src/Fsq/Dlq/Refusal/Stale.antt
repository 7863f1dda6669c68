-- ===== src/Fsq/Dlq/Refusal/Stale.antt =====
-- dlq.go: what a retry may change before it looks at the envelope that it has read.
use agent_message_queue.Base.{
  String, arith, refl, ◌≡◌, ◌≢◌, ◌∙◌, true, false, none, some, Option, string_eq,
}
use agent_message_queue.Base.Dict.{lookup}
use agent_message_queue.Fsq.Store.{FilePath, Files, Bytes, Node, regular, irregular, join, path_eq}
use agent_message_queue.Fsq.Errors.{Error, is_not_exist}
use agent_message_queue.Fsq.Monad.{Result, ok, err, lift, cases, pure, on_error}
use agent_message_queue.Fsq.Monad.Triple.{
  post, Triple, Triple-then, Triple-bind, Triple-cases, Triple-if, Triple-pure, Triple-fail,
  Triple-quiet, Triple-keeps, Triple-on_error, Quiet, files-lift,
}
use agent_message_queue.Fsq.Syscall.{tick, stat, remove, sync_dir}
use agent_message_queue.Fsq.Syscall.Effect.{files-stat, remove_except}
use agent_message_queue.Fsq.Names.{validate_message_filename}
use agent_message_queue.Fsq.Root.{read_regular_no_follow}
use agent_message_queue.Fsq.Delivery.Publish.{read_post}
use agent_message_queue.Fsq.Claim.{Box, box_new, box_cur}
use agent_message_queue.Fsq.Dlq.{Envelope}
use agent_message_queue.Fsq.Dlq.Format.{Codec, parse}
use agent_message_queue.Fsq.Dlq.Moves.{
  root_stat, when_missing, find_dlq_message, dlq_new_dir, settle_move, drop_stale, reconcile,
}
use agent_message_queue.Fsq.Dlq.Retry.{reconcile_if_cur, read_dlq_envelope, parsed}
use agent_message_queue.Fsq.Dlq.Refusal.Spent.{files-root_stat}

-- What a refused retry may have changed: nothing of an envelope in `dlq/new`; of one in `dlq/cur`, only
-- whether a stale copy of it still stands in `dlq/new`.
abbrev pub OnlyStale : String → String → Box → Files → Files → Type 0
OnlyStale agent filename box_new fs gs = gs ≡ fs
OnlyStale agent filename box_cur fs gs =
    (q : FilePath) → q ≢ join (dlq_new_dir agent) filename → lookup q gs ≡ lookup q fs

pub OnlyStale-refl :
    (agent filename : String) (box : Box) (fs : Files) → OnlyStale agent filename box fs fs
OnlyStale-refl agent filename box_new fs = refl
OnlyStale-refl agent filename box_cur fs = λ q n. refl

settle_move-Quiet :
    {A : Type 0} (p : FilePath) (agent cur_what new_what : String) (a : A)
    → Quiet (settle_move p agent cur_what new_what a)
unfolding settle_move sync_dir cases tick
settle_move-Quiet p agent cur_what new_what a r = ground arith

pub find-Triple :
    (agent filename : String) (P : Files → Type 0)
    → Triple P (find_dlq_message agent filename) (post (λ _. P) P)
unfolding find_dlq_message when_missing
find-Triple agent filename P =
    Triple-then (lift (validate_message_filename filename)) _ (files-lift _)
      (λ _.
        Triple-cases (root_stat _) _ _ (Triple-quiet _ (files-root_stat _))
          (λ _. Triple-pure _ (λ gs h. h))
          λ e.
            Triple-if (is_not_exist e) _ _
              (λ _.
                Triple-cases (root_stat _) _ _ (Triple-quiet _ (files-root_stat _))
                  (λ _. Triple-pure _ (λ gs h. h))
                  λ e'.
                    Triple-if (is_not_exist e') _ _ (λ _. Triple-fail _ (λ gs h. h))
                      (λ _. Triple-fail e' (λ gs h. h)))
              (λ _. Triple-fail e (λ gs h. h)))
      (λ e gs h. h)

parsed-Triple :
    (codec : Codec) (o : Option (Envelope × Bytes)) (P : Files → Type 0)
    → Triple P (parsed codec o) (post (λ _. P) P)
unfolding parsed
parsed-Triple codec none P = Triple-fail _ (λ gs h. h)
parsed-Triple codec (some e) P = Triple-pure e (λ gs h. h)

files-read : (p : FilePath) → Quiet (read_regular_no_follow p)
files-read p r =
    split (read_regular_no_follow p r).0 (read_regular_no_follow p r).1.files (read_post p r)
  where
    split :
        (x : Result Bytes) (gs : Files)
        → post
            (λ b gs. (gs ≡ r.files) × (lookup p r.files ≡ some (regular b)))
            (λ gs. gs ≡ r.files)
            x
            gs
        → gs ≡ r.files
    split (ok b) gs h = h.0
    split (err e) gs h = h

pub read-Triple :
    (codec : Codec) (p : FilePath) (P : Files → Type 0)
    → Triple P (read_dlq_envelope codec p) (post (λ _. P) P)
unfolding read_dlq_envelope
read-Triple codec p P =
    Triple-then (read_regular_no_follow p) _ (files-read p)
      (λ b. parsed-Triple codec (parse codec b) P) (λ e gs h. h)

module _ (agent filename : String) (fs : Files) where
  abbrev Stale : Files → Type 0
  Stale gs = OnlyStale agent filename box_cur fs gs

  drop-Triple :
      (p : FilePath) (n : Node)
      → Triple Stale
          (drop_stale (join (dlq_new_dir agent) filename) p agent n)
          (post (λ _. Stale) Stale)
  unfolding drop_stale
  drop-Triple p irregular = Triple-fail _ (λ gs h. h)
  drop-Triple p (regular b) =
      Triple-bind {R = post (λ _. Stale) Stale} (on_error (remove _) _)
        (λ _. settle_move p agent _ _ true)
        (Triple-on_error {R = post (λ _. Stale) Stale} (remove _) _
          (Triple-keeps (remove _)
            (λ r h q n. remove_except (join (dlq_new_dir agent) filename) q r n ∙ h q n))
          (λ a gs h. h)
          (λ e.
            Triple-if (is_not_exist e) _ _ (λ _. Triple-pure tt (λ gs h. h))
              (λ _. Triple-fail _ (λ gs h. h))))
        (λ _. Triple-quiet (settle_move p agent _ _ true) (settle_move-Quiet p agent _ _ true))
        (λ e gs h. h)

  missing-Triple :
      (e : Error) → Triple Stale (when_missing (pure false) e) (post (λ _. Stale) Stale)
  unfolding when_missing
  missing-Triple e =
      Triple-if (is_not_exist e) _ _ (λ _. Triple-pure false (λ gs h. h))
        (λ _. Triple-fail e (λ gs h. h))

  reconcile-Triple : Triple Stale (reconcile agent filename) (post (λ _. Stale) Stale)
  unfolding reconcile
  reconcile-Triple =
      Triple-cases (stat _) _ _ (Triple-quiet _ (files-stat _))
        (λ _.
          Triple-cases (stat _) _ _ (Triple-quiet _ (files-stat _)) (drop-Triple _) missing-Triple)
        missing-Triple

  pub reconcile_if_cur-Triple :
      (box : Box)
      → Triple
          (OnlyStale agent filename box fs)
          (reconcile_if_cur agent filename box)
          (post (λ _. OnlyStale agent filename box fs) (OnlyStale agent filename box fs))
  unfolding reconcile_if_cur
  reconcile_if_cur-Triple box_new = Triple-pure tt (λ gs h. h)
  reconcile_if_cur-Triple box_cur =
      Triple-bind (reconcile agent filename) _ reconcile-Triple (λ _. Triple-pure tt (λ gs h. h))
        (λ e gs h. h)
