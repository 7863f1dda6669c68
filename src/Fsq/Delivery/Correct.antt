-- ===== src/Fsq/Delivery/Correct.antt =====
-- What `DeliverToInboxes` guarantees, whatever faults occur.
use mathlib.Core.Path.{subst}
use agent_message_queue.Base.{
  String, arith, ◌≡◌, ◌∙◌, sym, ap, refl, some, List, [], ◌∷◌, All, is_empty,
}
use agent_message_queue.Base.Dict.{Dict, lookup}
use agent_message_queue.Fsq.Store.{Root, FilePath, Files, Bytes, regular, join, path_eq}
use agent_message_queue.Fsq.Names.{validate_message_filename}
use agent_message_queue.Fsq.Monad.{Result, ok, err, cases, lift}
use agent_message_queue.Fsq.Monad.Triple.{
  post, Triple, Triple-then, Triple-bind, Triple-pure, Triple-if, Triple-fail, Triple-under,
  Triple-weaken, Triple-given, Quiet, files-lift,
}
use agent_message_queue.Fsq.Syscall.{tick}
use agent_message_queue.Fsq.Root.{verify_base}
use agent_message_queue.Fsq.Delivery.{
  Stage, inbox_new_dir, recipients_of, validate_handles, stage_all, commit_all, deliver_to_inboxes,
}
use agent_message_queue.Fsq.Delivery.Frame.{Delivers, Delivers-refl, IsStaged, Staged}
use agent_message_queue.Fsq.Delivery.Staging.{stage_all-Triple}
use agent_message_queue.Fsq.Delivery.Commit.{Standing, Addressed, commit_post, commit_all-Triple}

-- Every one of the agents holds the message in its inbox.
abbrev pub InInbox : String → Bytes → Files → String → Type 0
InInbox filename b gs agent = lookup (join (inbox_new_dir agent) filename) gs ≡ some (regular b)

files-verify_base : Quiet verify_base
unfolding verify_base cases tick
files-verify_base r = ground arith

module _ (filename : String) (b : Bytes) where
  All-Addressed :
      (gs : Files) (stages : List Stage)
      → All (IsStaged filename b gs) stages
      → All (Addressed filename b) stages
  All-Addressed gs [] h = tt
  All-Addressed gs (s ∷ rest) (i, h) = ((i.in_tmp, i.dest), All-Addressed gs rest h)

  Standing-InInbox :
      (gs : Files) (stages : List Stage)
      → All (Addressed filename b) stages
      → Standing b gs stages
      → All (InInbox filename b gs) (recipients_of stages)
  Standing-InInbox gs [] a st = tt
  Standing-InInbox gs (s ∷ rest) ((_, e), a) (h, st) =
      (ap (λ (q : FilePath). lookup q gs) (sym e) ∙ h, Standing-InInbox gs rest a st)

  module _ (fs : Files) (recipients : List String) where
    abbrev Done : Files → Type 0
    Done gs = Delivers filename b fs gs × All (InInbox filename b gs) recipients

    commit-Staged :
        (stages : List Stage)
        → Triple
            (λ gs. Staged filename b fs stages gs × (recipients_of stages ≡ recipients))
            (commit_all [] stages b)
            (post (λ _. Done) (Delivers filename b fs))
    commit-Staged stages =
        Triple-given (All (Addressed filename b) stages × (recipients_of stages ≡ recipients)) _
          (λ gs h. (All-Addressed gs stages h.0.staged, h.1))
          λ (a, e).
            Triple-under _ (λ gs h. record { waiting = h.0; standing = tt })
              (Triple-weaken _ (commit_all-Triple filename b fs [] stages tt a) (finish stages a e))
      where
        finish :
            (stages : List Stage)
            → All (Addressed filename b) stages
            → recipients_of stages ≡ recipients
            → (x : Result (Unit {0})) (gs : Files) → commit_post filename b fs stages x gs
            → post (λ _. Done) (Delivers filename b fs) x gs
        finish stages a e (ok _) gs (d, st) = (d, rw e at (Standing-InInbox gs stages a st))
        finish stages a e (err _) gs h = h.0

    deliver-Triple :
        Triple
          (λ gs. gs ≡ fs)
          (deliver_to_inboxes recipients filename b)
          (post (λ _. Done) (Delivers filename b fs))
    unfolding deliver_to_inboxes
    deliver-Triple =
        Triple-under {S = Delivers filename b fs} _ (λ gs e. rw e (Delivers-refl filename b fs))
          (Triple-if (is_empty recipients) _ _ (λ _. Triple-fail _ (λ gs d. d))
            (λ _.
              Triple-then (lift (validate_message_filename filename)) _ (files-lift _)
                (λ _.
                  Triple-then (lift (validate_handles recipients)) _ (files-lift _)
                    (λ _.
                      Triple-then verify_base _ files-verify_base
                        (λ _.
                          Triple-bind (stage_all [] recipients filename b) _
                            (Triple-under _
                              (λ gs d. record { frame = d; staged = tt; separate = tt })
                              (stage_all-Triple filename b fs recipients [] tt))
                            (λ stages.
                              Triple-bind (commit_all [] stages b) _ (commit-Staged stages)
                                (λ _. Triple-pure _ (λ gs h. h)) (λ e gs d. d))
                            (λ e gs d. d))
                        (λ e gs d. d))
                    (λ e gs d. d))
                (λ e gs d. d)))

-- A delivery, however it ends and whatever system calls fail, changes no path outside inbox/tmp but
-- this: a message of the given name in an inbox/new, which was absent, now holds exactly the data.
-- So no message that stands is replaced, moved or cut short.
pub deliver-Delivers :
    (recipients : List String) (filename : String) (b : Bytes) (r : Root)
    → Delivers filename b r.files (deliver_to_inboxes recipients filename b r).1.files
deliver-Delivers recipients filename b r =
    framed (deliver_to_inboxes recipients filename b r).0
      ((deliver-Triple filename b r.files recipients).at r refl)
  where
    framed :
        (x : Result (Dict String FilePath)) {gs : Files}
        → post (λ _. Done filename b r.files recipients) (Delivers filename b r.files) x gs
        → Delivers filename b r.files gs
    framed (ok _) h = h.0
    framed (err _) h = h

-- A delivery that reports success has put exactly the data into the inbox of every recipient.
pub deliver_success :
    (recipients : List String) (filename : String) (b : Bytes) (r : Root)
    (paths : Dict String FilePath)
    → (deliver_to_inboxes recipients filename b r).0 ≡ ok paths
    → All (InInbox filename b (deliver_to_inboxes recipients filename b r).1.files) recipients
deliver_success recipients filename b r paths e =
    (subst
      (λ x.
        post (λ _. Done filename b r.files recipients) (Delivers filename b r.files) x
          (deliver_to_inboxes recipients filename b r).1.files)
      e ((deliver-Triple filename b r.files recipients).at r refl)).1
