-- ===== src/Fsq/Claim/Exclusive.antt =====
-- What `MoveNewToCur` guarantees, whatever faults occur: a message is claimed once, and whole.
use agent_message_queue.Base.{
  String, arith, ◌≡◌, ◌≢◌, ◌⊎◌, ◌∙◌, sym, ap, inl, inr, refl, Option, none, some, string_eq,
}
use mathlib.Core.Path.{subst}
use agent_message_queue.Base.Dict.{lookup, lookup-insert, lookup-erase}
use agent_message_queue.Fsq.Store.{Dir, FilePath, join, Files, eexist, Root, path_eq}
use agent_message_queue.Fsq.Errors.{Error, committed, is, is_not_exist, as_residue}
use agent_message_queue.Fsq.Monad.{ok, err, fail, lift, cases, on_error, error_of}
use agent_message_queue.Fsq.Monad.Triple.{
  Post, post, Triple, Triple-then, Triple-bind, Triple-cases, Triple-if, Triple-pure, Triple-fail,
  Triple-quiet, Triple-on_error, Quiet, files-lift,
}
use agent_message_queue.Fsq.Syscall.{tick, mkdir_all, sync_dir, stat, rename_no_replace}
use agent_message_queue.Fsq.Syscall.Effect.{
  files-stat, files-sync_dir, files-mkdir_all, Moved, rename_no_replace-Triple,
}
use agent_message_queue.Fsq.Names.{validate_handle, validate_message_filename}
use agent_message_queue.Fsq.Root.{verify_base}
use agent_message_queue.Fsq.Delivery.{inbox_new_dir}
use agent_message_queue.Fsq.Claim.{
  inbox_cur_dir, inspect_source, claim_failed, claim_rename, translate, durable, move_new_to_cur,
}

files-verify : Quiet verify_base
unfolding verify_base cases tick
files-verify r = ground arith

-- The error of a sync is kept as a value, so what follows always runs.
report_sync :
    (d : Dir) (P : Files → Type 0) → Triple P (error_of (sync_dir d)) (post (λ _. P) (λ _. ⊥))
report_sync d P =
    Triple-cases (sync_dir d) _ _ (Triple-quiet _ (files-sync_dir d))
      (λ _. Triple-pure _ (λ gs h. h)) λ e. Triple-pure _ (λ gs h. h)

module _ (p q : FilePath) (fs : Files) where
  abbrev Renamed : Post (Unit {0})
  Renamed = post (λ _. Moved p q fs) (λ gs. gs ≡ fs)

  claim_rename-Triple : Triple (λ gs. gs ≡ fs) (claim_rename p q) Renamed
  unfolding claim_rename claim_failed inspect_source
  claim_rename-Triple =
      Triple-on_error (rename_no_replace p q) _ (rename_no_replace-Triple p q fs) (λ _ gs h. h)
        λ e.
          Triple-if (is eexist e) _ _
            (λ _.
              Triple-cases (stat p) _ _ (Triple-quiet _ (files-stat p))
                (λ _. Triple-fail _ (λ gs h. h))
                λ e'.
                  Triple-if (is_not_exist e') _ _ (λ _. Triple-fail _ (λ gs h. h))
                    (λ _. Triple-fail _ (λ gs h. h)))
            (λ _. Triple-fail _ (λ gs h. h))

  translate-Triple :
      (agent : String) (e : Error) → Triple (λ gs. gs ≡ fs) (translate q agent e) Renamed
  unfolding translate
  translate-Triple agent e = by_residue (as_residue e)
    where
      by_residue :
          (o : Option Error)
          → Triple
              (λ gs. gs ≡ fs)
              (elim o [ none ↦ fail e | some inner ↦ fail (committed q agent inner) ])
              Renamed
      by_residue none = Triple-fail _ (λ gs h. h)
      by_residue (some inner) = Triple-fail _ (λ gs h. h)

-- After a success the message has moved whole. After an error nothing has changed, or the message has
-- moved and the error is a `CommittedError` for its new path.
abbrev pub Claimed : String → String → Files → Post (Unit {0})
Claimed agent filename fs (ok _) gs =
    Moved (join (inbox_new_dir agent) filename) (join (inbox_cur_dir agent) filename) fs gs
Claimed agent filename fs (err e) gs =
    (gs ≡ fs)
    ⊎ (Moved (join (inbox_new_dir agent) filename) (join (inbox_cur_dir agent) filename) fs gs
        × (inner : Error) × (e ≡ committed (join (inbox_cur_dir agent) filename) agent inner))

module _ (agent filename : String) (fs : Files) where
  durable-Triple :
      (o : Option Error)
      → Triple
          (Moved (join (inbox_new_dir agent) filename) (join (inbox_cur_dir agent) filename) fs)
          (durable (join (inbox_cur_dir agent) filename) agent o)
          (Claimed agent filename fs)
  unfolding durable
  durable-Triple none = Triple-pure _ (λ gs h. h)
  durable-Triple (some e) = Triple-fail _ (λ gs h. inr (h, e, refl))

  move-Triple : Triple (λ gs. gs ≡ fs) (move_new_to_cur agent filename) (Claimed agent filename fs)
  unfolding move_new_to_cur
  move-Triple =
      Triple-then (lift (validate_handle agent)) _ (files-lift _)
        (λ _.
          Triple-then (lift (validate_message_filename filename)) _ (files-lift _)
            (λ _.
              Triple-then verify_base _ files-verify
                (λ _.
                  Triple-then (mkdir_all (inbox_cur_dir agent)) _ (files-mkdir_all _)
                    (λ _.
                      Triple-bind (on_error (claim_rename _ _) _) _
                        (Triple-on_error (claim_rename _ _) _ (claim_rename-Triple _ _ fs)
                          (λ _ gs h. h) (translate-Triple _ _ fs agent))
                        (λ _.
                          Triple-bind (error_of (sync_dir (inbox_cur_dir agent))) _
                            (report_sync _ _)
                            (λ c.
                              Triple-bind (error_of (sync_dir (inbox_new_dir agent))) _
                                (report_sync _ _) (λ n. durable-Triple _) (λ e gs h. elim h [ ]))
                            (λ e gs h. elim h [ ]))
                        (λ e gs h. inl h))
                    (λ e gs h. inl h))
                (λ e gs h. inl h))
            (λ e gs h. inl h))
        (λ e gs h. inl h)

-- A claim that succeeds has moved the message from new to cur as it was, over no other message. A claim
-- that fails has changed no file, or has moved the message so and says that by a `CommittedError` for
-- its path in cur. This holds whatever system calls fail.
pub move_new_to_cur-Claimed :
    (agent filename : String) (r : Root)
    → Claimed agent filename r.files
        (move_new_to_cur agent filename r).0
        (move_new_to_cur agent filename r).1.files
move_new_to_cur-Claimed agent filename r = (move-Triple agent filename r.files).at r refl

new_not_cur :
    (agent filename : String)
    → join (inbox_new_dir agent) filename ≢ join (inbox_cur_dir agent) filename
new_not_cur agent filename e = cc (ap (λ (q : FilePath). q.leaf) e)

gone : (p q : FilePath) (fs gs : Files) → p ≢ q → Moved p q fs gs → lookup p gs ≡ none
gone p q fs gs ne (n, _, _, e) = rw e (rw (lookup-insert, lookup-erase) (ground arith))

-- Of two claims of one message, with nothing written between them, only one succeeds: the second is
-- refused, whatever its root's faults are.
pub one_claim :
    (agent filename : String) (r r' : Root)
    → (move_new_to_cur agent filename r).0 ≡ ok tt
    → r'.files ≡ (move_new_to_cur agent filename r).1.files
    → (move_new_to_cur agent filename r').0 ≢ ok tt
one_claim agent filename r r' won same won' =
    cc (gone _ _ _ _ (new_not_cur agent filename) first, there)
  where
    first :
        Moved
          (join (inbox_new_dir agent) filename)
          (join (inbox_cur_dir agent) filename)
          r.files
          (move_new_to_cur agent filename r).1.files
    first =
        subst (λ x. Claimed agent filename r.files x (move_new_to_cur agent filename r).1.files) won
          (move_new_to_cur-Claimed agent filename r)

    second :
        Moved
          (join (inbox_new_dir agent) filename)
          (join (inbox_cur_dir agent) filename)
          r'.files
          (move_new_to_cur agent filename r').1.files
    second =
        subst (λ x. Claimed agent filename r'.files x (move_new_to_cur agent filename r').1.files)
          won' (move_new_to_cur-Claimed agent filename r')

    there :
        lookup (join (inbox_new_dir agent) filename) (move_new_to_cur agent filename r).1.files
        ≡ some second.0
    there =
        ap (λ (gs : Files). lookup (join (inbox_new_dir agent) filename) gs) (sym same) ∙ second.1
