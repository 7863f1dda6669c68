-- ===== src/Fsq/Claim/Existing.antt =====
-- What `DeliverToExistingInbox` guarantees, whatever faults occur.
use agent_message_queue.Base.{String, arith, ◌≡◌, ◌≢◌, ap, inl, refl, some}
use agent_message_queue.Base.Dict.{lookup}
use agent_message_queue.Fsq.Store.{
  Root, Dir, FilePath, Files, Bytes, regular, inbox_tmp, join, path_eq,
}
use agent_message_queue.Fsq.Errors.{Error}
use agent_message_queue.Fsq.Monad.{Result, ok, err, M, cases, lift, on_error, ignore}
use agent_message_queue.Fsq.Monad.Triple.{
  post, Triple, Triple-then, Triple-bind, Triple-pure, Triple-fail, Triple-quiet, Triple-on_error,
  Triple-under, Triple-mono, Triple-given, Triple-ignore, Quiet, files-lift,
}
use agent_message_queue.Fsq.Syscall.{tick, sync_dir, unique_token}
use agent_message_queue.Fsq.Syscall.Effect.{files-sync_dir, files-unique_token}
use agent_message_queue.Fsq.Root.{verify_base, write_and_sync, cleanup_temp}
use agent_message_queue.Fsq.Delivery.{
  inbox_tmp_dir, inbox_new_dir, unique_attempt_tmp_path, publish_tmp_no_replace,
}
use agent_message_queue.Fsq.Delivery.Frame.{
  Delivers, Delivers-refl, Delivers-Except, Published-Delivers,
}
use agent_message_queue.Fsq.Delivery.Single.{written-Triple, synced-Triple, Published-Triple}
use agent_message_queue.Fsq.Claim.{dir_exists, require_dir, deliver_to_existing_inbox}

files-base : Quiet verify_base
unfolding verify_base cases tick
files-base r = ground arith

files-require_dir : (d : Dir) (what : String) → Quiet (require_dir d what)
unfolding require_dir dir_exists cases tick
files-require_dir d what r = ground arith

module _ (validate_layout : String → M (Unit {0}))
    (looks : (a : String) → Quiet (validate_layout a)) (agent filename : String) (b : Bytes)
    (fs : Files) where
  abbrev dest : FilePath
  dest = join (inbox_new_dir agent) filename

  abbrev Framed : Files → Type 0
  Framed = Delivers filename b fs

  same : (gs : Files) → gs ≡ fs → Framed gs
  same gs e q ne = inl (ap (lookup q) e)

  tmp-Triple :
      Triple
        (λ gs. gs ≡ fs)
        (unique_attempt_tmp_path (inbox_tmp_dir agent) filename)
        (post (λ t gs. (gs ≡ fs) × (t.leaf ≡ inbox_tmp)) Framed)
  unfolding unique_attempt_tmp_path
  tmp-Triple =
      Triple-then unique_token _ files-unique_token (λ token. Triple-pure _ (λ gs h. (h, refl)))
        (λ e gs h. same gs h)

  apart : (t : FilePath) → t.leaf ≡ inbox_tmp → t ≢ dest
  apart t e p = cc (e, ap (λ (q : FilePath). q.leaf) p)

  kept :
      (t : FilePath)
      → t.leaf ≡ inbox_tmp
      → (gs : Files) → ((q : FilePath) → q ≢ t → lookup q gs ≡ lookup q fs)
      → Framed gs
  kept t l gs h = Delivers-Except filename b t fs fs gs l (Delivers-refl filename b fs) h

  -- The message stands in the inbox.
  abbrev Standing : Files → Type 0
  Standing gs = (lookup dest gs ≡ some (regular b)) × Framed gs

  pub existing-Triple :
      Triple
        (λ gs. gs ≡ fs)
        (deliver_to_existing_inbox validate_layout agent filename b)
        (post (λ p gs. (p ≡ dest) × (lookup dest gs ≡ some (regular b)) × Framed gs) Framed)
  unfolding deliver_to_existing_inbox
  existing-Triple =
      Triple-then (lift _) _ (files-lift _)
        (λ _.
          Triple-then (lift _) _ (files-lift _)
            (λ _.
              Triple-then verify_base _ files-base
                (λ _.
                  Triple-then (validate_layout agent) _ (looks agent)
                    (λ _.
                      Triple-then (require_dir _ _) _ (files-require_dir _ _)
                        (λ _.
                          Triple-then (require_dir _ _) _ (files-require_dir _ _)
                            (λ _.
                              Triple-bind (unique_attempt_tmp_path (inbox_tmp_dir agent) filename) _
                                tmp-Triple
                                (λ t.
                                  Triple-given (t.leaf ≡ inbox_tmp) _ (λ gs h. h.1)
                                    λ l.
                                      Triple-bind (write_and_sync t b) _
                                        (Triple-under _ (λ gs h. h.0)
                                          (written-Triple t dest b (apart t l) fs))
                                        (λ _.
                                          Triple-bind
                                            (on_error (sync_dir (inbox_tmp_dir agent))
                                              (cleanup_temp t))
                                            _
                                            (synced-Triple t dest b (apart t l) fs
                                              (inbox_tmp_dir agent))
                                            (λ _.
                                              Triple-bind
                                                (on_error (publish_tmp_no_replace t dest b) _) _
                                                (Triple-on_error {Q = post (λ _. Standing) Framed}
                                                  (publish_tmp_no_replace t dest b) _
                                                  (Triple-mono {F' = λ _. Standing} {G' = Framed} _
                                                    (Published-Triple t dest b (apart t l) fs)
                                                    (λ _ gs h. (
                                                      h.0,
                                                      Published-Delivers filename b t dest
                                                          (apart t l) fs gs l refl refl h,
                                                    ))
                                                    (kept t l))
                                                  (λ _ gs h. h) (λ e. Triple-fail _ (λ gs h. h)))
                                                (λ _.
                                                  Triple-bind
                                                    (on_error (sync_dir (inbox_new_dir agent)) _) _
                                                    (Triple-on_error
                                                      {Q = post (λ _. Standing) Framed}
                                                      (sync_dir (inbox_new_dir agent)) _
                                                      (Triple-quiet _ (files-sync_dir _))
                                                      (λ _ gs h. h)
                                                      (λ e. Triple-fail _ (λ gs h. h.1)))
                                                    (λ _.
                                                      Triple-bind
                                                        (ignore (sync_dir (inbox_tmp_dir agent))) _
                                                        (Triple-ignore _
                                                          (Triple-quiet _ (files-sync_dir _)))
                                                        (λ _.
                                                          Triple-pure _ (λ gs h. (refl, h.0, h.1)))
                                                        (λ e gs h. absurd h))
                                                    (λ e gs h. h))
                                                (λ e gs h. h))
                                            (λ e gs h. kept t l gs h))
                                        (λ e gs h. kept t l gs h))
                                (λ e gs h. h))
                            (λ e gs h. same gs h))
                        (λ e gs h. same gs h))
                    (λ e gs h. same gs h))
                (λ e gs h. same gs h))
            (λ e gs h. same gs h))
        (λ e gs h. same gs h)

pub err_not_ok : {A : Type 0} {e : Error} {a : A} → err e ≢ ok a
err_not_ok k = cc k

-- A delivery to an inbox that must exist, however it ends, changes no path outside inbox/tmp but that
-- its message, where no file of the name stood, may stand whole in an inbox/new. If it reports success
-- it returns the path of the message in the agent's inbox, where exactly the data stand. The check of
-- the layout may do anything but change files.
pub existing_delivery :
    (validate_layout : String → M (Unit {0})) (agent filename : String) (b : Bytes) (r : Root)
    → ((a : String) → Quiet (validate_layout a))
    → Delivers filename b r.files
        (deliver_to_existing_inbox validate_layout agent filename b r).1.files
      × ((p : FilePath)
          → (deliver_to_existing_inbox validate_layout agent filename b r).0 ≡ ok p
          → (p ≡ join (inbox_new_dir agent) filename)
            × (lookup p (deliver_to_existing_inbox validate_layout agent filename b r).1.files
                ≡ some (regular b)))
existing_delivery validate_layout agent filename b r looks =
    split (deliver_to_existing_inbox validate_layout agent filename b r).0
      ((existing-Triple validate_layout looks agent filename b r.files).at r refl)
  where
    split :
        (x : Result FilePath) {gs : Files}
        → post
            (λ p gs.
              (p ≡ dest validate_layout looks agent filename b r.files)
              × (lookup (dest validate_layout looks agent filename b r.files) gs ≡ some (regular b))
              × Delivers filename b r.files gs)
            (Delivers filename b r.files)
            x
            gs
        → Delivers filename b r.files gs
          × ((p : FilePath)
              → x ≡ ok p
              → (p ≡ join (inbox_new_dir agent) filename) × (lookup p gs ≡ some (regular b)))
    split (ok p) (e, st, d) = (d, λ p' k. (cc (e, k), cc (e, st, k)))
    split (err _) d = (d, λ p' k. absurd (err_not_ok k))
