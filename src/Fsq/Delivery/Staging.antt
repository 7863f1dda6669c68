-- ===== src/Fsq/Delivery/Staging.antt =====
-- The staging loop keeps its invariant, whatever faults occur; a failure leaves the tree as it was
-- outside `inbox/tmp`.
use mathlib.Core.List.{append-nil, append_assoc, map-append}
use agent_message_queue.Base.{
  String, arith, ◌≡◌, ◌∙◌, sym, ap, inl, inr, refl, none, some, Option, List, [], ◌∷◌, ◌++◌, All,
}
use agent_message_queue.Base.Dict.{lookup}
use agent_message_queue.Fsq.Store.{Dir, FilePath, Files, Bytes, regular, inbox_tmp, join, path_eq}
use agent_message_queue.Fsq.Errors.{Error}
use agent_message_queue.Fsq.Monad.{Result, ok, err, cases, on_error}
use agent_message_queue.Fsq.Monad.Triple.{
  post, Triple, Triple-use, Triple-then, Triple-bind, Triple-cases, Triple-on_error, Triple-pure,
  Triple-fail, Triple-under, Triple-keeps, Triple-mono, Triple-quiet, Triple-given, Quiet,
}
use agent_message_queue.Fsq.Syscall.{mkdir_all, sync_dir, remove, unique_token}
use agent_message_queue.Fsq.Syscall.Effect.{
  files-mkdir_all, files-sync_dir, files-unique_token, remove_except,
}
use agent_message_queue.Fsq.Root.{write_and_sync, cleanup_temp}
use agent_message_queue.Fsq.Root.Write.{
  Except, Stored, Untouched, write_and_sync-Triple, cleanup_temp-Triple,
}
use agent_message_queue.Fsq.Delivery.{
  Stage, inbox_tmp_dir, inbox_new_dir, unique_attempt_tmp_path, cleanup_stage, cleanup_stages,
  cleanup_tmp_stages, cleanup_staged_tmp, stage_one, stage_all, recipients_of,
}
use agent_message_queue.Fsq.Delivery.Frame.{
  Delivers, Delivers-Except, IsStaged, Apart, Staged, Staged-Except, Apart-absent, Staged-snoc,
  All-snoc,
}

abbrev pub InTmp : Stage → Type 0
InTmp s = s.tmp_path.leaf ≡ inbox_tmp

module _ (filename : String) (b : Bytes) (fs : Files) where
  cleanup_stage-Triple :
      (s : Stage) (acc : Option Error)
      → InTmp s
      → Triple
          (Delivers filename b fs)
          (cleanup_stage s acc)
          (post (λ _. Delivers filename b fs) (λ _. ⊥))
  unfolding cleanup_stage
  cleanup_stage-Triple s acc e =
      Triple-bind {R = post (λ _. Delivers filename b fs) (λ _. ⊥)} _ _
        (Triple-cases (remove s.tmp_path) _ _
          (Triple-keeps (remove s.tmp_path) λ r h.
            Delivers-Except filename b s.tmp_path fs r.files _ e h
              (λ q ne. remove_except s.tmp_path q r ne))
          (λ _. Triple-pure acc (λ gs h. h)) (λ c. Triple-pure _ (λ gs h. h)))
        (λ acc'.
          Triple-cases (sync_dir (inbox_tmp_dir s.recipient)) _ _
            (Triple-quiet _ (files-sync_dir (inbox_tmp_dir s.recipient)))
            (λ _. Triple-pure acc' (λ gs h. h)) (λ c. Triple-pure _ (λ gs h. h)))
        (λ c gs h. absurd h)

  cleanup_stages-Triple :
      (stages : List Stage) (acc : Option Error)
      → All InTmp stages
      → Triple
          (Delivers filename b fs)
          (cleanup_stages stages acc)
          (post (λ _. Delivers filename b fs) (λ _. ⊥))
  unfolding cleanup_stages
  cleanup_stages-Triple [] acc a = Triple-pure acc (λ gs h. h)
  cleanup_stages-Triple (s ∷ rest) acc (e, a) =
      Triple-bind (cleanup_stage s acc) _ (cleanup_stage-Triple s acc e)
        (λ acc'. cleanup_stages-Triple rest acc' a) (λ c gs h. absurd h)

  pub cleanup_tmp_stages-Triple :
      (stages : List Stage)
      → All InTmp stages
      → Triple
          (Delivers filename b fs)
          (cleanup_tmp_stages stages)
          (post (λ _. Delivers filename b fs) (λ _. ⊥))
  unfolding cleanup_tmp_stages
  cleanup_tmp_stages-Triple stages a = cleanup_stages-Triple stages none a

  cleanup_staged-Triple :
      {A : Type 0} {F : A → Files → Type 0} (stages : List Stage) (e : Error)
      → All InTmp stages
      → Triple
          (Delivers filename b fs)
          (cleanup_staged_tmp stages e)
          (post F (Delivers filename b fs))
  unfolding cleanup_staged_tmp
  cleanup_staged-Triple stages e a =
      Triple-bind (cleanup_tmp_stages stages) _ (cleanup_tmp_stages-Triple stages a)
        (λ c. Triple-fail _ (λ gs h. h)) (λ c gs h. absurd h)

pub All-InTmp :
    (filename : String) (b : Bytes) (gs : Files) (stages : List Stage)
    → All (IsStaged filename b gs) stages
    → All InTmp stages
All-InTmp filename b gs [] h = tt
All-InTmp filename b gs (s ∷ rest) (i, h) = (i.in_tmp, All-InTmp filename b gs rest h)

abbrev stage_of : String → String → FilePath → Stage
stage_of recipient filename t = record {
  recipient = recipient;
  tmp_path = t;
  new_path = join (inbox_new_dir recipient) filename;
}

pub files_unique : (d : Dir) (filename : String) → Quiet (unique_attempt_tmp_path d filename)
unfolding unique_attempt_tmp_path cases
files_unique d filename r = ground (arith, files-unique_token r)

module _ (filename : String) (b : Bytes) (fs : Files) (stages : List Stage) where
  -- After the write of a new stage: the invariant, with the new file beside the old stages.
  abbrev Added : FilePath → Files → Type 0
  Added t gs =
      Staged filename b fs stages gs
      × (lookup t gs ≡ some (regular b))
      × Apart t stages
      × (t.leaf ≡ inbox_tmp)

  unique-Triple :
      (agent : String)
      → Triple
          (Staged filename b fs stages)
          (unique_attempt_tmp_path (inbox_tmp_dir agent) filename)
          (post
            (λ t gs. Staged filename b fs stages gs × (t.leaf ≡ inbox_tmp))
            (Delivers filename b fs))
  unfolding unique_attempt_tmp_path
  unique-Triple agent =
      Triple-then unique_token _ files-unique_token (λ token. Triple-pure _ (λ gs h. (h, refl)))
        (λ e gs h. h.frame)

  write-Added :
      (t : FilePath)
      → Triple
          (λ gs. Staged filename b fs stages gs × (t.leaf ≡ inbox_tmp))
          (write_and_sync t b)
          (post (λ _. Added t) (Delivers filename b fs))
  write-Added t =
      Triple-use (λ gs. post (λ _. Stored t b gs) (Untouched t gs)) (write_and_sync t b)
        (write_and_sync-Triple t b) added
    where
      untouched :
          (gs : Files)
          → Staged filename b fs stages gs × (t.leaf ≡ inbox_tmp)
          → (hs : Files) → Untouched t gs hs
          → Delivers filename b fs hs
      untouched gs (st, e) hs (inl same) = rw same st.frame
      untouched gs (st, e) hs (inr (absent, h)) = Delivers-Except filename b t fs gs hs e st.frame h

      added :
          (gs : Files)
          → Staged filename b fs stages gs × (t.leaf ≡ inbox_tmp)
          → (x : Result (Unit {0})) (hs : Files) → post (λ _. Stored t b gs) (Untouched t gs) x hs
          → post (λ _. Added t) (Delivers filename b fs) x hs
      added gs (st, e) (ok _) hs ((absent, h), stored) =
          let a : Apart t stages = Apart-absent filename b t gs stages absent st.staged in
          (Staged-Except filename b t fs gs hs stages e a st h, stored, a, e)
      added gs st (err _) hs u = untouched gs st hs u

  sync_or_cleanup :
      (t : FilePath) (agent : String)
      → Triple
          (Added t)
          (on_error (sync_dir (inbox_tmp_dir agent)) (cleanup_temp t))
          (post (λ _. Added t) (Delivers filename b fs))
  sync_or_cleanup t agent =
      Triple-on_error (sync_dir (inbox_tmp_dir agent)) _
        (Triple-quiet _ (files-sync_dir (inbox_tmp_dir agent))) (λ _ gs h. h)
        λ e.
          Triple-use (λ gs. post (λ _ _. ⊥) (Except t gs)) (cleanup_temp t e)
            (λ gs. Triple-under _ (λ hs p q ne. ap (lookup q) p) (cleanup_temp-Triple t e gs))
            (cleaned e)
    where
      cleaned :
          (e : Error) (gs : Files)
          → Added t gs
          → (x : Result (Unit {0})) (hs : Files) → post (λ _ _. ⊥) (Except t gs) x hs
          → post (λ _. Added t) (Delivers filename b fs) x hs
      cleaned e gs h (ok _) hs none' = absurd none'
      cleaned e gs (st, _, _, l) (err _) hs k = Delivers-Except filename b t fs gs hs l st.frame k

  stage_one-Triple :
      (agent : String)
      → Triple (Staged filename b fs stages) (stage_one agent filename b) (
          post
            (λ s gs. Staged filename b fs (stages ++ s ∷ []) gs × InTmp s × (s.recipient ≡ agent))
            (Delivers filename b fs))
  unfolding stage_one
  stage_one-Triple agent =
      Triple-then (mkdir_all (inbox_tmp_dir agent)) _ (files-mkdir_all (inbox_tmp_dir agent))
        (λ _.
          Triple-then (mkdir_all (inbox_new_dir agent)) _ (files-mkdir_all (inbox_new_dir agent))
            (λ _.
              Triple-bind (unique_attempt_tmp_path (inbox_tmp_dir agent) filename) _
                (unique-Triple agent)
                (λ t.
                  Triple-bind (write_and_sync t b) _ (write-Added t)
                    (λ _.
                      Triple-bind (on_error (sync_dir (inbox_tmp_dir agent)) (cleanup_temp t)) _
                        (sync_or_cleanup t agent)
                        (λ _. Triple-pure (stage_of agent filename t) (λ gs h. finished t gs h))
                        (λ e gs h. h))
                    (λ e gs h. h))
                (λ e gs h. h))
            (λ e gs h. h.frame))
        (λ e gs h. h.frame)
    where
      finished :
          (t : FilePath) (gs : Files)
          → Added t gs
          → Staged filename b fs (stages ++ stage_of agent filename t ∷ []) gs
            × (t.leaf ≡ inbox_tmp)
            × (agent ≡ agent)
      finished t gs (st, held, a, l) = (
        Staged-snoc filename b fs gs stages (stage_of agent filename t) st
            (record { in_tmp = l; dest = refl; held = held }) a,
        l,
        refl,
      )

module _ (filename : String) (b : Bytes) (fs : Files) where
  -- The stages are those of the recipients given, in their order.
  pub stage_all-Triple :
      (recipients : List String) (stages : List Stage)
      → All InTmp stages
      → Triple (Staged filename b fs stages) (stage_all stages recipients filename b) (
          post
            (λ ss gs.
              Staged filename b fs ss gs × (recipients_of ss ≡ recipients_of stages ++ recipients))
            (Delivers filename b fs))
  unfolding stage_all
  stage_all-Triple [] stages a =
      Triple-pure stages (λ gs h. (h, sym (append-nil (recipients_of stages))))
  stage_all-Triple (agent ∷ rest) stages a =
      Triple-cases (stage_one agent filename b) _ _ (stage_one-Triple filename b fs stages agent)
        (λ s.
          Triple-given (InTmp s × (s.recipient ≡ agent)) _ (λ gs h. (h.1, h.2))
            (λ (l, e).
              Triple-under _ (λ gs h. h.0)
                (Triple-mono _
                  (stage_all-Triple rest (stages ++ s ∷ []) (All-snoc InTmp stages s a l))
                  (λ ss gs h. (h.0, h.1 ∙ regrouped s rest e)) (λ gs h. h))))
        (λ e. cleanup_staged-Triple filename b fs stages e a)
    where
      regrouped :
          (s : Stage) (r : List String)
          → s.recipient ≡ agent
          → recipients_of (stages ++ s ∷ []) ++ r ≡ recipients_of stages ++ agent ∷ r
      regrouped s r e = rw (map-append, append_assoc, e)
