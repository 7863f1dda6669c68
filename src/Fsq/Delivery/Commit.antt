-- ===== src/Fsq/Delivery/Commit.antt =====
-- The commit loop publishes the stages one by one. What it has published stays published, and an
-- error names exactly such messages as delivered.
use mathlib.Core.List.{append-nil, append_assoc}
use agent_message_queue.Base.{
  String, arith, ◌≡◌, ◌≢◌, ◌∙◌, sym, ap, inl, inr, refl, some, Option, Bool-cases, List, [], ◌∷◌,
  ◌++◌, All, string_eq,
}
use agent_message_queue.Base.Dict.{Dict, lookup, insert}
use agent_message_queue.Fsq.Store.{
  FilePath, Files, Bytes, regular, inbox_tmp, join, path_eq, eexist,
}
use agent_message_queue.Fsq.Errors.{Error, partial, is}
use agent_message_queue.Fsq.Monad.{Result, ok, err, ◌>>=◌, fail, ignore}
use agent_message_queue.Fsq.Monad.Triple.{
  Post, post, Triple, Triple-use, Triple-bind, Triple-cases, Triple-pure, Triple-ignore,
  Triple-fail, Triple-under, Triple-quiet,
}
use agent_message_queue.Fsq.Syscall.{sync_dir}
use agent_message_queue.Fsq.Syscall.Effect.{files-sync_dir}
use agent_message_queue.Fsq.Root.Write.{Except}
use agent_message_queue.Fsq.Delivery.{
  Stage, inbox_tmp_dir, inbox_new_dir, cleanup_tmp_stages, undelivered, partial_delivery_error,
  committed_delivery_error, rename_error, with_cleanup, recipients_of, delivered_paths, commit_all,
  publish_tmp_no_replace,
}
use agent_message_queue.Fsq.Delivery.Publish.{Published, publish-Triple}
use agent_message_queue.Fsq.Delivery.Frame.{
  Delivers, Delivers-refl, Delivers-trans, Delivers-keeps, Delivers-Except, Published-Delivers,
  IsStaged, Apart, Staged, All-snoc,
}
use agent_message_queue.Fsq.Delivery.Staging.{InTmp, cleanup_tmp_stages-Triple}

-- The messages of these stages stand in their inboxes.
abbrev pub Standing : Bytes → Files → List Stage → Type 0
Standing b gs = All (λ s. lookup s.new_path gs ≡ some (regular b))

abbrev pub HoldAll : Bytes → Files → Dict String FilePath → Type 0
HoldAll b gs [] = Unit
HoldAll b gs ((_, p) ∷ d) = (lookup p gs ≡ some (regular b)) × HoldAll b gs d

HoldAll-insert :
    (b : Bytes) (gs : Files) (k : String) (p : FilePath) (d : Dict String FilePath)
    → lookup p gs ≡ some (regular b)
    → HoldAll b gs d
    → HoldAll b gs (insert k p d)
unfolding insert
HoldAll-insert b gs k p [] e h = (e, tt)
HoldAll-insert b gs k p ((j, q) ∷ d) e (i, h) = ground (arith, HoldAll-insert b gs k p d e h)

pub HoldAll-delivered :
    (b : Bytes) (gs : Files) (stages : List Stage) (d : Dict String FilePath)
    → Standing b gs stages
    → HoldAll b gs d
    → HoldAll b gs (delivered_paths stages d)
unfolding delivered_paths
HoldAll-delivered b gs [] d st h = h
HoldAll-delivered b gs (s ∷ rest) d (e, st) h =
    HoldAll-delivered b gs rest _ st (HoldAll-insert b gs s.recipient s.new_path d e h)

-- What an error says of the tree: the paths that it calls delivered hold the message.
abbrev pub Truthful : Bytes → Files → Error → Type 0
Truthful b gs (partial delivered failed pending e) = HoldAll b gs delivered
Truthful b gs _ = Unit

module _ (filename : String) (b : Bytes) where
  -- Every stage goes to the inbox of its recipient, under the name of the message.
  abbrev pub Addressed : Stage → Type 0
  Addressed s = InTmp s × (s.new_path ≡ join (inbox_new_dir s.recipient) filename)

  dest_not_tmp : (s : Stage) → Addressed s → s.new_path.leaf ≢ inbox_tmp
  dest_not_tmp s (_, e) p = cc (p, ap (λ (q : FilePath). q.leaf) e)

  tmp_not_dest : (s t : Stage) → InTmp s → Addressed t → s.tmp_path ≢ t.new_path
  tmp_not_dest s t l a p = dest_not_tmp t a (sym (ap (λ (q : FilePath). q.leaf) p) ∙ l)

  Standing-Delivers :
      (gs hs : Files) (stages : List Stage)
      → All Addressed stages
      → Delivers filename b gs hs
      → Standing b gs stages
      → Standing b hs stages
  Standing-Delivers gs hs [] a d st = tt
  Standing-Delivers gs hs (s ∷ rest) (i, a) d (e, st) = (
    Delivers-keeps filename b gs hs s.new_path (regular b) d (dest_not_tmp s i) e,
    Standing-Delivers gs hs rest a d st,
  )

  module _ (fs : Files) where
    -- The stages `before` are published and `rest` still wait.
    pub record Committing (before rest : List Stage) (gs : Files) : Type 0 where
      pub waiting : Staged filename b fs rest gs
      pub standing : Standing b gs before

    -- A failed commit: the tree is framed, and the error is true of it.
    abbrev pub Failed : Error → Files → Type 0
    Failed e gs = Delivers filename b fs gs × Truthful b gs e

    abbrev pub commit_post : List Stage → Post (Unit {0})
    commit_post stages (ok _) gs = Delivers filename b fs gs × Standing b gs stages
    commit_post stages (err e) gs = Failed e gs

    -- The clean-up and the error of a failure, once `before` is published.
    report-Triple :
        (all before pending : List Stage) (failed : String) (waits : List String) (primary : Error)
        → All Addressed before
        → All InTmp pending
        → Triple
            (λ gs. Delivers filename b fs gs × Standing b gs before)
            (cleanup_tmp_stages pending >>= λ c.
              fail {A = Unit {0}}
                (partial (delivered_paths before []) failed waits (with_cleanup primary c)))
            (commit_post all)
    report-Triple all before pending failed waits primary a p =
        Triple-bind {R = post (λ _. Kept) (λ _. ⊥)} (cleanup_tmp_stages pending) _
          (Triple-use (λ gs. post (λ _. Delivers filename b gs) (λ _. ⊥)) _
            (λ gs.
              Triple-under _ (λ hs e. rw e (Delivers-refl filename b gs))
                (cleanup_tmp_stages-Triple filename b gs pending p))
            cleaned)
          (λ c. Triple-fail _ (λ gs h. (h.0, HoldAll-delivered b gs before [] h.1 tt)))
          (λ e gs h. absurd h)
      where
        Kept : Files → Type 0
        Kept gs = Delivers filename b fs gs × Standing b gs before

        kept : (gs hs : Files) → Kept gs → Delivers filename b gs hs → Kept hs
        kept gs hs (d, st) d' =
            (Delivers-trans filename b fs gs hs d d', Standing-Delivers gs hs before a d' st)

        cleaned :
            (gs : Files)
            → Kept gs
            → (x : Result (Option Error)) (hs : Files)
            → post (λ _. Delivers filename b gs) (λ _. ⊥) x hs
            → post (λ _. Kept) (λ _. ⊥) x hs
        cleaned gs k (ok _) hs d = kept gs hs k d
        cleaned gs k (err _) hs d = d

    Failed-under :
        (xs : List Stage) (e : Error) (gs : Files) → commit_post xs (err e) gs → Failed e gs
    Failed-under xs e gs h = h

    IsStaged-Published :
        (s : Stage) (i : Addressed s) (ne : s.tmp_path ≢ s.new_path) (gs hs : Files)
        (rest : List Stage)
        → Published s.tmp_path s.new_path b ne gs hs
        → Apart s.tmp_path rest
        → All (IsStaged filename b gs) rest
        → All (IsStaged filename b hs) rest
    IsStaged-Published s i ne gs hs [] p a st = tt
    IsStaged-Published s i ne gs hs (t ∷ rest) p (k, a) (j, st) = (
      record {
        in_tmp = j.in_tmp;
        dest = j.dest;
        held = p.2 t.tmp_path k (tmp_not_dest t s j.in_tmp i) ∙ j.held;
      },
      IsStaged-Published s i ne gs hs rest p a st,
    )

    -- What a publication leaves: the next stage has moved to the published ones, or nothing has moved.
    abbrev Next : List Stage → Stage → List Stage → Post (Unit {0})
    Next before s rest (ok _) gs = Committing (before ++ s ∷ []) rest gs
    Next before s rest (err e) gs = Delivers filename b fs gs × Standing b gs before

    published :
        (before rest : List Stage) (s : Stage) (ne : s.tmp_path ≢ s.new_path) (gs : Files)
        → All Addressed before
        → All Addressed rest
        → Addressed s
        → Committing before (s ∷ rest) gs
        → (x : Result (Unit {0})) (hs : Files)
        → post (λ _. Published s.tmp_path s.new_path b ne gs) (Except s.tmp_path gs) x hs
        → Next before s rest x hs
    published before rest s ne gs ab ar (l, e) c (ok _) hs p =
        let d : Delivers filename b gs hs =
          Published-Delivers filename b s.tmp_path s.new_path ne gs hs l
            (ap (λ (q : FilePath). q.leaf) e) (ap (λ (q : FilePath). q.name) e) p in
        record {
          waiting = record {
            frame = Delivers-trans filename b fs gs hs c.waiting.frame d;
            staged =
                IsStaged-Published s (l, e) ne gs hs rest p c.waiting.separate.0 c.waiting.staged.1;
            separate = c.waiting.separate.1;
          };
          standing =
              All-snoc (λ t. lookup t.new_path hs ≡ some (regular b)) before s
                (Standing-Delivers gs hs before ab d c.standing) p.0;
        }
    published before rest s ne gs ab ar (l, e) c (err _) hs h =
        let d : Delivers filename b gs hs =
          Delivers-Except filename b s.tmp_path gs gs hs l (Delivers-refl filename b gs) h in
        (
          Delivers-trans filename b fs gs hs c.waiting.frame d,
          Standing-Delivers gs hs before ab d c.standing,
        )

    All-InTmp_of : (stages : List Stage) → All Addressed stages → All InTmp stages
    All-InTmp_of [] a = tt
    All-InTmp_of (s ∷ rest) (i, a) = (i.0, All-InTmp_of rest a)

    undelivered-InTmp :
        (e : Error) (s : Stage) (rest : List Stage)
        → Addressed s
        → All Addressed rest
        → All InTmp (undelivered e s rest)
    undelivered-InTmp e s rest i a = elim (Bool-cases (is eexist e)) [
      | inl yes' ↦ rw yes' (All-InTmp_of rest a)
      | inr no' ↦ rw no' (i.0, All-InTmp_of rest a)
    ]

    publish_next :
        (before rest : List Stage) (s : Stage)
        → All Addressed before
        → All Addressed rest
        → Addressed s
        → Triple
            (Committing before (s ∷ rest))
            (publish_tmp_no_replace s.tmp_path s.new_path b)
            (Next before s rest)
    publish_next before rest s ab ar i =
        let ne : s.tmp_path ≢ s.new_path = tmp_not_dest s s i.0 i in
        record {
          at = λ r c.
              let m = publish_tmp_no_replace s.tmp_path s.new_path b r in
              published before rest s ne r.files ab ar i c m.0 m.1.files (
                (publish-Triple s.tmp_path s.new_path b ne r.files c.waiting.staged.0.held).at r
                  refl);
        }

    pub commit_all-Triple :
        (before rest : List Stage)
        → All Addressed before
        → All Addressed rest
        → Triple (Committing before rest) (commit_all before rest b) (commit_post (before ++ rest))
    unfolding commit_all partial_delivery_error committed_delivery_error
    commit_all-Triple before [] ab ar =
        Triple-pure tt λ gs c. (c.waiting.frame, rw append-nil c.standing)
    commit_all-Triple before (s ∷ rest) ab (i, ar) =
        Triple-cases (publish_tmp_no_replace s.tmp_path s.new_path b) _ _
          (publish_next before rest s ab ar i)
          (λ _.
            Triple-cases (sync_dir (inbox_new_dir s.recipient)) _ _
              (Triple-quiet _ (files-sync_dir (inbox_new_dir s.recipient)))
              (λ _.
                Triple-bind (ignore (sync_dir (inbox_tmp_dir s.recipient))) _
                  (Triple-ignore _ (Triple-quiet _ (files-sync_dir (inbox_tmp_dir s.recipient))))
                  (λ _. rw append_assoc at (
                    commit_all-Triple (before ++ s ∷ []) rest (All-snoc Addressed before s ab i)
                      ar))
                  (λ e gs c. absurd c))
              (λ e.
                Triple-under _ (λ gs c. (c.waiting.frame, c.standing))
                  (report-Triple (before ++ s ∷ rest) (before ++ s ∷ []) rest ""
                    (recipients_of rest) _ (All-snoc Addressed before s ab i)
                    (All-InTmp_of rest ar))))
          λ e.
            report-Triple (before ++ s ∷ rest) before (undelivered (rename_error e) s rest)
              s.recipient (recipients_of rest) (rename_error e) ab
              (undelivered-InTmp (rename_error e) s rest i ar)
