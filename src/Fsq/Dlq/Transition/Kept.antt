-- ===== src/Fsq/Dlq/Transition/Kept.antt =====
-- What the move of a message into the dead letter queue guarantees, whatever faults occur.
use agent_message_queue.Base.{
  String, ◌<>◌, arith, ◌≡◌, ◌≢◌, ◌⊎◌, ◌∙◌, sym, ap, inl, inr, refl, Option, none, some,
}
use agent_message_queue.Base.Dict.{lookup}
use agent_message_queue.Fsq.Store.{
  Root, FilePath, Files, Bytes, regular, dlq_tmp, dlq_new, join, path_eq,
}
use agent_message_queue.Fsq.Errors.{Error, is_not_exist, as_committed, wrapped, transition}
use agent_message_queue.Fsq.Monad.{Result, ok, err, cases, pure, lift}
use agent_message_queue.Fsq.Monad.Triple.{
  Post, post, Triple, Triple-cases, Triple-pure, Triple-quiet, Triple-under, Triple-given,
  Triple-keeps, Triple-if, Triple-from, Quiet, files-lift,
}
use agent_message_queue.Fsq.Syscall.{remove, sync_dir}
use agent_message_queue.Fsq.Syscall.Effect.{files-sync_dir, files-unique_token, remove_except}
use agent_message_queue.Fsq.Root.{read_regular_no_follow}
use agent_message_queue.Fsq.Delivery.Publish.{read_post}
use agent_message_queue.Fsq.Claim.{Box, box_new, box_cur}
use agent_message_queue.Fsq.Dlq.Format.{Codec, serialize}
use agent_message_queue.Fsq.Dlq.Moves.{dlq_new_dir, deliver_to_dlq}
use agent_message_queue.Fsq.Dlq.Transition.{
  Outcome, failed, Failure, generate_dlq_id, inbox_source_dir, new_envelope, removed, remove_source,
  undelivered_envelope, enveloped, with_content, move_inbox_message_to_dlq,
}
use agent_message_queue.Fsq.Dlq.Transition.Deliver.{Enveloped, Delivered, deliver_to_dlq-Triple}

-- An envelope of the message stands in `dlq/new`: it is what `serialize` makes of the bytes.
pub record InEnvelope (codec : Codec) (agent : String) (source : Box) (filename : String)
    (f : Failure) (content : Bytes) (gs : Files) : Type 0 where
  pub id : String
  pub file : Bytes
  pub made : serialize codec (new_envelope id source filename f) content ≡ some file
  pub stands : lookup (join (dlq_new_dir agent) (id <> ".md")) gs ≡ some (regular file)

module _ (codec : Codec) (agent : String) (box source : Box) (filename : String) (f : Failure)
    (fs : Files) where
  abbrev src : FilePath
  src = join (inbox_source_dir agent box) filename

  -- An envelope of the message that stood in the inbox.
  abbrev pub Preserved : Files → Type 0
  Preserved gs =
      (content : Bytes) × (lookup src fs ≡ some (regular content))
      × InEnvelope codec agent source filename f content gs

  -- The message is where it was, or in an envelope.
  abbrev pub NotLost : Files → Type 0
  NotLost gs = (lookup src gs ≡ lookup src fs) ⊎ Preserved gs

  -- No other file that stands, outside `dlq/tmp`, has changed.
  abbrev pub OthersKept : Files → Type 0
  OthersKept gs =
      (q : FilePath)
      → q.leaf ≢ dlq_tmp
      → q ≢ src
      → (lookup q gs ≡ lookup q fs) ⊎ (lookup q fs ≡ none)

  abbrev pub Kept : Files → Type 0
  Kept gs = NotLost gs × OthersKept gs

  abbrev Any : Post Outcome
  Any = post (λ o gs. Kept gs × (o.error ≡ none → Preserved gs)) (λ _. ⊥)

  unchanged : (gs : Files) → gs ≡ fs → Kept gs
  unchanged gs e = (inl (ap (lookup src) e), λ q t k. inl (ap (lookup q) e))

  src_not_tmp : (b : Box) → (inbox_source_dir agent b).leaf ≢ dlq_tmp
  src_not_tmp box_new e = cc e
  src_not_tmp box_cur e = cc e

  src_not_new : (b : Box) → (inbox_source_dir agent b).leaf ≢ dlq_new
  src_not_new box_new e = cc e
  src_not_new box_cur e = cc e

  module _ (content : Bytes) (held : lookup src fs ≡ some (regular content)) (id : String)
      (file : Bytes)
      (made : serialize codec (new_envelope id source filename f) content ≡ some file) where
    abbrev dest : FilePath
    dest = join (dlq_new_dir agent) (id <> ".md")

    dest_not_src : src ≢ dest
    dest_not_src e = src_not_new box (ap (λ (q : FilePath). q.leaf) e)

    Enveloped-Kept : (gs : Files) → Enveloped dest file fs gs → Kept gs
    Enveloped-Kept gs h = (
      elim (h src (src_not_tmp box)) [
        | inl same ↦ inl same
        | inr (p, a, s) ↦ absurd (dest_not_src p)
      ],
      λ q t k. elim (h q t) [ inl same ↦ inl same | inr (p, a, s) ↦ inr a ],
    )

    -- The envelope stands, whatever has become of the source.
    abbrev Stands : Files → Type 0
    Stands gs = (lookup dest gs ≡ some (regular file)) × OthersKept gs

    Stands-Preserved : (gs : Files) → Stands gs → Preserved gs
    Stands-Preserved gs (st, k) =
        (content, held, record { id = id; file = file; made = made; stands = st })

    Stands-Kept : (gs : Files) → Stands gs → Kept gs
    Stands-Kept gs (st, k) = (inr (Stands-Preserved gs (st, k)), k)

    Delivered-Stands : (p : FilePath) (gs : Files) → Delivered dest file fs p gs → Stands gs
    Delivered-Stands p gs (e, st, h) = (st, (Enveloped-Kept gs h).1)

    remove-Stands : (r : Root) → Stands r.files → Stands (remove src r).1.files
    remove-Stands r (st, k) = (
      remove_except src dest r (λ e. dest_not_src (sym e)) ∙ st,
      λ q t ne. elim (k q t ne) [
        | inl same ↦ inl (remove_except src q r ne ∙ same)
        | inr a ↦ inr a
      ],
    )

    removed-Triple :
        (p : FilePath) → Triple Stands (removed agent src (inbox_source_dir agent box) p) Any
    unfolding removed
    removed-Triple p =
        Triple-cases (sync_dir _) _ _ (Triple-quiet _ (files-sync_dir _))
          (λ _. Triple-pure _ (λ gs h. (Stands-Kept gs h, λ p. Stands-Preserved gs h)))
          (λ e. Triple-pure _ (λ gs h. (Stands-Kept gs h, λ p. cc p)))

    remove_source-Triple :
        (p : FilePath) → Triple Stands (remove_source agent src (inbox_source_dir agent box) p) Any
    unfolding remove_source
    remove_source-Triple p =
        Triple-cases (remove src) _ _ (Triple-keeps (remove src) remove-Stands)
          (λ _. removed-Triple p)
          λ e.
            Triple-if (is_not_exist e) _ _ (λ _. removed-Triple p)
              (λ _. Triple-pure _ (λ gs h. (Stands-Kept gs h, λ p. cc p)))

    undelivered-Triple :
        (e : Error) → Triple (Enveloped dest file fs) (undelivered_envelope src e) Any
    unfolding undelivered_envelope
    undelivered-Triple e = by_commit (as_committed e)
      where
        by_commit :
            (c : Option (FilePath × String))
            → Triple
                (Enveloped dest file fs)
                (elim c [
                  | none ↦ pure (failed (wrapped "deliver to dlq" e))
                  | some (p, a) ↦ pure (record { path = some p; error = some (transition p src e) })
                ])
                Any
        by_commit none = Triple-pure _ (λ gs h. (Enveloped-Kept gs h, λ p. cc p))
        by_commit (some (p, a)) = Triple-pure _ (λ gs h. (Enveloped-Kept gs h, λ p. cc p))

    enveloped-Triple :
        Triple
          (λ gs. gs ≡ fs)
          (enveloped codec agent src (inbox_source_dir agent box) (id <> ".md") (some file))
          Any
    unfolding enveloped
    enveloped-Triple =
        Triple-cases (deliver_to_dlq _ _ _) _ _ (deliver_to_dlq-Triple agent (id <> ".md") file fs)
          (λ p. Triple-under _ (Delivered-Stands p) (remove_source-Triple p)) undelivered-Triple

  serialized-Triple :
      (content : Bytes)
      → lookup src fs ≡ some (regular content)
      → (id : String) (o : Option Bytes)
      → serialize codec (new_envelope id source filename f) content ≡ o
      → Triple
          (λ gs. gs ≡ fs)
          (enveloped codec agent src (inbox_source_dir agent box) (id <> ".md") o)
          Any
  unfolding enveloped
  serialized-Triple content held id none e = Triple-pure _ (λ gs h. (unchanged gs h, λ p. cc p))
  serialized-Triple content held id (some file) e = enveloped-Triple content held id file e

  files-generate : Quiet generate_dlq_id
  unfolding generate_dlq_id cases
  files-generate r = ground (arith, files-unique_token r)

  content-Triple :
      (content : Bytes)
      → lookup src fs ≡ some (regular content)
      → Triple (λ gs. gs ≡ fs) (with_content codec agent box source filename f content) Any
  unfolding with_content
  content-Triple content held =
      Triple-cases generate_dlq_id _ _ (Triple-quiet _ files-generate)
        (λ id. serialized-Triple content held id _ refl)
        (λ e. Triple-pure _ (λ gs h. (unchanged gs h, λ p. cc p)))

  move-Triple :
      Triple (λ gs. gs ≡ fs) (move_inbox_message_to_dlq codec agent box source filename f) Any
  unfolding move_inbox_message_to_dlq
  move-Triple =
      Triple-cases (lift _) _ _ (Triple-quiet _ (files-lift _))
        (λ _.
          Triple-cases (read_regular_no_follow src) _ _
            (Triple-from
              (λ gs. post (λ c hs. (hs ≡ gs) × (lookup src gs ≡ some (regular c))) (λ hs. hs ≡ gs))
              _ (read_post src) fs)
            (λ content.
              Triple-given (lookup src fs ≡ some (regular content)) _ (λ gs h. h.1)
                (λ held. Triple-under _ (λ gs h. h.0) (content-Triple content held)))
            (λ e. Triple-pure _ (λ gs h. (unchanged gs h, λ p. cc p))))
        (λ e. Triple-pure _ (λ gs h. (unchanged gs h, λ p. cc p)))

-- A move of a message from its inbox into the dead letter queue loses nothing, whatever system calls
-- fail: afterwards the message is in the inbox as it was, or in an envelope that stands in dlq/new and
-- holds its bytes; and no other file that stood outside dlq/tmp has changed. A move that reports no
-- error has put the message into an envelope.
pub move-Kept :
    (codec : Codec) (agent : String) (box source : Box) (filename : String) (f : Failure) (r : Root)
    → (o : Outcome) × ((move_inbox_message_to_dlq codec agent box source filename f r).0 ≡ ok o)
      × Kept codec agent box source filename f r.files
          (move_inbox_message_to_dlq codec agent box source filename f r).1.files
      × (o.error ≡ none
          → Preserved codec agent box source filename f r.files
              (move_inbox_message_to_dlq codec agent box source filename f r).1.files)
move-Kept codec agent box source filename f r =
    any (move_inbox_message_to_dlq codec agent box source filename f r).0
      ((move-Triple codec agent box source filename f r.files).at r refl)
  where
    any :
        (x : Result Outcome) {gs : Files}
        → Any codec agent box source filename f r.files x gs
        → (o : Outcome) × (x ≡ ok o)
          × Kept codec agent box source filename f r.files gs
          × (o.error ≡ none → Preserved codec agent box source filename f r.files gs)
    any (ok o) h = (o, refl, h.0, h.1)
    any (err _) h = absurd h
