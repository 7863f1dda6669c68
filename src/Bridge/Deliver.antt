-- ===== src/Bridge/Deliver.antt =====
-- What the application of an envelope does to the inboxes, whatever faults occur.
use agent_message_queue.Base.{
  String, arith, ◌≡◌, ◌∙◌, ap, refl, true, inl, some, ◌!=◌, ◌==◌, string_eq, codes_eq,
}
use agent_message_queue.Base.Dict.{lookup}
use agent_message_queue.Fsq.Store.{Root, FilePath, Files, Bytes, regular, eexist, join, path_eq}
use agent_message_queue.Fsq.Errors.{Error, is}
use agent_message_queue.Fsq.Monad.{Result, ok, err, M, cases, lift}
use agent_message_queue.Fsq.Monad.Triple.{
  post, Triple, Triple-then, Triple-bind, Triple-cases, Triple-if, Triple-pure, Triple-fail,
  Triple-use, Triple-from, Quiet, files-lift,
}
use agent_message_queue.Fsq.Syscall.{tick, stat}
use agent_message_queue.Fsq.Root.{verify_base, read_regular_no_follow}
use agent_message_queue.Fsq.Delivery.{inbox_new_dir}
use agent_message_queue.Fsq.Delivery.Publish.{read_post}
use agent_message_queue.Fsq.Delivery.Frame.{Delivers}
use agent_message_queue.Fsq.Claim.{deliver_to_existing_inbox}
use agent_message_queue.Fsq.Claim.Existing.{existing-Triple, err_not_ok}
use agent_message_queue.Fsq.Dlq.Moves.{root_stat}
use agent_message_queue.Bridge.{
  Envelope, Crypto, Applied, parse_alias, validate_envelope, stat_error, collided, deliver_envelope,
  apply_envelope, transfer_filename,
}
use agent_message_queue.Bridge.Apply.{validate-Triple}

same_bytes : (b c : Bytes) → (b == c) ≡ true → b ≡ c
same_bytes b c h = ground arith

files-stat_error : (p : FilePath) → Quiet (stat_error p)
unfolding stat_error root_stat verify_base stat cases tick
files-stat_error p r = ground arith

module _ (validate_layout : String → M (Unit {0}))
    (looks : (a : String) → Quiet (validate_layout a)) (agent : String) (env : Envelope)
    (fs : Files) where
  abbrev rel : FilePath
  rel = join (inbox_new_dir agent) (transfer_filename env.source_host env.transfer_id)

  abbrev Framed : Files → Type 0
  Framed = Delivers (transfer_filename env.source_host env.transfer_id) env.payload fs

  -- The payload stands under the name of the transfer.
  abbrev Holds : Applied → Files → Type 0
  Holds a gs = (a.path ≡ rel) × (lookup rel gs ≡ some (regular env.payload)) × Framed gs

  collided-Triple : (e : Error) → Triple Framed (collided rel env.payload e) (post Holds Framed)
  unfolding collided
  collided-Triple e =
      Triple-if (is eexist e) _ _
        (λ _.
          Triple-cases (read_regular_no_follow rel) _ _ read
            (λ existing.
              Triple-if (existing == env.payload) _ _
                (λ p. Triple-pure _ (λ gs h. (
                  refl,
                  h.1 ∙ ap (λ (c : Bytes). some (regular c)) (same_bytes existing env.payload p),
                  h.0,
                )))
                (λ _. Triple-fail _ (λ gs h. h.0)))
            (λ _. Triple-fail _ (λ gs h. h)))
        (λ _. Triple-fail _ (λ gs h. h))
    where
      keep :
          (gs : Files)
          → Framed gs
          → (x : Result Bytes) (hs : Files)
          → post (λ c hs. (hs ≡ gs) × (lookup rel gs ≡ some (regular c))) (λ hs. hs ≡ gs) x hs
          → post (λ c hs. Framed hs × (lookup rel hs ≡ some (regular c))) Framed x hs
      keep gs h (ok c) hs (same, e) = rw same (h, e)
      keep gs h (err _) hs same = rw same h

      read :
          Triple Framed
            (read_regular_no_follow rel)
            (post (λ c hs. Framed hs × (lookup rel hs ≡ some (regular c))) Framed)
      read =
          Triple-use
            (λ gs. post (λ c hs. (hs ≡ gs) × (lookup rel gs ≡ some (regular c))) (λ hs. hs ≡ gs)) _
            (Triple-from
              (λ gs. post (λ c hs. (hs ≡ gs) × (lookup rel gs ≡ some (regular c))) (λ hs. hs ≡ gs))
              _ (read_post rel))
            keep

  deliver-Triple :
      Triple (λ gs. gs ≡ fs) (deliver_envelope validate_layout agent env) (post Holds Framed)
  unfolding deliver_envelope
  deliver-Triple =
      Triple-then (stat_error rel) _ (files-stat_error rel)
        (λ before.
          Triple-cases (deliver_to_existing_inbox validate_layout agent _ env.payload) _ _
            (existing-Triple validate_layout looks agent _ env.payload fs)
            (λ path. Triple-pure _ (λ gs h. h)) collided-Triple)
        (λ e gs h q ne. inl (ap (lookup q) h))

  apply-Triple :
      (crypto : Crypto) (host : String)
      → Triple
          (λ gs. gs ≡ fs)
          (apply_envelope crypto validate_layout host agent env)
          (post Holds Framed)
  unfolding apply_envelope
  apply-Triple crypto host =
      Triple-bind (validate_envelope crypto env) _ (validate-Triple _ crypto env)
        (λ _.
          Triple-then (lift (parse_alias env.dest_alias)) _ (files-lift _)
            (λ to.
              Triple-if (to.0 != host) _ _ (λ _. Triple-fail _ same)
                (λ _.
                  Triple-if (to.1 != agent) _ _ (λ _. Triple-fail _ same) (λ _. deliver-Triple)))
            (λ e gs h. same gs h))
        (λ e gs h. same gs h)
    where
      same : (gs : Files) → gs ≡ fs → Framed gs
      same gs h q ne = inl (ap (lookup q) h)

-- An application of an envelope, however it ends, changes no path outside inbox/tmp but that the payload
-- may stand whole under the name of the transfer, in an inbox/new where no file of the name stood. If it
-- reports success, as a first delivery or a replay, exactly the payload stands under the name of the
-- transfer in the agent's inbox. The check of the layout may do anything but change files.
pub apply_holds :
    (crypto : Crypto) (validate_layout : String → M (Unit {0})) (host agent : String)
    (env : Envelope) (r : Root)
    → ((a : String) → Quiet (validate_layout a))
    → Delivers
        (transfer_filename env.source_host env.transfer_id)
        env.payload
        r.files
        (apply_envelope crypto validate_layout host agent env r).1.files
      × ((a : Applied)
          → (apply_envelope crypto validate_layout host agent env r).0 ≡ ok a
          → (a.path
              ≡ join (inbox_new_dir agent) (transfer_filename env.source_host env.transfer_id))
            × (lookup a.path (apply_envelope crypto validate_layout host agent env r).1.files
                ≡ some (regular env.payload)))
apply_holds crypto validate_layout host agent env r looks =
    split (apply_envelope crypto validate_layout host agent env r).0
      ((apply-Triple validate_layout looks agent env r.files crypto host).at r refl)
  where
    split :
        (x : Result Applied) {gs : Files}
        → post
            (Holds validate_layout looks agent env r.files)
            (Framed validate_layout looks agent env r.files)
            x
            gs
        → Framed validate_layout looks agent env r.files gs
          × ((a : Applied)
              → x ≡ ok a
              → (a.path ≡ rel validate_layout looks agent env r.files)
                × (lookup a.path gs ≡ some (regular env.payload)))
    split (ok a) (e, st, d) = (d, λ a' k. (cc (e, k), cc (e, st, k)))
    split (err _) d = (d, λ a' k. absurd (err_not_ok k))
