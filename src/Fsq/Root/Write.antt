-- ===== src/Fsq/Root/Write.antt =====
-- What the writing of a new file, and its removal, leave behind.
use agent_message_queue.Base.{arith, ◌≡◌, ◌≢◌, ◌⊎◌, inl, inr, refl, Option, none, some, [], ◌∙◌}
use agent_message_queue.Base.Dict.{lookup, insert, lookup-insert}
use agent_message_queue.Fsq.Store.{Root, FilePath, Files, Bytes, regular, path_eq}
use agent_message_queue.Fsq.Errors.{Error, is_not_exist, wrapped}
use agent_message_queue.Fsq.Monad.{Result, ok, err, cases, ◌>>=◌, ◌>>◌, ignore, error_of}
use agent_message_queue.Fsq.Monad.Triple.{
  post, Post, Triple, Triple-quiet, Triple-from, Triple-mono, Triple-keeps, Triple-bind,
  Triple-then, Triple-cases, Triple-fail, Triple-pure, Triple-under, Triple-if, Triple-ignore,
  Triple-error_of, reported, Quiet,
}
use agent_message_queue.Fsq.Syscall.{tick, open_exclusive, write_file, remove}
use agent_message_queue.Fsq.Syscall.Effect.{
  files-tick, open_exclusive_files, write_file_except, write_file_stored, remove_except,
}
use agent_message_queue.Fsq.Root.{write_and_sync, settle, close_file, cleanup_temp, after_cleanup}

-- Every path but `p` holds what it held.
abbrev pub Except : FilePath → Files → Files → Type 0
Except p fs gs = (q : FilePath) → q ≢ p → lookup q gs ≡ lookup q fs

-- `p` was free, and nothing else has changed.
abbrev pub Fresh : FilePath → Files → Files → Type 0
Fresh p fs gs = (lookup p fs ≡ none) × Except p fs gs

-- `p` was free, and now holds the data.
abbrev pub Stored : FilePath → Bytes → Files → Files → Type 0
Stored p data' fs gs = Fresh p fs gs × (lookup p gs ≡ some (regular data'))

-- `p` was free and only it may have changed, or nothing has.
abbrev pub Untouched : FilePath → Files → Files → Type 0
Untouched p fs gs = (gs ≡ fs) ⊎ Fresh p fs gs

Except-step : (p : FilePath) (fs gs hs : Files) → Except p fs gs → Except p gs hs → Except p fs hs
Except-step p fs gs hs h k q ne = k q ne ∙ h q ne

abbrev open_post : FilePath → Files → Post (Unit {0})
open_post p fs =
    post (λ _ gs. (lookup p fs ≡ none) × (gs ≡ insert p (regular []) fs)) (λ gs. gs ≡ fs)

files-report : Quiet (error_of tick)
unfolding cases tick
files-report r = ground arith

module _ (p : FilePath) (b : Bytes) (fs : Files) where
  opened_Fresh :
      (gs : Files) → (lookup p fs ≡ none) × (gs ≡ insert p (regular []) fs) → Fresh p fs gs
  opened_Fresh gs (absent, e) = (absent, λ q ne. rw e (rw lookup-insert (ground arith)))

  written_post :
      (r : Root) (x : Result (Unit {0})) (gs : Files)
      → Fresh p fs r.files
      → Except p r.files gs
      → post (λ _ hs. lookup p hs ≡ some (regular b)) (λ _. Unit) x gs
      → post (λ _. Stored p b fs) (Fresh p fs) x gs
  written_post r (ok _) gs (absent, h) k s = ((absent, Except-step p fs r.files gs h k), s)
  written_post r (err _) gs (absent, h) k s = (absent, Except-step p fs r.files gs h k)

  write_file-Triple : Triple (Fresh p fs) (write_file p b) (post (λ _. Stored p b fs) (Fresh p fs))
  write_file-Triple = record {
    at = λ r h.
        written_post r (write_file p b r).0 (write_file p b r).1.files h
          (λ q ne. write_file_except p q b r ne) (write_file_stored p b r);
  }

  remove-Fresh : Triple (Fresh p fs) (remove p) (post (λ _. Fresh p fs) (Fresh p fs))
  remove-Fresh =
      Triple-keeps (remove p) λ r (absent, h). (absent, λ q ne. remove_except p q r ne ∙ h q ne)

  -- The reports of the write, with the sync, and of the close.
  write-Triple :
      Triple
        (Fresh p fs)
        (error_of (write_file p b >> tick))
        (reported (Stored p b fs) (Fresh p fs))
  write-Triple = Triple-error_of _ (
      Triple-bind (write_file p b) _ write_file-Triple
        (λ _. Triple-mono tick (Triple-quiet tick files-tick) (λ _ gs h. h) (λ gs h. h.0))
        (λ e gs h. h))

  settle-Fresh :
      (e : Error) → Triple (Fresh p fs) (settle p (some e)) (post (λ _. Stored p b fs) (Fresh p fs))
  unfolding settle
  settle-Fresh e =
      Triple-bind (ignore (remove p)) _ (Triple-ignore (remove p) remove-Fresh)
        (λ _. Triple-fail e (λ gs h. h)) (λ e gs h. absurd h)

  settle-Triple :
      (o : Option Error) (P : Files → Type 0)
      → ((gs : Files) → P gs → Fresh p fs gs)
      → (o ≡ none → (gs : Files) → P gs → Stored p b fs gs)
      → Triple P (settle p o) (post (λ _. Stored p b fs) (Fresh p fs))
  unfolding settle
  settle-Triple none P w s = Triple-pure tt (λ gs h. s refl gs h)
  settle-Triple (some e) P w s = Triple-under _ w (settle-Fresh e)

  close-Triple :
      (written : Option Error)
      → Triple
          (reported (Stored p b fs) (Fresh p fs) (ok written))
          (close_file p written)
          (post (λ _. Stored p b fs) (Fresh p fs))
  unfolding close_file
  close-Triple none =
      Triple-then {P = Stored p b fs} (error_of tick) _ files-report
        (λ closed. settle-Triple closed (Stored p b fs) (λ gs h. h.0) (λ _ gs h. h)) (λ e gs h. h.0)
  close-Triple (some e) =
      Triple-then {P = Fresh p fs} (error_of tick) _ files-report (λ closed. settle-Fresh e)
        (λ e gs h. h)

  pub write_and_sync-Triple :
      Triple (λ gs. gs ≡ fs) (write_and_sync p b) (post (λ _. Stored p b fs) (Untouched p fs))
  unfolding write_and_sync
  write_and_sync-Triple =
      Triple-bind (open_exclusive p) (λ _. error_of (write_file p b >> tick) >>= close_file p)
        (Triple-from (open_post p) _ (open_exclusive_files p) fs)
        (λ _. Triple-under _ opened_Fresh (
          Triple-bind (error_of (write_file p b >> tick)) (close_file p) write-Triple
            (λ written.
              Triple-mono (close_file p written) (close-Triple written) (λ _ gs h. h)
                (λ gs h. inr h))
            (λ e gs h. inr h)))
        (λ e gs h. inl h)

-- The removal of a temporary file after an error touches nothing else, and reports an error.
pub cleanup_temp-Triple :
    (p : FilePath) (e : Error) (fs : Files)
    → Triple (Except p fs) (cleanup_temp p e) (post (λ _ _. ⊥) (Except p fs))
unfolding cleanup_temp after_cleanup
cleanup_temp-Triple p e fs =
    Triple-cases (remove p) _ _
      (Triple-keeps (remove p) λ r h q ne. remove_except p q r ne ∙ h q ne)
      (λ _. Triple-fail e (λ gs h. h))
      λ c.
        Triple-if (is_not_exist c) _ _ (λ _. Triple-fail e (λ gs h. h))
          (λ _. Triple-fail (wrapped "cleanup" e) (λ gs h. h))
