-- ===== src/Fsq/Root/Atomic.antt =====
-- What an atomic write leaves behind, whatever faults occur.
use mathlib.Core.Path.{subst}
use agent_message_queue.Base.{
  ℕ, ◌<◌, String, ◌<>◌, arith, ◌≡◌, ◌≢◌, ◌⊎◌, ◌∙◌, sym, ap, inl, inr, refl, some, List, [], ◌∷◌,
  ◌++◌, length,
}
use agent_message_queue.Base.Text.{codes, codes-append}
use agent_message_queue.Base.Dict.{lookup, insert, erase, lookup-insert, lookup-erase}
use agent_message_queue.Fsq.Store.{Root, Dir, FilePath, Files, Bytes, regular, join, path_eq}
use agent_message_queue.Fsq.Errors.{committed}
use agent_message_queue.Fsq.Monad.{Result, ok, err, pure, fail, cases, ◌>>◌, on_error}
use agent_message_queue.Fsq.Monad.Triple.{
  post, Triple, Triple-then, Triple-bind, Triple-pure, Triple-fail, Triple-quiet, Triple-on_error,
  Triple-under, Triple-mono, Quiet,
}
use agent_message_queue.Fsq.Syscall.{tick, mkdir_all, sync_dir, unique_token, rename}
use agent_message_queue.Fsq.Syscall.Effect.{
  files-mkdir_all, files-sync_dir, files-unique_token, Replaced, rename-Triple,
}
use agent_message_queue.Fsq.Root.{verify_base, write_and_sync, cleanup_temp, write_file_atomic}
use agent_message_queue.Fsq.Delivery.Single.{written-Triple, synced-Triple}
use agent_message_queue.Fsq.Root.Write.{Except, Stored, Untouched, cleanup_temp-Triple}
use agent_message_queue.Fsq.Claim.Existing.{err_not_ok}

abbrev pub tmp_path : Dir → String → String → FilePath
tmp_path d name token = join d ("." <> (name <> (".tmp-" <> token)))

longer : (s t : List ℕ) → length t < length (46 ∷ (t ++ s))
longer s [] = omega arith
longer s (c ∷ t) = omega (arith, longer s t)

tmp-apart : (d : Dir) (name token : String) → tmp_path d name token ≢ join d name
tmp-apart d name token p =
    let e : codes name ≡ 46 ∷ (codes name ++ codes (".tmp-" <> token)) =
      sym (ap (λ (f : FilePath). codes f.name) p)
      ∙ codes-append "." (name <> (".tmp-" <> token))
      ∙ ap (λ (l : List ℕ). 46 ∷ l) (codes-append name (".tmp-" <> token)) in
    absurd (omega (arith, longer (codes (".tmp-" <> token)) (codes name), ap length e))

files-base : Quiet verify_base
unfolding verify_base cases tick
files-base r = ground arith

-- The final path holds the data, and every other path what it held.
abbrev pub Written : FilePath → Bytes → Files → Files → Type 0
Written n b fs gs =
    (lookup n gs ≡ some (regular b)) × ((q : FilePath) → q ≢ n → lookup q gs ≡ lookup q fs)

module _ (t n : FilePath) (b : Bytes) (apart : t ≢ n) (fs : Files) where
  untouched : (gs : Files) → Untouched t fs gs → Except t fs gs
  untouched gs (inl same) q ne = ap (lookup q) same
  untouched gs (inr (absent, h)) q ne = h q ne

  Replaced-Written : (gs hs : Files) → Stored t b fs gs → Replaced t n gs hs → Written n b fs hs
  Replaced-Written gs hs ((absent, h), held) (node, there, e) = (
    ground (arith, e, there, held, lookup-insert n n node (erase t gs)),
    λ q ne. ap (lookup q) e ∙ other q ne,
  )
    where
      other : (q : FilePath) → q ≢ n → lookup q (insert n node (erase t gs)) ≡ lookup q fs
      other q ne =
          ground (arith, lookup-insert q n node (erase t gs), lookup-erase q t gs, absent, h q)

  replaced :
      (gs : Files)
      → Stored t b fs gs
      → (x : Result (Unit {0})) (hs : Files) → post (λ _. Replaced t n gs) (λ hs. hs ≡ gs) x hs
      → post (λ _. Written n b fs) (Stored t b fs) x hs
  replaced gs h (ok _) hs rep = Replaced-Written gs hs h rep
  replaced gs h (err _) hs same = subst (Stored t b fs) (sym same) h

  renamed-Triple :
      Triple
        (Stored t b fs)
        (on_error (rename t n) (cleanup_temp t))
        (post (λ _. Written n b fs) (Except t fs))
  renamed-Triple =
      Triple-on_error {R = post (λ _. Written n b fs) (Stored t b fs)} (rename t n) _
        (record {
          at = λ r h.
              replaced r.files h (rename t n r).0 (rename t n r).1.files
                ((rename-Triple t n r.files).at r refl);
        })
        (λ _ gs h. h)
        λ e.
          Triple-mono _ (Triple-under _ (λ gs h. h.0.1) (cleanup_temp-Triple t e fs))
            (λ _ gs h. absurd h) (λ gs h. h)

-- A temporary name of the file that is written.
pub record IsTmp (d : Dir) (name : String) (q : FilePath) : Type 0 where
  pub token : String
  pub same : q ≡ tmp_path d name token

-- Every path holds what it held, but that the final one may hold the data; temporary names are left out.
abbrev pub Whole : Dir → String → Bytes → Files → Files → Type 0
Whole d name b fs gs =
    (q : FilePath)
    → (lookup q gs ≡ lookup q fs)
      ⊎ (((q ≡ join d name) × (lookup q gs ≡ some (regular b))) ⊎ IsTmp d name q)

module _ (d : Dir) (name : String) (b : Bytes) (fs : Files) where
  Except-Whole :
      (token : String) (gs : Files) → Except (tmp_path d name token) fs gs → Whole d name b fs gs
  Except-Whole token gs h q = elim (path_eq.dec q (tmp_path d name token)) [
    | yes e ↦ inr (inr (record { token = token; same = e }))
    | no n ↦ inl (h q n)
  ]

  Written-Whole : (gs : Files) → Written (join d name) b fs gs → Whole d name b fs gs
  Written-Whole gs (held, h) q = elim (path_eq.dec q (join d name)) [
    | yes e ↦ inr (inl (e, ap (λ (q : FilePath). lookup q gs) e ∙ held))
    | no n ↦ inl (h q n)
  ]

  same-Whole : (gs : Files) → gs ≡ fs → Whole d name b fs gs
  same-Whole gs e q = inl (ap (lookup q) e)

  abbrev pub Done : FilePath → Files → Type 0
  Done p gs = (p ≡ join d name) × Written (join d name) b fs gs

  pub write-Triple :
      Triple (λ gs. gs ≡ fs) (write_file_atomic d name b) (post Done (Whole d name b fs))
  unfolding write_file_atomic
  write-Triple =
      Triple-then verify_base _ files-base
        (λ _.
          Triple-then (mkdir_all d) _ (files-mkdir_all d)
            (λ _.
              Triple-then unique_token _ files-unique_token (λ token. staged token)
                (λ e. same-Whole))
            (λ e. same-Whole))
        (λ e. same-Whole)
    where
      staged :
          (token : String)
          → Triple
              (λ gs. gs ≡ fs)
              (do
                write_and_sync (tmp_path d name token) b
                on_error (sync_dir d) (cleanup_temp (tmp_path d name token))
                on_error
                    (rename (tmp_path d name token) (join d name))
                    (cleanup_temp (tmp_path d name token))
                on_error (sync_dir d) (λ e. fail (committed (join d name) "" e))
                pure (join d name))
              (post Done (Whole d name b fs))
      staged token =
          let t = tmp_path d name token in
          let n = join d name in
          let apart = tmp-apart d name token in
          Triple-bind (write_and_sync t b) _ (written-Triple t n b apart fs)
            (λ _.
              Triple-bind (on_error (sync_dir d) (cleanup_temp t)) _
                (synced-Triple t n b apart fs d)
                (λ _.
                  Triple-bind (on_error (rename t n) (cleanup_temp t)) _
                    (renamed-Triple t n b apart fs)
                    (λ _.
                      Triple-bind (on_error (sync_dir d) (λ e. fail (committed n "" e))) _
                        (Triple-on_error {R = post (λ _. Written n b fs) (Written n b fs)}
                          (sync_dir d) _ (Triple-quiet _ (files-sync_dir d)) (λ _ gs h. h)
                          (λ e.
                            Triple-fail {Q = post (λ _. Written n b fs) (Written n b fs)}
                              (committed n "" e) (λ gs h. h)))
                        (λ _. Triple-pure n (λ gs h. (refl, h))) (λ e gs h. Written-Whole gs h))
                    (λ e gs h. Except-Whole token gs h))
                (λ e gs h. Except-Whole token gs h))
            (λ e gs h. Except-Whole token gs h)

-- An atomic write, however it ends and whatever system calls fail, leaves no part of a file: but for its
-- temporary names, a path holds what it held, and only the final path may hold exactly the data instead.
-- If it reports success, it returns the final path, which holds exactly the data, and every other path
-- holds what it held.
pub write_file_atomic_holds :
    (d : Dir) (name : String) (b : Bytes) (r : Root)
    → Whole d name b r.files (write_file_atomic d name b r).1.files
      × ((p : FilePath)
          → (write_file_atomic d name b r).0 ≡ ok p
          → (p ≡ join d name)
            × Written (join d name) b r.files (write_file_atomic d name b r).1.files)
write_file_atomic_holds d name b r =
    split (write_file_atomic d name b r).0 (write_file_atomic d name b r).1.files
      ((write-Triple d name b r.files).at r refl)
  where
    split :
        (x : Result FilePath) (gs : Files)
        → post (Done d name b r.files) (Whole d name b r.files) x gs
        → Whole d name b r.files gs
          × ((p : FilePath) → x ≡ ok p → (p ≡ join d name) × Written (join d name) b r.files gs)
    split (ok p) gs (e, w) = (Written-Whole d name b r.files gs w, λ p' k. (cc (e, k), w))
    split (err _) gs w = (w, λ p' k. absurd (err_not_ok k))
