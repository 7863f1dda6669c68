-- ===== src/Keepalive/Registry/Answers.antt =====
-- What the answer of a transaction on the registry's file says of the file (internal/keepalive/registry/store.go).
use agent_message_queue.Base.{
  arith, ◌≡◌, ◌≢◌, ◌∙◌, inl, inr, ap, refl, Bool, true, false, List, string_eq, if◌then◌else◌,
}
use agent_message_queue.Keepalive.Registry.{
  Entry, Paths, RegistryError, lock_failed, committed_durability, Result, ok, err,
}
use agent_message_queue.Keepalive.Registry.Store.{
  Disk, file, Io, Saving, Change, keep, replace, refuse, sort_entries, validate_file_identities,
  load_unlocked, finish_save, save_valid, save_unlocked, answer, apply_change, after_load,
  with_lock,
}
use agent_message_queue.Keepalive.Registry.Transact.{finish-cases}

-- The answer is an error, and the file is another one, only where the durability is unknown.
abbrev pub Untouched : {A : Type 0} → Disk → Disk × Result A → Type 0
Untouched d r = (x : RegistryError) → r.1 ≡ err x → x ≢ committed_durability → r.0 ≡ d

module _ (p : Paths) where
  finish-Untouched : (w : Saving) (l : List Entry) (d : Disk) → Untouched d (finish_save w l d)
  finish-Untouched w l d x q n = elim (finish-cases w l d) [
    | inl e ↦ ap (λ r. r.0) e
    | inr (inl e) ↦ cc
    | inr (inr e) ↦ ground (arith, e, q, n)
  ]

  save-Untouched :
      (w : Saving) (l : List Entry) (d : Disk) (r : Result Unit)
      → Untouched d (save_valid p w l d r)
  unfolding save_valid
  save-Untouched w l d (ok u) = finish-Untouched w l d
  save-Untouched w l d (err x) = λ y q n. refl

  module _ {A : Type 0} where
    answer-Untouched :
        (a : A) (d : Disk) (r : Disk × Result Unit) → Untouched d r → Untouched d (answer p a r)
    unfolding answer
    answer-Untouched a d (d', ok u) h x q n = cc
    answer-Untouched a d (d', err y) h x q n = h x (cc) n

    apply-Untouched : (w : Saving) (d : Disk) (c : Change A) → Untouched d (apply_change p w d c)
    unfolding apply_change save_unlocked
    apply-Untouched w d (keep a) x q n = refl
    apply-Untouched w d (refuse y) x q n = refl
    apply-Untouched w d (replace l a) x q n =
        answer-Untouched a d (save_valid p w l d (validate_file_identities p l))
          (save-Untouched w l d (validate_file_identities p l)) x q n

    after-Untouched :
        (w : Saving) (d : Disk) (change : List Entry → Change A) (r : Result (List Entry))
        → Untouched d (after_load p w d change r)
    unfolding after_load
    after-Untouched w d change (ok l) x q n = apply-Untouched w d (change l) x q n
    after-Untouched w d change (err y) x q n = refl

    -- A transaction that fails, for the lock, the load, the decision or the write, leaves the file as it
    -- was, unless its error says that the rename had been made.
    pub with_lock-Untouched :
        (io : Io) (change : List Entry → Change A) (d : Disk) (x : RegistryError)
        → (with_lock p io change d).1 ≡ err x
        → x ≢ committed_durability
        → (with_lock p io change d).0 ≡ d
    unfolding with_lock
    with_lock-Untouched io change d = choose io.locks
      where
        choose :
            (b : Bool)
            → Untouched d (
                if b
                then after_load p io.write d change (load_unlocked p d)
                else (d, err lock_failed))
        choose true = after-Untouched io.write d change (load_unlocked p d)
        choose false = λ x q n. refl

-- What a transaction that answers `a` has made of the file: nothing where its change keeps the entries,
-- and the whole of the new entries, sorted, where it replaces them.
abbrev pub Written : {A : Type 0} → Change A → A → Disk → Disk → Type 0
Written (keep b) a d d' = (b ≡ a) × (d' ≡ d)
Written (replace l b) a d d' = (b ≡ a) × (d' ≡ file 1 (sort_entries l))
Written (refuse x) a d d' = ⊥

finish-Written :
    (w : Saving) (l : List Entry) (d : Disk)
    → (finish_save w l d).1 ≡ ok tt
    → (finish_save w l d).0 ≡ file 1 (sort_entries l)
finish-Written w l d h = elim (finish-cases w l d) [
  | inl e ↦ ground (arith, e, h)
  | inr (inl e) ↦ ap (λ r. r.0) e
  | inr (inr e) ↦ ground (arith, e, h)
]

module _ (p : Paths) {A : Type 0} where
  answer-Written :
      (w : Saving) (l : List Entry) (b a : A) (d : Disk) (v : Result Unit)
      → (answer p b (save_valid p w l d v)).1 ≡ ok a
      → Written (replace l b) a d (answer p b (save_valid p w l d v)).0
  unfolding save_valid answer
  answer-Written w l b a d (ok u) h = saved (finish_save w l d).0 (finish_save w l d).1 h refl
    where
      saved :
          (d' : Disk) (r : Result Unit)
          → (answer p b (d', r)).1 ≡ ok a
          → (d', r) ≡ finish_save w l d
          → Written (replace l b) a d (answer p b (d', r)).0
      saved d' (ok u) h e =
          (ground (arith, h), ap (λ r. r.0) e ∙ finish-Written w l d (ground (arith, e)))
      saved d' (err x) h e = cc h
  answer-Written w l b a d (err x) h = ground (arith, h)

  after-Written :
      (w : Saving) (d : Disk) (change : List Entry → Change A) (r : Result (List Entry)) (a : A)
      → (after_load p w d change r).1 ≡ ok a
      → (l : List Entry) × (r ≡ ok l) × Written (change l) a d (after_load p w d change r).0
  unfolding after_load apply_change save_unlocked
  after-Written w d change (ok l) a h = (l, refl, decided (change l) h)
    where
      decided :
          (c : Change A) → (apply_change p w d c).1 ≡ ok a → Written c a d (apply_change p w d c).0
      decided (keep b) h = (ground (arith, h), refl)
      decided (refuse x) h = cc h
      decided (replace m b) h = answer-Written w m b a d (validate_file_identities p m) h
  after-Written w d change (err x) a h = cc h

  abbrev Answered : (List Entry → Change A) → Disk → A → Disk × Result A → Type 0
  Answered change d a r =
      r.1 ≡ ok a → (l : List Entry) × (load_unlocked p d ≡ ok l) × Written (change l) a d r.0

  -- A transaction that succeeds has loaded the file and done what its change decides of the entries: the
  -- file is as it was where they are kept, and holds exactly the new entries, sorted, where they are
  -- replaced.
  pub with_lock-Written :
      (io : Io) (change : List Entry → Change A) (d : Disk) (a : A)
      → (with_lock p io change d).1 ≡ ok a
      → (l : List Entry) × (load_unlocked p d ≡ ok l)
        × Written (change l) a d (with_lock p io change d).0
  unfolding with_lock
  with_lock-Written io change d a = choose io.locks
    where
      choose :
          (b : Bool)
          → Answered change d a (
              if b
              then after_load p io.write d change (load_unlocked p d)
              else (d, err lock_failed))
      choose true = after-Written io.write d change (load_unlocked p d) a
      choose false = λ h. cc h
