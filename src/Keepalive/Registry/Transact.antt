-- ===== src/Keepalive/Registry/Transact.antt =====
-- What a transaction on the registry's file keeps (internal/keepalive/registry/store.go).
use agent_message_queue.Base.{
  arith, ◌≡◌, ◌⊎◌, inl, inr, refl, Bool, true, false, ◌||◌, List, [], string_eq, eqb, if◌then◌else◌,
}
use agent_message_queue.Keepalive.Registry.{
  Entry, Paths, unsupported_schema, lock_failed, committed_durability, write_failed, Result, ok,
  err,
}
use agent_message_queue.Keepalive.Registry.Store.{
  Disk, absent, unreadable, malformed, file, Io, Saving, Change, keep, replace, refuse,
  sort_entries, validate_file_identities, load_valid, load_unlocked, finish_save, save_valid,
  save_unlocked, answer, apply_change, after_load, with_lock, write_folder, remove_temp, after_fill,
  rename_temp, finish_committed, fill_temp,
}
use agent_message_queue.Keepalive.Registry.Rows.{HasDistinctIds, valid-HasDistinctIds}
use agent_message_queue.Keepalive.Registry.Exclusive.{disk_entries}

-- What a change makes of entries that have a property has it, where the save finds its ids distinct.
abbrev pub Keeps : {A : Type 0} → (List Entry → Type 0) → Change A → Type 0
Keeps P (keep a) = Unit {0}
Keeps P (replace l a) = HasDistinctIds l → P l
Keeps P (refuse x) = Unit {0}

-- A save fails before the rename and leaves the registry, or replaces it and either succeeds or says
-- that the durability is unknown.
pub finish-cases :
    (w : Saving) (l : List Entry) (d : Disk)
    → (finish_save w l d ≡ (d, err write_failed))
      ⊎ ((finish_save w l d ≡ (file 1 (sort_entries l), ok tt))
          ⊎ (finish_save w l d ≡ (file 1 (sort_entries l), err committed_durability)))
unfolding finish_save write_folder remove_temp after_fill rename_temp finish_committed fill_temp
finish-cases w l d = ground arith

module _ (p : Paths) (P : List Entry → Type 0)
    (P-sort : (l : List Entry) → HasDistinctIds l → P l → P (sort_entries l)) where
  abbrev HasResult : Result (List Entry) → Type 0
  HasResult (ok l) = P l
  HasResult (err x) = Unit {0}

  loaded : (disk : Disk) → P [] → P (disk_entries disk) → HasResult (load_unlocked p disk)
  unfolding load_unlocked validate_file_identities
  loaded absent n h = n
  loaded unreadable n h = tt
  loaded malformed n h = tt
  loaded (file v l) n h = choose (eqb v 0 || eqb v 1) (validate_file_identities p l) refl
    where
      valid : (r : Result Unit) → validate_file_identities p l ≡ r → HasResult (load_valid p l r)
      valid (ok u) q = unfold load_valid in P-sort l (valid-HasDistinctIds p [] l q) h
      valid (err x) q = unfold load_valid in tt

      choose :
          (b : Bool) (r : Result Unit)
          → validate_file_identities p l ≡ r
          → HasResult (if b then load_valid p l r else err (unsupported_schema v))
      choose true r q = valid r q
      choose false r q = tt

  finish_kept :
      (w : Saving) (l : List Entry) (disk : Disk)
      → P (disk_entries disk)
      → HasDistinctIds l
      → P l
      → P (disk_entries (finish_save w l disk).0)
  finish_kept w l disk h d x = elim (finish-cases w l disk) [
    | inl e ↦ rw e h
    | inr (inl e) ↦ rw e (P-sort l d x)
    | inr (inr e) ↦ rw e (P-sort l d x)
  ]

  save_kept :
      (w : Saving) (l : List Entry) (disk : Disk) (r : Result Unit)
      → P (disk_entries disk)
      → (HasDistinctIds l → P l)
      → validate_file_identities p l ≡ r
      → P (disk_entries (save_valid p w l disk r).0)
  unfolding save_valid validate_file_identities
  save_kept w l disk (ok u) h x v =
      let d = valid-HasDistinctIds p [] l v in finish_kept w l disk h d (x d)
  save_kept w l disk (err e) h x v = h

  module _ {A : Type 0} where
    answer-disk : (a : A) (r : Disk × Result Unit) → (answer p a r).0 ≡ r.0
    unfolding answer
    answer-disk a (disk, ok u) = refl
    answer-disk a (disk, err x) = refl

    apply_kept :
        (w : Saving) (disk : Disk) (c : Change A)
        → P (disk_entries disk)
        → Keeps P c
        → P (disk_entries (apply_change p w disk c).0)
    unfolding apply_change save_unlocked
    apply_kept w disk (keep a) h k = h
    apply_kept w disk (refuse x) h k = h
    apply_kept w disk (replace l a) h k =
        rw (answer-disk a (save_unlocked p w l disk))
          (save_kept w l disk (validate_file_identities p l) h k refl)

    after_kept :
        (w : Saving) (disk : Disk) (change : List Entry → Change A) (r : Result (List Entry))
        → P (disk_entries disk)
        → HasResult r
        → load_unlocked p disk ≡ r
        → ((l : List Entry) → load_unlocked p disk ≡ ok l → P l → Keeps P (change l))
        → P (disk_entries (after_load p w disk change r).0)
    unfolding after_load
    after_kept w disk change (ok l) h o q k = apply_kept w disk (change l) h (k l q o)
    after_kept w disk change (err x) h o q k = h

    -- A transaction whose change keeps a property of the rows keeps it in the file, however its lock, its load
    -- and its write end.
    pub with_lock-Keeps :
        (io : Io) (change : List Entry → Change A) (disk : Disk)
        → P []
        → P (disk_entries disk)
        → ((l : List Entry) → load_unlocked p disk ≡ ok l → P l → Keeps P (change l))
        → P (disk_entries (with_lock p io change disk).0)
    unfolding with_lock
    with_lock-Keeps io change disk n h k = choose io.locks
      where
        choose :
            (b : Bool)
            → P (
                disk_entries
                  (if b
                    then after_load p io.write disk change (load_unlocked p disk)
                    else (disk, err lock_failed)).0)
        choose true =
            after_kept io.write disk change (load_unlocked p disk) h (loaded disk n h) refl k
        choose false = h
