-- ===== src/Keepalive/Registry/Store.antt =====
-- The registry's file: how it is loaded, saved, and changed under its lock
-- (internal/keepalive/registry/store.go). Which calls succeed is a parameter.
use Prim.Native.Nat.{ℕ}
use agent_message_queue.Base.{
  String, Bool, ◌||◌, ◌&&◌, not, List, [], ◌∷◌, eqb, string_eq, if◌then◌else◌,
}
use agent_message_queue.Format.Sort.{string_lt}
use agent_message_queue.Keepalive.Registry.{
  Entry, Paths, RegistryError, read_failed, corrupt, unsupported_schema, write_failed,
  committed_durability, lock_failed, Result, ok, err, validate_unseen,
}

-- The file as a read of it finds it, decoded.
pub data Disk : Type 0 where
  absent : Disk
  unreadable : Disk
  malformed : Disk
  file : ℕ → List Entry → Disk

-- Which of the calls of a save succeed, in their order: the temporary file is created, made private,
-- written, synced, closed and renamed over the registry, whose mode is set and whose folder is synced; and
-- the removal of the temporary file at the end.
pub record Saving : Type 0 where
  pub creates : Bool
  pub chmods : Bool
  pub encodes : Bool
  pub syncs : Bool
  pub closes : Bool
  pub renames : Bool
  pub chmods_registry : Bool
  pub syncs_folder : Bool
  pub removes : Bool

pub record Io : Type 0 where
  pub locks : Bool
  pub write : Saving

-- The registry's folder during a save: the registry, and the temporary file if there is one, each as a
-- read would find it.
pub record Folder : Type 0 where
  pub registry : Disk
  pub temp : Disk

unfoldable pub insert_sorted : Entry → List Entry → List Entry
insert_sorted e [] = e ∷ []
insert_sorted e (f ∷ rest) =
    let later = f ∷ insert_sorted e rest in if string_lt f.id e.id then later else e ∷ f ∷ rest

unfoldable pub sort_entries : List Entry → List Entry
unfolding insert_sorted
sort_entries [] = []
sort_entries (e ∷ rest) = insert_sorted e (sort_entries rest)

-- The temporary file is filled: nothing but it is touched.
unfoldable pub fill_temp : Saving → List Entry → Folder → Folder × Result Unit
fill_temp w entries f =
    if not w.chmods
    then (f, err write_failed)
    else if not w.encodes
    then (record f { temp = malformed }, err write_failed)
    else if w.syncs && w.closes
    then (record f { temp = file 1 entries }, ok tt)
    else (record f { temp = file 1 entries }, err write_failed)

-- `finishCommittedRegistryFile`: the registry is the new one already.
unfoldable pub finish_committed : Saving → Folder → Folder × Result Unit
finish_committed w f =
    if w.chmods_registry && w.syncs_folder then (f, ok tt) else (f, err committed_durability)

-- `os.Rename`, which replaces the registry in one step, and what follows.
unfoldable pub rename_temp : Saving → Folder → Folder × Result Unit
unfolding finish_committed
rename_temp w f =
    if w.renames
    then finish_committed w (record { registry = f.temp; temp = absent })
    else (f, err write_failed)

unfoldable pub after_fill : Saving → Folder × Result Unit → Folder × Result Unit
unfolding rename_temp
after_fill w (f, ok u) = rename_temp w f
after_fill w (f, err x) = (f, err x)

-- The deferred `os.Remove`, whose error is dropped.
unfoldable pub remove_temp : Saving → Folder × Result Unit → Folder × Result Unit
remove_temp w (f, r) = if w.removes then (record f { temp = absent }, r) else (f, r)

-- From the creation of the temporary file, which is empty, to the end.
unfoldable pub write_folder : Saving → List Entry → Folder → Folder × Result Unit
unfolding fill_temp after_fill remove_temp
write_folder w entries f =
    if w.creates
    then remove_temp w (after_fill w (fill_temp w entries (record f { temp = malformed })))
    else (f, err write_failed)

-- The name of a temporary file is a new one each time, and nothing reads it but its own save.
unfoldable pub finish_save : Saving → List Entry → Disk → Disk × Result Unit
unfolding write_folder sort_entries
finish_save w entries disk =
    let done = write_folder w (sort_entries entries) (record { registry = disk; temp = absent }) in
    (done.0.registry, done.1)

-- What an operation decides from the loaded entries: no write, a write, or an error.
pub data Change (A : Type 0) : Type 0 where
  keep : A → Change A
  replace : List Entry → A → Change A
  refuse : RegistryError → Change A

module _ (p : Paths) where
  unfoldable pub validate_from : List String → List Entry → Result Unit
  unfolding validate_unseen
  validate_from seen [] = ok tt
  validate_from seen (e ∷ rest) =
      let later = validate_from (e.id ∷ seen) rest in
      elim (validate_unseen p seen e) [ ok u ↦ later | err x ↦ err x ]

  unfoldable pub validate_file_identities : List Entry → Result Unit
  unfolding validate_from
  validate_file_identities entries = validate_from [] entries

  unfoldable pub load_valid : List Entry → Result Unit → Result (List Entry)
  unfolding sort_entries
  load_valid entries (ok u) = ok (sort_entries entries)
  load_valid entries (err x) = err corrupt

  unfoldable pub load_unlocked : Disk → Result (List Entry)
  unfolding load_valid validate_file_identities
  load_unlocked absent = ok []
  load_unlocked unreadable = err read_failed
  load_unlocked malformed = err corrupt
  load_unlocked (file version entries) =
      if eqb version 0 || eqb version 1
      then load_valid entries (validate_file_identities entries)
      else err (unsupported_schema version)

  unfoldable pub save_valid : Saving → List Entry → Disk → Result Unit → Disk × Result Unit
  unfolding finish_save
  save_valid w entries disk (ok u) = finish_save w entries disk
  save_valid w entries disk (err x) = (disk, err x)

  unfoldable pub save_unlocked : Saving → List Entry → Disk → Disk × Result Unit
  unfolding save_valid validate_file_identities
  save_unlocked w entries disk = save_valid w entries disk (validate_file_identities entries)

  module _ {A : Type 0} where
    unfoldable pub answer : A → Disk × Result Unit → Disk × Result A
    answer a (disk, ok u) = (disk, ok a)
    answer a (disk, err x) = (disk, err x)

    unfoldable pub apply_change : Saving → Disk → Change A → Disk × Result A
    unfolding answer save_unlocked
    apply_change w disk (keep a) = (disk, ok a)
    apply_change w disk (replace entries a) = answer a (save_unlocked w entries disk)
    apply_change w disk (refuse x) = (disk, err x)

    unfoldable pub after_load :
        Saving → Disk → (List Entry → Change A) → Result (List Entry) → Disk × Result A
    unfolding apply_change
    after_load w disk change (ok entries) = apply_change w disk (change entries)
    after_load w disk change (err x) = (disk, err x)

    -- One operation under the lock.
    unfoldable pub with_lock : Io → (List Entry → Change A) → Disk → Disk × Result A
    unfolding after_load load_unlocked
    with_lock io change disk =
        if io.locks
        then after_load io.write disk change (load_unlocked disk)
        else (disk, err lock_failed)

  unfoldable pub save : Io → List Entry → Disk → Disk × Result Unit
  unfolding save_unlocked
  save io entries disk =
      if io.locks then save_unlocked io.write entries disk else (disk, err lock_failed)

  unfoldable pub load : Bool → Disk → Result (List Entry)
  unfolding load_unlocked
  load locks disk = if locks then load_unlocked disk else err lock_failed
