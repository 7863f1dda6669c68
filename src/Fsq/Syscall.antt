-- ===== src/Fsq/Syscall.antt =====
-- The calls of the `os` package on a pinned root, as POSIX documents them. Each takes the next entry
-- of the root's faults first; a call that fails by a fault leaves the files alone, except a write,
-- which may have written a part.
pub mod Effect
use agent_message_queue.Base.{
  ℕ, String, Bool, true, false, ◌||◌, Option, none, some, List, [], ◌∷◌, contains, take,
  if◌then◌else◌,
}
use agent_message_queue.Base.Dict.{lookup, insert, erase}
use agent_message_queue.Fsq.Store.{
  Dir, FilePath, dir_of, Bytes, Node, regular, irregular, Errno, enoent, eexist, Fault, Root,
  dir_eq, path_eq,
}
use agent_message_queue.Fsq.Errors.{errno, message}
use agent_message_queue.Fsq.Monad.{Result, ok, err, M, ◌>>=◌, ◌>>◌, cases}

unfoldable pub next_fault : List (Option Fault) → Option Fault × List (Option Fault)
next_fault [] = (none, [])
next_fault (f ∷ rest) = (f, rest)

pop : Root → Root
unfolding next_fault
pop r = record r { faults = (next_fault r.faults).1 }

-- A call that only reports whether it failed.
unfoldable pub tick : M (Unit {0})
unfolding next_fault pop
tick r = elim (next_fault r.faults).0 [
  | none ↦ (ok tt, pop r)
  | some f ↦ (err (errno f.errno), pop r)
]

abbrev pub has_dir : Root → Dir → Bool
has_dir r d = contains r.dirs d

check_dir : Dir → M (Unit {0})
check_dir d r = if has_dir r d then (ok tt, r) else (err (errno enoent), r)

-- `MkdirAll`.
unfoldable pub mkdir_all : Dir → M (Unit {0})
mkdir_all d = do tick; (λ r. (ok tt, record r { dirs = d ∷ r.dirs }))

-- `fsync` of a directory.
unfoldable pub sync_dir : Dir → M (Unit {0})
unfolding check_dir
sync_dir d = do tick; check_dir d

found_or : Option Node → Root → Result Node × Root
found_or none r = (err (errno enoent), r)
found_or (some n) r = (ok n, r)

-- `Stat` and `Lstat` of a path that is not a directory.
unfoldable pub stat : FilePath → M Node
unfolding found_or
stat p = do tick; (λ r. found_or (lookup p r.files) r)

create : FilePath → Option Node → Root → Result (Unit {0}) × Root
create p none r = (ok tt, record r { files = insert p (regular []) r.files })
create p (some n) r = (err (errno eexist), r)

-- `OpenFile` with `O_CREATE|O_EXCL`.
unfoldable pub open_exclusive : FilePath → M (Unit {0})
unfolding check_dir create
open_exclusive p = do tick; check_dir (dir_of p); (λ r. create p (lookup p r.files) r)

put : FilePath → Bytes → Root → Root
put p data' r = record r { files = insert p (regular data') r.files }

-- `Write` to a file that the caller has just created: a fault leaves the bytes written so far.
unfoldable pub write_file : FilePath → Bytes → M (Unit {0})
unfolding next_fault pop put
write_file p data' r = elim (next_fault r.faults).0 [
  | none ↦ (ok tt, put p data' (pop r))
  | some f ↦ (err (errno f.errno), put p (take f.written data') (pop r))
]

unlink : FilePath → Option Node → Root → Result (Unit {0}) × Root
unlink p none r = (err (errno enoent), r)
unlink p (some n) r = (ok tt, record r { files = erase p r.files })

-- `Remove`.
unfoldable pub remove : FilePath → M (Unit {0})
unfolding unlink
remove p = do tick; (λ r. unlink p (lookup p r.files) r)

link : FilePath → FilePath → Option Node → Option Node → Root → Result (Unit {0}) × Root
link p q none dest r = (err (errno enoent), r)
link p q (some n) none r = (ok tt, record r { files = insert q n (erase p r.files) })
link p q (some n) (some n') r = (err (errno eexist), r)

-- `renameNoReplace` (rename_noreplace.go): it opens both directories, then renames in one atomic step.
unfoldable pub rename_no_replace : FilePath → FilePath → M (Unit {0})
unfolding check_dir link
rename_no_replace p q = do
  tick
  check_dir (dir_of p)
  tick
  check_dir (dir_of q)
  tick
  (λ r. link p q (lookup p r.files) (lookup q r.files) r)

replace : FilePath → FilePath → Option Node → Root → Result (Unit {0}) × Root
replace p q none r = (err (errno enoent), r)
replace p q (some n) r = (ok tt, record r { files = insert q n (erase p r.files) })

-- `Rename`, which replaces the destination.
unfoldable pub rename : FilePath → FilePath → M (Unit {0})
unfolding check_dir replace
rename p q = do tick; check_dir (dir_of q); (λ r. replace p q (lookup p r.files) r)

bytes_of : Node → Result Bytes
bytes_of (regular data') = ok data'
bytes_of irregular = err (message "queue artifact must be a regular file")

-- `ReadAll` of an open file.
unfoldable pub read_all : Node → M Bytes
unfolding bytes_of
read_all n = do tick; (λ r. (bytes_of n, r))

next_token : List String → String × List String
next_token [] = ("", [])
next_token (t ∷ rest) = (t, rest)

-- The text that makes a name unique: the time, the process and random bytes, which may fail.
unfoldable pub unique_token : M String
unfolding next_token
unique_token = do
  tick
  (λ r. (ok (next_token r.tokens).0, record r { tokens = (next_token r.tokens).1 }))
