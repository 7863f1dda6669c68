-- ===== src/Fsq/Syscall/Effect.antt =====
-- What each system call does to the files.
use agent_message_queue.Base.{arith, ◌≡◌, ◌≢◌, take, refl, Option, none, some, []}
use agent_message_queue.Base.Dict.{lookup, insert, erase, lookup-insert, lookup-erase}
use agent_message_queue.Fsq.Store.{
  Root, Dir, FilePath, Files, Bytes, Node, regular, path_eq, dir_of,
}
use agent_message_queue.Fsq.Monad.{cases}
use agent_message_queue.Fsq.Monad.Triple.{post, Triple, Triple-then, Triple-from}
use agent_message_queue.Fsq.Syscall.{
  tick, next_fault, check_dir, sync_dir, mkdir_all, stat, read_all, unique_token, open_exclusive,
  write_file, remove, rename_no_replace, link, rename, replace,
}

pub files-tick : (r : Root) → (tick r).1.files ≡ r.files
unfolding tick
files-tick r = ground arith

files-check_dir : (d : Dir) (r : Root) → (check_dir d r).1.files ≡ r.files
unfolding check_dir
files-check_dir d r = ground arith

pub files-sync_dir : (d : Dir) (r : Root) → (sync_dir d r).1.files ≡ r.files
unfolding sync_dir cases tick
files-sync_dir d r = ground arith

pub files-mkdir_all : (d : Dir) (r : Root) → (mkdir_all d r).1.files ≡ r.files
unfolding mkdir_all cases tick
files-mkdir_all d r = ground arith

pub files-stat : (p : FilePath) (r : Root) → (stat p r).1.files ≡ r.files
unfolding stat cases tick
files-stat p r = ground arith

pub files-read_all : (n : Node) (r : Root) → (read_all n r).1.files ≡ r.files
unfolding read_all cases tick
files-read_all n r = ground arith

pub files-unique_token : (r : Root) → (unique_token r).1.files ≡ r.files
unfolding unique_token cases tick
files-unique_token r = ground arith

pub open_exclusive_files :
    (p : FilePath) (r : Root)
    → post
        (λ _ fs. (lookup p r.files ≡ none) × (fs ≡ insert p (regular []) r.files))
        (λ fs. fs ≡ r.files)
        (open_exclusive p r).0
        (open_exclusive p r).1.files
unfolding open_exclusive cases tick
open_exclusive_files p r = ground arith

pub remove_files :
    (p : FilePath) (r : Root)
    → post (λ _ fs. fs ≡ erase p r.files) (λ fs. fs ≡ r.files) (remove p r).0 (remove p r).1.files
unfolding remove cases tick
remove_files p r = ground arith

-- What a failing write would leave.
abbrev written_part : Bytes → Root → Bytes
written_part b r = elim (next_fault r.faults).0 [ none ↦ [] | some f ↦ take f.written b ]

pub write_file_except :
    (p q : FilePath) (b : Bytes) (r : Root)
    → q ≢ p
    → lookup q (write_file p b r).1.files ≡ lookup q r.files
unfolding write_file
write_file_except p q b r ne = ground (
  arith,
  lookup-insert q p (regular b) r.files,
  lookup-insert q p (regular (written_part b r)) r.files,
)

pub write_file_stored :
    (p : FilePath) (b : Bytes) (r : Root)
    → post
        (λ _ fs. lookup p fs ≡ some (regular b))
        (λ _. Unit)
        (write_file p b r).0
        (write_file p b r).1.files
unfolding write_file
write_file_stored p b r = ground (arith, lookup-insert p p (regular b) r.files)

abbrev pub Moved : FilePath → FilePath → Files → Files → Type 0
Moved p q fs fs' =
    (n : Node) × (lookup p fs ≡ some n) × (lookup q fs ≡ none) × (fs' ≡ insert q n (erase p fs))

link_files :
    (p q : FilePath) (o d : Option Node) (r : Root)
    → lookup p r.files ≡ o
    → lookup q r.files ≡ d
    → post (λ _. Moved p q r.files) (λ fs. fs ≡ r.files) (link p q o d r).0 (link p q o d r).1.files
unfolding link
link_files p q none d r e e' = refl
link_files p q (some n) none r e e' = (n, e, e', refl)
link_files p q (some n) (some n') r e e' = refl

pub rename_no_replace-Triple :
    (p q : FilePath) (fs : Files)
    → Triple (λ gs. gs ≡ fs) (rename_no_replace p q) (post (λ _. Moved p q fs) (λ gs. gs ≡ fs))
unfolding rename_no_replace
rename_no_replace-Triple p q fs =
    Triple-then tick _ files-tick
      (λ _.
        Triple-then (check_dir (dir_of p)) _ (files-check_dir (dir_of p))
          (λ _.
            Triple-then tick _ files-tick
              (λ _.
                Triple-then (check_dir (dir_of q)) _ (files-check_dir (dir_of q))
                  (λ _.
                    Triple-then tick _ files-tick
                      (λ _.
                        Triple-from (λ gs. post (λ _. Moved p q gs) (λ hs. hs ≡ gs)) _
                          (λ r. link_files p q (lookup p r.files) (lookup q r.files) r refl refl)
                          fs)
                      (λ e gs h. h))
                  (λ e gs h. h))
              (λ e gs h. h))
          (λ e gs h. h))
      (λ e gs h. h)

pub remove_except :
    (p q : FilePath) (r : Root) → q ≢ p → lookup q (remove p r).1.files ≡ lookup q r.files
unfolding remove cases tick
remove_except p q r ne = ground (arith, lookup-erase q p r.files)

-- A rename that replaces its destination.
abbrev pub Replaced : FilePath → FilePath → Files → Files → Type 0
Replaced p q fs gs = (n : Node) × (lookup p fs ≡ some n) × (gs ≡ insert q n (erase p fs))

replace_files :
    (p q : FilePath) (o : Option Node) (r : Root)
    → lookup p r.files ≡ o
    → post
        (λ _. Replaced p q r.files)
        (λ gs. gs ≡ r.files)
        (replace p q o r).0
        (replace p q o r).1.files
unfolding replace
replace_files p q none r e = refl
replace_files p q (some n) r e = (n, e, refl)

pub rename-Triple :
    (p q : FilePath) (fs : Files)
    → Triple (λ gs. gs ≡ fs) (rename p q) (post (λ _. Replaced p q fs) (λ gs. gs ≡ fs))
unfolding rename
rename-Triple p q fs =
    Triple-then tick _ files-tick
      (λ _.
        Triple-then (check_dir (dir_of q)) _ (files-check_dir (dir_of q))
          (λ _.
            Triple-from (λ gs. post (λ _. Replaced p q gs) (λ hs. hs ≡ gs)) _
              (λ r. replace_files p q (lookup p r.files) r refl) fs)
          (λ e gs h. h))
      (λ e gs h. h)
