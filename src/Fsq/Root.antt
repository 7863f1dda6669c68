-- ===== src/Fsq/Root.antt =====
-- delivery_root.go: the operations of a `DeliveryRoot`, each a sequence of system calls.
pub mod Write
pub mod Atomic
use agent_message_queue.Base.{String, ◌<>◌, Bool, true, false, Option, none, some, if◌then◌else◌}
use agent_message_queue.Fsq.Store.{Dir, FilePath, join, dir_of, Bytes, Node, Root}
use agent_message_queue.Fsq.Errors.{Error, wrapped, root_changed, committed, is_not_exist, or_else}
use agent_message_queue.Fsq.Monad.{
  Result, ok, err, M, pure, fail, ◌>>=◌, ◌>>◌, cases, on_error, ignore, error_of,
}
use agent_message_queue.Fsq.Syscall.{
  tick, mkdir_all, sync_dir, stat, open_exclusive, write_file, remove, rename, read_all,
  unique_token,
}

-- `VerifyBase` of an open root: a pinned batch, whose lease is active, does not look at the base again; otherwise a stat that fails, or that
-- finds another directory, is `ErrDeliveryRootChanged`.
unfoldable pub verify_base : M (Unit {0})
verify_base r = if r.pinned then (ok tt, r) else cases tick pure (λ e. fail (root_changed e)) r

-- The deferred close, and the removal of the file after any error.
settle : FilePath → Option Error → M (Unit {0})
settle p none = pure tt
settle p (some e) = do ignore (remove p); fail e

close_file : FilePath → Option Error → M (Unit {0})
unfolding settle
close_file p written = do closed ← error_of tick; settle p (or_else written closed)

unfoldable pub write_and_sync : FilePath → Bytes → M (Unit {0})
unfolding close_file
write_and_sync p data' = do
  open_exclusive p
  written ← error_of (do write_file p data'; tick)
  close_file p written

after_cleanup : Error → Error → M (Unit {0})
after_cleanup primary e = if is_not_exist e then fail primary else fail (wrapped "cleanup" primary)

-- `cleanupTemp` with an error to report: it removes the file, and always fails.
unfoldable pub cleanup_temp : FilePath → Error → M (Unit {0})
unfolding after_cleanup
cleanup_temp p primary = cases (remove p) (λ _. fail primary) (after_cleanup primary)

-- `OpenRegularNoFollow` and `ReadAll`.
unfoldable pub read_regular_no_follow : FilePath → M Bytes
read_regular_no_follow p = do verify_base; before ← stat p; tick; after ← stat p; read_all after

-- `WriteFileAtomic`: the temporary file lies in the directory of the final one.
unfoldable pub write_file_atomic : Dir → String → Bytes → M FilePath
write_file_atomic d name data' = do
  verify_base
  mkdir_all d
  token ← unique_token
  let tmp = join d ("." <> name <> ".tmp-" <> token)
  let final = join d name
  write_and_sync tmp data'
  on_error (sync_dir d) (cleanup_temp tmp)
  on_error (rename tmp final) (cleanup_temp tmp)
  on_error (sync_dir d) (λ e. fail (committed final "" e))
  pure final
