-- ===== src/Fsq/Errors.antt =====
-- The errors of internal/fsq: error numbers, messages, wrapped errors, and the typed errors of
-- commit_error.go, maildir.go and claim_rename.go.
use agent_message_queue.Base.{String, Bool, true, false, ◌||◌, Option, none, some, List}
use agent_message_queue.Fsq.Store.{FilePath, Errno, enoent, eexist, exdev, eio}

pub data Error : Type 0 where
  errno : Errno → Error
  message : String → Error
  -- `fmt.Errorf` with a `%w`.
  wrapped : String → Error → Error
  -- `ErrDeliveryRootChanged`, with what the stat of the base said.
  root_changed : Error → Error
  -- `CommittedDurabilityError`.
  committed : FilePath → String → Error → Error
  -- `PartialDeliveryError`: the delivered recipients with their paths, the failed one, the pending ones.
  partial : List (String × FilePath) → String → List String → Error → Error
  -- `DLQTransitionError` with `SourceRetained`: the envelope and the source.
  transition : FilePath → FilePath → Error → Error
  -- `ClaimCollisionError`.
  claim_collision : FilePath → FilePath → Error
  -- `claimCommittedResidueError`.
  claim_residue : Error → Error
  joined : Error → Error → Error

abbrev same_errno : Errno → Errno → Bool
same_errno enoent enoent = true
same_errno eexist eexist = true
same_errno exdev exdev = true
same_errno eio eio = true
same_errno _ _ = false

-- `errors.Is(err, e)`, through every `Unwrap`.
pub is : Errno → Error → Bool
is e (errno d) = same_errno d e
is e (message m) = false
is e (wrapped m err) = is e err
is e (root_changed err) = is e err
is e (committed p a err) = is e err
is e (partial d f ps err) = is e err
is e (transition p q err) = is e err
is e (claim_collision p q) = false
is e (claim_residue err) = is e err
is e (joined err err') = is e err || is e err'

-- `os.IsNotExist(err)`, which looks through no wrapper.
abbrev pub is_not_exist : Error → Bool
is_not_exist (errno enoent) = true
is_not_exist _ = false

abbrev pub or_else {ℓ} : {A : Type ℓ} → Option A → Option A → Option A
or_else (some a) o = some a
or_else none o = o

-- `errors.As(err, &committed)`: the final path and the recipient.
unfoldable pub as_committed : Error → Option (FilePath × String)
as_committed (errno d) = none
as_committed (message m) = none
as_committed (wrapped m err) = as_committed err
as_committed (root_changed err) = as_committed err
as_committed (committed p a err) = some (p, a)
as_committed (partial d f ps err) = as_committed err
as_committed (transition p q err) = as_committed err
as_committed (claim_collision p q) = none
as_committed (claim_residue err) = as_committed err
as_committed (joined err err') = or_else (as_committed err) (as_committed err')

-- `errors.As(err, &partialTransition)`.
unfoldable pub is_transition : Error → Bool
is_transition (errno d) = false
is_transition (message m) = false
is_transition (wrapped m err) = is_transition err
is_transition (root_changed err) = is_transition err
is_transition (committed p a err) = is_transition err
is_transition (partial d f ps err) = is_transition err
is_transition (transition p q err) = true
is_transition (claim_collision p q) = false
is_transition (claim_residue err) = is_transition err
is_transition (joined err err') = is_transition err || is_transition err'

-- `errors.As(err, &residue)`: the error inside.
unfoldable pub as_residue : Error → Option Error
as_residue (errno d) = none
as_residue (message m) = none
as_residue (wrapped m err) = as_residue err
as_residue (root_changed err) = as_residue err
as_residue (committed p a err) = as_residue err
as_residue (partial d f ps err) = as_residue err
as_residue (transition p q err) = as_residue err
as_residue (claim_collision p q) = none
as_residue (claim_residue err) = some err
as_residue (joined err err') = or_else (as_residue err) (as_residue err')

-- `errors.Join` onto an error that may be nil.
abbrev pub join_error : Option Error → Error → Option Error
join_error none err = some err
join_error (some prev) err = some (joined prev err)
