-- ===== src/Keepalive/Registry.antt =====
-- What the registry stores and how it compares entries (internal/keepalive/registry/store.go). The path
-- functions of the platform and SHA-256 are the fields of `Paths`; a comparison of paths made during one
-- operation is taken to see one file system. A `time.Time` is an `Option` with `none` for the zero time.
pub mod Store
pub mod Operations
pub mod Batch
pub mod Transactions
pub mod Rows
pub mod Ownership
pub mod Exclusive
pub mod Kept
pub mod Transact
pub mod Answers
pub mod Reached
pub mod Updates
pub mod Rollback
use Prim.Native.Nat.{ℕ}
use native.Mathlib.Decide.{ℕ_discrete}
use agent_message_queue.Base.{
  String, ◌<>◌, Option, none, some, Bool, true, false, not, ◌&&◌, ◌||◌, List, [], ◌∷◌, Eq, ◌==◌,
  ◌!=◌, String-discrete, string_eq, codes_eq, contains, if◌then◌else◌,
}
use agent_message_queue.Base.Text.{codes, trim_space, to_lower}

pub record Entry : Type 0 where
  pub id : String
  pub root : String
  pub base_root : String
  pub session_name : String
  pub agent : String
  pub adapter : String
  pub target : String
  pub ownership_key : String
  pub state : String
  pub last_attach : Option ℕ
  pub last_seen_by_supervisor : Option ℕ
  pub failure_count : ℕ
  pub backoff_until : Option ℕ
  pub next_health_check : Option ℕ
  pub detached_since : Option ℕ
  pub last_error : String
  pub last_supervisor_decision : String

pub Entry-discrete : Discrete Entry
Entry-discrete = hlevel (String-discrete, ℕ_discrete)

instance unfoldable pub entry_eq : Eq Entry
unfolding Entry-discrete
entry_eq = record { dec = Entry-discrete }

-- The answer of filepath.EvalSymlinks: `uncertain` for an error that forbids the lexical spelling.
pub data Resolution : Type 0 where
  resolved : String → Resolution
  uncertain : Resolution
  unresolved : Resolution

pub record Paths : Type 0 where
  pub clean : String → String
  pub abs : String → Option String
  pub eval_symlinks : String → Resolution
  pub dir : String → String
  pub base : String → String
  pub join : String → String → String
  pub sha256_hex : String → String

pub data RegistryError : Type 0 where
  lock_failed : RegistryError
  read_failed : RegistryError
  corrupt : RegistryError
  unsupported_schema : ℕ → RegistryError
  write_failed : RegistryError
  committed_durability : RegistryError
  root_unresolved : RegistryError
  agent_required : RegistryError
  adapter_required : RegistryError
  target_required : RegistryError
  id_required : RegistryError
  invalid_identity : String → RegistryError
  target_owned : Entry → RegistryError
  registration_owned : Entry → RegistryError
  not_found : String → RegistryError
  batch_id_changed : RegistryError
  batch_duplicate : String → RegistryError
  removal_incomplete : RegistryError

pub data Result (A : Type 0) : Type 0 where
  ok : A → Result A
  err : RegistryError → Result A

module _ (p : Paths) where
  unfoldable pub resolve_root : String → Resolution → Option String
  resolve_root abs (resolved real) = some real
  resolve_root abs uncertain = none
  resolve_root abs unresolved = some abs

  unfoldable pub absolute_root : Option String → Option String
  unfolding resolve_root
  absolute_root none = none
  absolute_root (some abs) = resolve_root abs (p.eval_symlinks abs)

  -- `CanonicalRoot`, with none for an error.
  unfoldable pub canonical_root : String → Option String
  unfolding absolute_root
  canonical_root root = if trim_space root == "" then none else absolute_root (p.abs (p.clean root))

  unfoldable pub root_or : String → Option String → String
  root_or root none = p.clean root
  root_or root (some canonical) = canonical

  unfoldable pub entry_id : String → String → String → String → String
  unfolding root_or canonical_root
  entry_id root agent adapter target = p.sha256_hex (
      root_or root (canonical_root root)
      <> ("\0" <> (agent <> ("\0" <> (adapter <> ("\0" <> target))))))

  unfoldable pub resolve_parent : String → Resolution → String
  resolve_parent abs (resolved parent) = p.join (p.clean parent) (p.base abs)
  resolve_parent abs uncertain = abs
  resolve_parent abs unresolved = abs

  unfoldable pub resolve_file : String → Resolution → String
  unfolding resolve_parent
  resolve_file abs (resolved real) = p.clean real
  resolve_file abs uncertain = resolve_parent abs (p.eval_symlinks (p.dir abs))
  resolve_file abs unresolved = resolve_parent abs (p.eval_symlinks (p.dir abs))

  unfoldable pub absolute_file : String → Option String → String
  unfolding resolve_file
  absolute_file target none = p.clean target
  absolute_file target (some abs) = resolve_file abs (p.eval_symlinks abs)

  unfoldable pub canonical_stored_file_target : String → String
  unfolding absolute_file
  canonical_stored_file_target target = absolute_file target (p.abs (p.clean target))

  -- The canonical spelling of a target, as its characters.
  unfoldable pub canonical_stored_target : String → String → List ℕ
  unfolding canonical_stored_file_target
  canonical_stored_target adapter target =
      let trimmed = trim_space target in
      if adapter == "cmux" || adapter == "ghostty"
      then to_lower trimmed
      else if adapter == "file"
      then codes (canonical_stored_file_target trimmed)
      else codes trimmed

  unfoldable pub both_equal : Option String → Option String → Bool
  both_equal none r = false
  both_equal (some l) none = false
  both_equal (some l) (some r) = l == r

  unfoldable pub same_root_agent : Entry → Entry → Bool
  unfolding both_equal
  same_root_agent l r =
      l.agent == r.agent && both_equal (canonical_root l.root) (canonical_root r.root)

  unfoldable pub same_target : Entry → Entry → Bool
  same_target l r =
      l.adapter == r.adapter
      && canonical_stored_target l.adapter l.target == canonical_stored_target r.adapter r.target

  unfoldable pub same_registration : Entry → Entry → Bool
  unfolding same_root_agent same_target
  same_registration l r = same_root_agent l r && same_target l r

  unfoldable pub check_id : Entry → Option String → Result Unit
  unfolding entry_id
  check_id e none = err (invalid_identity e.id)
  check_id e (some root) =
      if e.id == entry_id root e.agent e.adapter e.target
      then ok tt
      else err (invalid_identity e.id)

  unfoldable pub validate_entry_identity : Entry → Result Unit
  unfolding check_id canonical_root
  validate_entry_identity e =
      if e.agent == "" || (e.adapter == "" || e.target == "")
      then err (invalid_identity e.id)
      else check_id e (canonical_root e.root)

  unfoldable pub validate_unseen : List String → Entry → Result Unit
  unfolding validate_entry_identity
  validate_unseen seen e = elim (validate_entry_identity e) [
    | ok u ↦ if contains seen e.id then err (invalid_identity e.id) else ok tt
    | err x ↦ err x
  ]

unfoldable pub same_entry_identity : Entry → Entry → Bool
same_entry_identity l r =
    l.id == r.id
    && (l.root == r.root
        && (l.agent == r.agent && (l.adapter == r.adapter && l.target == r.target)))
