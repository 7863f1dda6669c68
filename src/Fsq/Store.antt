-- ===== src/Fsq/Store.antt =====
-- The tree of files under a delivery root: paths (internal/fsq/layout.go), directory entries, and
-- what the operating system decides from outside (faults, and the texts that make names unique).
use agent_message_queue.Base.{ℕ, String, String-discrete, Bool, Option, List, Eq}
use agent_message_queue.Base.Dict.{Dict}

-- `MailboxLeaf`, with the directory of the lock files.
pub data Leaf : Type 0 where
  inbox_tmp inbox_new inbox_cur outbox_sent dlq_tmp dlq_new dlq_cur receipts dlq_locks : Leaf

-- `filepath.Join("agents", agent, leaf)`.
pub record Dir : Type 0 where
  pub agent : String
  pub leaf : Leaf

-- `filepath.Join(dir, name)`.
pub record FilePath : Type 0 where
  pub agent : String
  pub leaf : Leaf
  pub name : String

Dir-discrete : Discrete Dir
Dir-discrete = hlevel String-discrete

instance unfoldable pub dir_eq : Eq Dir
unfolding Dir-discrete
dir_eq = record { dec = Dir-discrete }

FilePath-discrete : Discrete FilePath
FilePath-discrete = hlevel String-discrete

instance unfoldable pub path_eq : Eq FilePath
unfolding FilePath-discrete
path_eq = record { dec = FilePath-discrete }

abbrev pub join : Dir → String → FilePath
join d name = record { agent = d.agent; leaf = d.leaf; name = name }

abbrev pub dir_of : FilePath → Dir
dir_of p = record { agent = p.agent; leaf = p.leaf }

abbrev pub Bytes : Type 0
Bytes = List ℕ

-- A directory entry: a regular file, or anything else (a symbolic link, a directory).
pub data Node : Type 0 where
  regular : Bytes → Node
  irregular : Node

abbrev pub Files : Type 0
Files = Dict FilePath Node

-- The error numbers that the code tells apart; `eio` stands for every other.
pub data Errno : Type 0 where
  enoent eexist exdev eio : Errno

-- A failing call, with the bytes that a failing write has written.
pub record Fault : Type 0 where
  pub errno : Errno
  pub written : ℕ

-- The state of a `DeliveryRoot` and its surroundings. Each system call takes the next entry of
-- `faults`, and succeeds when it is `none` or when no entry is left.
pub record Root : Type 0 where
  pub files : Files
  pub dirs : List Dir
  pub faults : List (Option Fault)
  pub tokens : List String
  pub pinned : Bool
