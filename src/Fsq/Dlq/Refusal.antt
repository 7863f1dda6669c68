-- ===== src/Fsq/Dlq/Refusal.antt =====
-- dlq.go: retries that are refused, from the search for the envelope to the end.
pub mod Spent
pub mod Stale
use agent_message_queue.Base.{
  ◌≤◌, String, arith, ◌⊎◌, ◌∙◌, ap, inl, inr, Bool, true, false, none, some, Option, string_eq,
  ◌==◌, ◌||◌, not, ◌&&◌, leb, if◌then◌else◌,
}
use agent_message_queue.Base.Dict.{lookup}
use agent_message_queue.Fsq.Store.{
  FilePath, Files, Bytes, Root, Node, regular, irregular, join, path_eq,
}
use agent_message_queue.Fsq.Errors.{Error, is_not_exist}
use agent_message_queue.Fsq.Monad.{lift, pure, on_error, ◌>>=◌, ◌>>◌}
use agent_message_queue.Fsq.Monad.Triple.{
  Post, post, Triple, Triple-then, Triple-cases, Triple-if, Triple-pure, Triple-fail, Triple-quiet,
  Triple-keeps, Triple-on_error, Quiet, files-lift,
}
use agent_message_queue.Fsq.Syscall.{tick, stat, remove, sync_dir}
use agent_message_queue.Fsq.Syscall.Effect.{files-stat, remove_except}
use agent_message_queue.Fsq.Names.{validate_message_filename}
use agent_message_queue.Fsq.Root.{verify_base, read_regular_no_follow}
use agent_message_queue.Fsq.Delivery.Publish.{read_post}
use agent_message_queue.Fsq.Claim.{Box, box_new, box_cur}
use agent_message_queue.Fsq.Dlq.{
  Envelope, max_retries, state_pending, state_delivered, state_indeterminate,
}
use agent_message_queue.Fsq.Dlq.Format.{Codec, parse}
use agent_message_queue.Fsq.Dlq.Moves.{
  root_stat, when_missing, dlq_new_dir, settle_move, drop_stale, reconcile,
}
use agent_message_queue.Fsq.Dlq.Retry.{original_box, finish_earlier, fresh_retry, parsed}
use agent_message_queue.Fsq.Dlq.Refusal.Spent.{files-root_stat}
use agent_message_queue.Fsq.Dlq.Refusal.Stale.{OnlyStale}

module _ (codec : Codec) (force : Bool) (agent filename : String) (path : FilePath) (box : Box)
    (env : Envelope) (content : Bytes) where
  abbrev RefusedStale : Files → Post (Unit {0})
  RefusedStale fs = post (λ _ gs. ⊥) (λ gs. OnlyStale agent filename box fs gs)
