-- ===== src/Receipt/Tests.antt =====
-- Receipts at concrete inputs.
use agent_message_queue.Base.{
  ℕ, zero, suc, ◌≡◌, refl, inl, inr, Bool, true, false, some, [], ◌∷◌, string_eq, codes_eq,
}
use agent_message_queue.Base.Dict.{lookup, insert, erase}
use agent_message_queue.Fsq.Store.{Root, Bytes, path_eq, dir_eq, enoent}
use agent_message_queue.Fsq.Errors.{errno}
use agent_message_queue.Fsq.Monad.{Result, ok, err, cases}
use agent_message_queue.Fsq.Syscall.{
  tick, next_fault, mkdir_all, unique_token, open_exclusive, write_file, sync_dir, rename,
}
use agent_message_queue.Fsq.Root.{verify_base, write_and_sync, write_file_atomic}
use agent_message_queue.Receipt.{
  Receipt, Json, filename, receipt_name, marshal, emit_delivery_root, read_delivery_root, wait_for,
  ListFilter, Entry,
}
use agent_message_queue.Receipt.Wait.{Outcome, wait_for_ends}
use agent_message_queue.Receipt.Emit.{receipt_path, read_delivery_root-emit_delivery_root}
use agent_message_queue.Receipt.Listing.{Asks}

abbrev drained : Receipt
drained = record {
  schema = 1;
  msg_id = "m1";
  thread = "t";
  sender = "alice";
  consumer = "bob";
  stage = "drained";
  emitted_at = "2025-01-01T00:00:00Z";
  detail = "";
}

-- An encoding that knows one receipt.
abbrev one : Json
one = record { encode = λ r. 123 ∷ 125 ∷ []; decode = λ b. some drained }

abbrev some_root : Root
some_root = record { files = []; dirs = []; faults = []; tokens = "1" ∷ []; pinned = true }

abbrev after : Root
after = (emit_delivery_root one drained some_root).1

emits : (emit_delivery_root one drained some_root).0 ≡ ok tt
unfolding emit_delivery_root write_file_atomic verify_base mkdir_all unique_token write_and_sync
    open_exclusive write_file sync_dir rename tick next_fault cases lookup insert erase path_eq
    dir_eq string_eq filename receipt_name marshal
emits = refl

quiet : after.faults ≡ []
unfolding emit_delivery_root write_file_atomic verify_base mkdir_all unique_token write_and_sync
    open_exclusive write_file sync_dir rename tick next_fault cases lookup insert erase path_eq
    dir_eq string_eq filename receipt_name marshal
quiet = refl

read_delivery_root-emit_delivery_root_example :
    (read_delivery_root one (receipt_path drained) after).0 ≡ ok drained
read_delivery_root-emit_delivery_root_example =
    read_delivery_root-emit_delivery_root one drained some_root after refl emits refl quiet

-- The file comes in the third round.
abbrev reads : ℕ → Result Bytes
reads zero = err (errno enoent)
reads (suc zero) = err (errno enoent)
reads (suc (suc n)) = ok (123 ∷ 125 ∷ [])

abbrev late : ℕ → Bool
late zero = false
late (suc zero) = false
late (suc (suc zero)) = false
late (suc (suc (suc n))) = true

wait_for_ends_example :
    (x : Result Receipt) × (wait_for one reads late 4 ≡ some x) × Outcome one reads late 0 x
wait_for_ends_example = wait_for_ends one reads late 3 refl

abbrev by_bob : ListFilter
by_bob = record { msg_id = ""; consumer = "bob"; stage = "" }

abbrev entry : Entry
entry = record { name = filename drained; is_dir = false; content = some drained }

asks : Asks by_bob drained
asks = record { msg_id = inl refl; consumer = inr refl; stage = inl refl }
