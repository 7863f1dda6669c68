-- ===== src/Receipt.antt =====
-- internal/receipt/receipt.go: receipts, one file for each message, consumer and stage. The JSON of a
-- receipt is the parameter `Json`; encoding never fails.
pub mod Wait
pub mod Emit
pub mod Listing
pub mod Tests
use agent_message_queue.Base.{
  ℕ, zero, suc, ◌+◌, String, ◌<>◌, Bool, true, false, not, ◌&&◌, ◌||◌, Option, none, some, List, [],
  ◌∷◌, ◌++◌, string_eq, ◌==◌, ◌!=◌, if◌then◌else◌,
}
use agent_message_queue.Base.Text.{has_prefix, has_suffix, contains_text}
use agent_message_queue.Fsq.Store.{Dir, FilePath, Bytes, receipts, join}
use agent_message_queue.Fsq.Errors.{Error, message, wrapped, is_not_exist}
use agent_message_queue.Fsq.Monad.{Result, ok, err, M, pure, fail, lift, ◌>>=◌, ◌>>◌, on_error}
use agent_message_queue.Fsq.Root.{write_file_atomic, read_regular_no_follow}

pub record Receipt : Type 0 where
  pub schema : ℕ
  pub msg_id : String
  pub thread : String
  pub sender : String
  pub consumer : String
  pub stage : String
  pub emitted_at : String
  pub detail : String

-- `json.MarshalIndent` and `json.Unmarshal`.
pub record Json : Type 0 where
  pub encode : Receipt → Bytes
  pub decode : Bytes → Option Receipt

abbrev pub receipts_dir : String → Dir
receipts_dir consumer = record { agent = consumer; leaf = receipts }

-- The name that a receipt is found by.
unfoldable pub receipt_name : String → String → String → String
receipt_name msg_id consumer stage = msg_id <> ("__" <> (consumer <> ("__" <> (stage <> ".json"))))

unfoldable pub filename : Receipt → String
filename r = receipt_name r.msg_id r.consumer r.stage

-- What a poll sees of the file: its receipt or an error of the decoding, or the error of the read.
unfoldable pub decoded : Option Receipt → Result Receipt
decoded none = err (message "receipt")
decoded (some r) = ok r

module _ (json : Json) where
  -- `Receipt.Marshal`.
  unfoldable pub marshal : Receipt → Bytes
  marshal r = json.encode r ++ 10 ∷ []

  -- `parseReceipt`.
  unfoldable pub parse_receipt : Bytes → Result Receipt
  parse_receipt data' = decoded (json.decode data')

  -- `EmitDeliveryRoot`.
  unfoldable pub emit_delivery_root : Receipt → M (Unit {0})
  emit_delivery_root r =
      on_error (write_file_atomic (receipts_dir r.consumer) (filename r) (marshal r) >> pure tt)
        (λ e. fail (wrapped "receipt write" e))

  -- `ReadDeliveryRoot`.
  unfoldable pub read_delivery_root : FilePath → M Receipt
  read_delivery_root path = do data' ← read_regular_no_follow path; lift (parse_receipt data')

  -- The loop of `WaitForDeliveryRoot`, from its `n`th round on. `reads n` is what the read of that round
  -- gives, and `late n` whether there is a deadline and the clock is past it after that read. A round that
  -- is not reached within the fuel gives none.
  wait_from : (ℕ → Result Bytes) → (ℕ → Bool) → ℕ → ℕ → Option (Result Receipt)
  wait_from reads late zero n = none
  wait_from reads late (suc fuel) n =
      let later = wait_from reads late fuel (n + 1) in
      elim (reads n) [
        | ok data' ↦ some (parse_receipt data')
        | err e ↦
            if not (is_not_exist e)
            then some (err e)
            else if late n
            then some (err (message "deadline exceeded"))
            else later
      ]

  -- `WaitForDeliveryRoot`.
  unfoldable pub wait_for : (ℕ → Result Bytes) → (ℕ → Bool) → ℕ → Option (Result Receipt)
  unfolding wait_from
  wait_for reads late fuel = wait_from reads late fuel 0

-- `ListFilter`; an empty field filters nothing.
pub record ListFilter : Type 0 where
  pub msg_id : String
  pub consumer : String
  pub stage : String

-- A directory entry, with what `Read` gives of it.
pub record Entry : Type 0 where
  pub name : String
  pub is_dir : Bool
  pub content : Option Receipt

-- The filter by the parts of a file's name.
unfoldable pub may_match : ListFilter → String → Bool
may_match f name =
    if f.msg_id != "" && not (has_prefix name (f.msg_id <> "__"))
    then false
    else if f.stage != "" && not (has_suffix name ("__" <> (f.stage <> ".json")))
    then false
    else if f.consumer != "" && not (contains_text name ("__" <> (f.consumer <> "__")))
    then false
    else true

with_content : Option Receipt → List Receipt → List Receipt
with_content none rs = rs
with_content (some r) rs = r ∷ rs

-- The loop of `List`, before the receipts are sorted.
unfoldable pub list_entries : ListFilter → List Entry → List Receipt
unfolding with_content
list_entries f [] = []
list_entries f (e ∷ rest) =
    let later = list_entries f rest in
    if e.is_dir || not (has_suffix e.name ".json")
    then later
    else if may_match f e.name
    then with_content e.content later
    else later
