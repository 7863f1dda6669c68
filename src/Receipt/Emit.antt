-- ===== src/Receipt/Emit.antt =====
-- A receipt that is emitted is read back.
use agent_message_queue.Base.{arith, ◌≡◌, ◌∙◌, ap, refl, some, []}
use agent_message_queue.Base.Dict.{lookup}
use agent_message_queue.Fsq.Store.{Root, FilePath, Files, Bytes, regular, join, path_eq}
use agent_message_queue.Fsq.Monad.{Result, ok, err, cases}
use agent_message_queue.Fsq.Monad.Triple.{
  post, Triple, Triple-bind, Triple-pure, Triple-fail, Triple-on_error,
}
use agent_message_queue.Fsq.Syscall.{tick, next_fault, stat, read_all}
use agent_message_queue.Fsq.Root.{verify_base, write_file_atomic, read_regular_no_follow}
use agent_message_queue.Fsq.Root.Atomic.{Whole, Written, write-Triple}
use agent_message_queue.Receipt.{
  Receipt, Json, receipts_dir, filename, decoded, marshal, parse_receipt, emit_delivery_root,
  read_delivery_root,
}

-- The file of a receipt.
abbrev pub receipt_path : Receipt → FilePath
receipt_path c = join (receipts_dir c.consumer) (filename c)

module _ (json : Json) (c : Receipt) (fs : Files) where
  Emitted : Files → Type 0
  Emitted gs = Written (receipt_path c) (marshal json c) fs gs

  Torn : Files → Type 0
  Torn gs = Whole (receipts_dir c.consumer) (filename c) (marshal json c) fs gs

  emit-Triple : Triple (λ gs. gs ≡ fs) (emit_delivery_root json c) (post (λ _. Emitted) Torn)
  unfolding emit_delivery_root Emitted Torn
  emit-Triple =
      Triple-on_error {R = post (λ _. Emitted) Torn} _ _
        (Triple-bind (write_file_atomic (receipts_dir c.consumer) (filename c) (marshal json c)) _
          (write-Triple (receipts_dir c.consumer) (filename c) (marshal json c) fs)
          (λ p. Triple-pure tt (λ gs h. h.1)) (λ e gs h. h))
        (λ _ gs h. h) (λ e. Triple-fail _ (λ gs h. h))

read_there :
    (p : FilePath) (b : Bytes) (r : Root)
    → r.faults ≡ []
    → lookup p r.files ≡ some (regular b)
    → (read_regular_no_follow p r).0 ≡ ok b
unfolding read_regular_no_follow verify_base stat read_all tick next_fault cases
read_there p b r f h = ground arith

emitted :
    (json : Json) (c : Receipt) (fs gs : Files) (x : Result (Unit {0}))
    → post (λ _. Emitted json c fs) (Torn json c fs) x gs
    → x ≡ ok tt
    → lookup (receipt_path c) gs ≡ some (regular (marshal json c))
unfolding Emitted
emitted json c fs gs (ok _) h e = h.0
emitted json c fs gs (err _) h e = cc e

-- A receipt whose emission reports success is read back, by a read without faults from the files that the
-- emission has left, where its JSON round-trips.
pub read_delivery_root-emit_delivery_root :
    (json : Json) (c : Receipt) (r later : Root)
    → json.decode (marshal json c) ≡ some c
    → (emit_delivery_root json c r).0 ≡ ok tt
    → later.files ≡ (emit_delivery_root json c r).1.files
    → later.faults ≡ []
    → (read_delivery_root json (receipt_path c) later).0 ≡ ok c
unfolding read_delivery_root parse_receipt decoded cases
read_delivery_root-emit_delivery_root json c r later j done same f =
    let held =
      emitted json c r.files _ (emit_delivery_root json c r).0
        ((emit-Triple json c r.files).at r refl) done in
    ground (
      arith,
      read_there (receipt_path c) (marshal json c) later f
          (ap (lookup (receipt_path c)) same ∙ held),
      j,
    )
