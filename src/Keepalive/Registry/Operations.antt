-- ===== src/Keepalive/Registry/Operations.antt =====
-- The operations on the registry (internal/keepalive/registry/store.go): for each, the change it makes to
-- the loaded entries, and the transaction.
use Prim.Native.Nat.{ℕ}
use agent_message_queue.Base.{
  String, ◌+◌, Option, none, some, Bool, true, false, not, ◌&&◌, ◌||◌, List, [], ◌∷◌, ◌++◌,
  contains, string_eq, ◌==◌, ◌!=◌, if◌then◌else◌,
}
use agent_message_queue.Keepalive.Registry.{
  Entry, entry_eq, Paths, root_unresolved, agent_required, adapter_required, target_required,
  invalid_identity, target_owned, registration_owned, not_found, Result, ok, err, canonical_root,
  entry_id, same_root_agent, same_target, same_registration, same_entry_identity,
  validate_entry_identity,
}
use agent_message_queue.Keepalive.Registry.Store.{Change, keep, replace, refuse}

unfoldable pub has_id : String → List Entry → Bool
has_id id [] = false
has_id id (e ∷ rest) = e.id == id || has_id id rest

unfoldable pub find_id : String → List Entry → Option Entry
find_id id [] = none
find_id id (e ∷ rest) = if e.id == id then some e else find_id id rest

-- Write an entry over the row with an id.
unfoldable pub replace_id : String → Entry → List Entry → List Entry
replace_id id e [] = []
replace_id id e (f ∷ rest) =
    let later = f ∷ replace_id id e rest in if f.id == id then e ∷ rest else later

unfoldable pub put : Entry → List Entry → List Entry
unfolding has_id replace_id
put e entries = if has_id e.id entries then replace_id e.id e entries else entries ++ e ∷ []

-- Cut out the row with an id.
unfoldable pub remove_id : String → List Entry → List Entry
remove_id id [] = []
remove_id id (e ∷ rest) = let later = e ∷ remove_id id rest in if e.id == id then rest else later

unfoldable pub without_ids : List String → List Entry → List Entry
without_ids ids [] = []
without_ids ids (e ∷ rest) =
    let later = without_ids ids rest in if contains ids e.id then later else e ∷ later

unfoldable pub count_ids : List String → List Entry → ℕ
count_ids ids [] = 0
count_ids ids (e ∷ rest) = (if contains ids e.id then 1 else 0) + count_ids ids rest

-- The requested ids as a set, the empty one left out.
unfoldable pub wanted_ids : List String → List String
wanted_ids [] = []
wanted_ids (id ∷ rest) =
    let later = wanted_ids rest in if id == "" || contains later id then later else id ∷ later

module _ (p : Paths) where
  unfoldable pub conflicting_target_owner : Bool → Entry → List Entry → Option Entry
  unfolding same_root_agent same_target
  conflicting_target_owner ignore candidate [] = none
  conflicting_target_owner ignore candidate (f ∷ rest) =
      if f.id == candidate.id
        || ((ignore && same_root_agent p f candidate) || not (same_target p f candidate))
      then conflicting_target_owner ignore candidate rest
      else some f

  unfoldable pub conflicting_registration_owner : Entry → List Entry → Option Entry
  unfolding same_root_agent
  conflicting_registration_owner candidate [] = none
  conflicting_registration_owner candidate (f ∷ rest) =
      if f.id == candidate.id || not (same_root_agent p f candidate)
      then conflicting_registration_owner candidate rest
      else some f

  unfoldable pub with_identity : ℕ → Entry → Option String → Result Entry
  unfolding entry_id
  with_identity now e none = err root_unresolved
  with_identity now e (some root) =
      if e.agent == ""
      then err agent_required
      else if e.adapter == ""
      then err adapter_required
      else if e.target == ""
      then err target_required
      else if e.id != "" && e.id != entry_id p root e.agent e.adapter e.target
      then err (invalid_identity e.id)
      else ok (record e {
        root = root;
        id = entry_id p root e.agent e.adapter e.target;
        state = if e.state == "" then "attached" else e.state;
        last_attach = elim e.last_attach [ none ↦ some now | some t ↦ some t ];
      })

  unfoldable pub prepare_entry : ℕ → Entry → Result Entry
  unfolding with_identity canonical_root
  prepare_entry now e = with_identity now e (canonical_root p e.root)

  unfoldable pub upsert_unowned : Entry → List Entry → Option Entry → Change Entry
  unfolding put
  upsert_unowned e entries none = replace (put e entries) e
  upsert_unowned e entries (some owner) = refuse (target_owned owner)

  unfoldable pub upsert_owned : Entry → List Entry → Option Entry → Change Entry
  unfolding upsert_unowned conflicting_target_owner same_registration replace_id
  upsert_owned e entries none = upsert_unowned e entries (conflicting_target_owner false e entries)
  upsert_owned e entries (some owner) =
      if same_registration p owner e
      then replace (replace_id owner.id e entries) e
      else refuse (registration_owned owner)

  unfoldable pub upsert_change : Entry → List Entry → Change Entry
  unfolding upsert_owned conflicting_registration_owner
  upsert_change e entries = upsert_owned e entries (conflicting_registration_owner e entries)

  unfoldable pub of_session : Entry → List Entry → List Entry
  unfolding same_root_agent
  of_session e [] = []
  of_session e (f ∷ rest) =
      let later = of_session e rest in if same_root_agent p f e then f ∷ later else later

  unfoldable pub of_others : Entry → List Entry → List Entry
  unfolding same_root_agent
  of_others e [] = []
  of_others e (f ∷ rest) =
      let later = of_others e rest in if same_root_agent p f e then later else f ∷ later

  unfoldable pub replace_session : Entry → List Entry → Option Entry → Change (Entry × List Entry)
  unfolding of_session of_others
  replace_session e entries (some owner) = refuse (target_owned owner)
  replace_session e entries none = replace (of_others e entries ++ e ∷ []) (e, of_session e entries)

  unfoldable pub replace_change : Entry → List Entry → Change (Entry × List Entry)
  unfolding replace_session conflicting_target_owner
  replace_change e entries = replace_session e entries (conflicting_target_owner true e entries)

  -- No other row of the session, and the reservation's own row as expected.
  unfoldable pub is_undisturbed : Entry → List Entry → Bool
  unfolding same_root_agent
  is_undisturbed expected [] = true
  is_undisturbed expected (f ∷ rest) =
      (if f.id == expected.id then f == expected else not (same_root_agent p f expected))
      && is_undisturbed expected rest

  unfoldable pub restore_change : Entry → List Entry → List Entry → Change Bool
  unfolding is_undisturbed has_id remove_id
  restore_change expected previous entries =
      if is_undisturbed expected entries && has_id expected.id entries
      then replace (remove_id expected.id entries ++ previous) true
      else keep false

  unfoldable pub check_change : Bool → Entry → List Entry → Change Unit
  unfolding conflicting_target_owner
  check_change ignore e entries = elim (conflicting_target_owner ignore e entries) [
    | none ↦ keep tt
    | some owner ↦ refuse (target_owned owner)
  ]

  unfoldable pub update_row : Entry → List Entry → Entry → Result Unit → Change Unit
  unfolding replace_id same_entry_identity
  update_row e entries row (err x) = refuse x
  update_row e entries row (ok u) =
      if same_entry_identity row e
      then replace (replace_id e.id e entries) tt
      else refuse (invalid_identity e.id)

  unfoldable pub update_found : Entry → List Entry → Option Entry → Change Unit
  unfolding update_row validate_entry_identity
  update_found e entries none = refuse (not_found e.id)
  update_found e entries (some row) = update_row e entries row (validate_entry_identity p e)

  unfoldable pub update_change : Entry → List Entry → Change Unit
  unfolding update_found find_id
  update_change e entries = update_found e entries (find_id e.id entries)
