-- ===== src/Keepalive/Registry/Rows.antt =====
-- The registry as a map from ids to rows: what each change of the list of entries does to it.
use agent_message_queue.Base.{
  String, arith, ◌≡◌, refl, ◌∙◌, none, some, Bool, true, false, ◌||◌, List, [], ◌∷◌, ◌++◌, contains,
  string_eq, ◌==◌, if◌then◌else◌,
}
use agent_message_queue.Format.Sort.{string_lt}
use agent_message_queue.Keepalive.Registry.{Entry, Paths, ok, same_root_agent, validate_unseen}
use agent_message_queue.Keepalive.Registry.Store.{insert_sorted, sort_entries, validate_from}
use agent_message_queue.Keepalive.Registry.Operations.{
  has_id, find_id, replace_id, put, remove_id, without_ids, of_others,
}

-- No two rows have one id.
abbrev pub HasDistinctIds : List Entry → Type 0
HasDistinctIds [] = Unit {0}
HasDistinctIds (e ∷ rest) = (has_id e.id rest ≡ false) × HasDistinctIds rest

pub has_id-find_id : (id : String) (l : List Entry) → has_id id l ≡ false → find_id id l ≡ none
unfolding has_id find_id
has_id-find_id id [] h = refl
has_id-find_id id (e ∷ l) h = ground (arith, has_id-find_id id l)

pub found_id : (id : String) (l : List Entry) (e : Entry) → find_id id l ≡ some e → e.id ≡ id
unfolding find_id
found_id id [] e h = cc
found_id id (f ∷ l) e h = ground (arith, found_id id l e)

pub has_id-append :
    (id : String) (l : List Entry) (e : Entry)
    → has_id id (l ++ e ∷ []) ≡ (has_id id l || e.id == id)
unfolding has_id
has_id-append id [] e = ground arith
has_id-append id (f ∷ l) e = ground (arith, has_id-append id l e)

pub find-append :
    (j : String) (l : List Entry) (e : Entry)
    → has_id e.id l ≡ false
    → find_id j (l ++ e ∷ []) ≡ (if j == e.id then some e else find_id j l)
unfolding find_id has_id
find-append j [] e h = ground arith
find-append j (f ∷ l) e h = ground (arith, find-append j l e)

pub find_id-has_id :
    (id : String) (l : List Entry) (e : Entry) → find_id id l ≡ some e → has_id id l ≡ true
unfolding find_id has_id
find_id-has_id id [] e h = cc
find_id-has_id id (f ∷ l) e h = ground (arith, find_id-has_id id l e)

-- The last of rows with distinct ids has an id of its own.
pub last-is-new :
    (e : Entry) (l : List Entry) → HasDistinctIds (l ++ e ∷ []) → has_id e.id l ≡ false
unfolding has_id
last-is-new e [] d = refl
last-is-new e (f ∷ l) (a, d) = ground (arith, last-is-new e l d, has_id-append f.id l e)

-- A row written over the one with another id.
pub find-replace_id :
    (j id : String) (e : Entry) (l : List Entry)
    → has_id id l ≡ true
    → HasDistinctIds l
    → (has_id e.id l ≡ false)
    → find_id j (replace_id id e l)
      ≡ (if j == e.id then some e else if j == id then none else find_id j l)
unfolding find_id has_id replace_id
find-replace_id j id e [] h d n = ground arith
find-replace_id j id e (f ∷ l) h (a, d) n =
    ground (arith, find-replace_id j id e l, has_id-find_id id l)

-- A row written over the one with its id.
pub find-replace_same :
    (j : String) (e : Entry) (l : List Entry)
    → has_id e.id l ≡ true
    → find_id j (replace_id e.id e l) ≡ (if j == e.id then some e else find_id j l)
unfolding find_id has_id replace_id
find-replace_same j e [] h = ground arith
find-replace_same j e (f ∷ l) h = ground (arith, find-replace_same j e l)

pub find-put :
    (j : String) (e : Entry) (l : List Entry)
    → find_id j (put e l) ≡ (if j == e.id then some e else find_id j l)
unfolding put
find-put j e l = ground (arith, find-replace_same j e l, find-append j l e)

pub find-remove_id :
    (j id : String) (l : List Entry)
    → HasDistinctIds l
    → find_id j (remove_id id l) ≡ (if j == id then none else find_id j l)
unfolding find_id remove_id
find-remove_id j id [] d = ground arith
find-remove_id j id (f ∷ l) (a, d) =
    ground (arith, find-remove_id j id l d, has_id-find_id f.id l a)

pub find-without_ids :
    (j : String) (ids : List String) (l : List Entry)
    → find_id j (without_ids ids l) ≡ (if contains ids j then none else find_id j l)
unfolding find_id without_ids
find-without_ids j ids [] = ground arith
find-without_ids j ids (f ∷ l) = ground (arith, find-without_ids j ids l)

find-insert_sorted :
    (j : String) (e : Entry) (l : List Entry)
    → has_id e.id l ≡ false
    → find_id j (insert_sorted e l) ≡ (if j == e.id then some e else find_id j l)
unfolding find_id insert_sorted has_id
find-insert_sorted j e [] h = ground arith
find-insert_sorted j e (f ∷ l) h = ground (arith, find-insert_sorted j e l)

has_id-insert_sorted :
    (id : String) (e : Entry) (l : List Entry)
    → has_id id (insert_sorted e l) ≡ (e.id == id || has_id id l)
unfolding insert_sorted has_id
has_id-insert_sorted id e [] = ground arith
has_id-insert_sorted id e (f ∷ l) = ground (arith, has_id-insert_sorted id e l)

pub has_id-sort : (id : String) (l : List Entry) → has_id id (sort_entries l) ≡ has_id id l
unfolding sort_entries has_id
has_id-sort id [] = refl
has_id-sort id (e ∷ l) =
    ground (arith, has_id-insert_sorted id e (sort_entries l), has_id-sort id l)

insert_sorted-HasDistinctIds :
    (e : Entry) (l : List Entry)
    → has_id e.id l ≡ false
    → HasDistinctIds l
    → HasDistinctIds (insert_sorted e l)
unfolding insert_sorted has_id
insert_sorted-HasDistinctIds e [] h d = (refl, tt)
insert_sorted-HasDistinctIds e (f ∷ l) h (a, d) =
    choose (string_lt f.id e.id) (insert_sorted-HasDistinctIds e l (ground arith) d)
  where
    choose :
        (b : Bool)
        → HasDistinctIds (insert_sorted e l)
        → HasDistinctIds (if b then f ∷ insert_sorted e l else e ∷ f ∷ l)
    choose true ih = (ground (arith, has_id-insert_sorted f.id e l), ih)
    choose false ih = (h, (a, d))

pub sort-HasDistinctIds : (l : List Entry) → HasDistinctIds l → HasDistinctIds (sort_entries l)
unfolding sort_entries
sort-HasDistinctIds [] d = d
sort-HasDistinctIds (e ∷ l) (a, d) =
    insert_sorted-HasDistinctIds e (sort_entries l) (has_id-sort e.id l ∙ a)
      (sort-HasDistinctIds l d)

-- Sorting the rows leaves the map as it is.
pub find-sort :
    (j : String) (l : List Entry) → HasDistinctIds l → find_id j (sort_entries l) ≡ find_id j l
unfolding sort_entries find_id
find-sort j [] d = refl
find-sort j (e ∷ l) (a, d) =
    ground
      (arith, find-insert_sorted j e (sort_entries l) (has_id-sort e.id l ∙ a), find-sort j l d)

module _ (p : Paths) where
  pub find-of_others :
      (j : String) (e f : Entry) (l : List Entry)
      → HasDistinctIds l
      → find_id j (of_others p e l) ≡ some f
      → (find_id j l ≡ some f) × (same_root_agent p f e ≡ false)
  unfolding of_others find_id
  find-of_others j e f [] d h = cc
  find-of_others j e f (g ∷ l) (a, d) h =
      ground
        (arith, find-of_others j e f l d, has_id-find_id g.id l a, found_id j (of_others p e l) f)

  valid-unseen :
      (seen : List String) (l : List Entry) (id : String)
      → validate_from p seen l ≡ ok tt
      → contains seen id ≡ true
      → has_id id l ≡ false
  unfolding validate_from validate_unseen has_id
  valid-unseen seen [] id v c = refl
  valid-unseen seen (e ∷ l) id v c = ground (arith, valid-unseen (e.id ∷ seen) l id)

  -- What passes the validation of a load or a save has distinct ids.
  pub valid-HasDistinctIds :
      (seen : List String) (l : List Entry) → validate_from p seen l ≡ ok tt → HasDistinctIds l
  unfolding validate_from
  valid-HasDistinctIds seen [] v = tt
  valid-HasDistinctIds seen (e ∷ l) v =
      let after : validate_from p (e.id ∷ seen) l ≡ ok tt = ground arith in
      (
        valid-unseen (e.id ∷ seen) l e.id after (ground arith),
        valid-HasDistinctIds (e.id ∷ seen) l after,
      )
