-- ===== src/Keepalive/Registry/Rollback.antt =====
-- A reattach that is rolled back (ReplaceSessionAdapter and RestoreSessionAdapterIfUnchanged in
-- internal/keepalive/registry/store.go).
use agent_message_queue.Base.{
  String, arith, ◌≡◌, refl, sym, ap, ◌∙◌, Option, none, some, Bool, true, false, not, ◌&&◌, List,
  [], ◌∷◌, ◌++◌, string_eq, ◌==◌, if◌then◌else◌,
}
use agent_message_queue.Keepalive.Registry.{Entry, entry_eq, Paths, same_root_agent}
use agent_message_queue.Keepalive.Registry.Store.{replace, insert_sorted, sort_entries}
use agent_message_queue.Keepalive.Registry.Operations.{
  has_id, find_id, remove_id, of_others, of_session, is_undisturbed, restore_change,
}
use agent_message_queue.Keepalive.Registry.Rows.{
  HasDistinctIds, find-append, find-remove_id, find-sort, sort-HasDistinctIds, has_id-sort,
  last-is-new, has_id-append, has_id-find_id,
}

or_else : Option Entry → Option Entry → Option Entry
or_else none o = o
or_else (some e) o = some e

find-join :
    (j : String) (l m : List Entry) → find_id j (l ++ m) ≡ or_else (find_id j l) (find_id j m)
unfolding find_id or_else
find-join j [] m = refl
find-join j (f ∷ l) m = ground (arith, find-join j l m)

module _ (p : Paths) (e : Entry) where
  absent_others :
      (j : String) (l : List Entry) → has_id j l ≡ false → find_id j (of_others p e l) ≡ none
  unfolding has_id find_id of_others
  absent_others j [] h = refl
  absent_others j (f ∷ l) h = ground (arith, absent_others j l)

  -- The rows of the session and those of the others make up the registry.
  parted :
      (j : String) (l : List Entry)
      → HasDistinctIds l
      → or_else (find_id j (of_others p e l)) (find_id j (of_session p e l)) ≡ find_id j l
  unfolding find_id of_others of_session or_else
  parted j [] d = refl
  parted j (f ∷ l) (a, d) = ground (arith, parted j l d, absent_others f.id l a)

  stays : Entry → Bool
  stays f = if f.id == e.id then f == e else not (same_root_agent p f e)

  undisturbed-cons :
      (f : Entry) (l : List Entry) → is_undisturbed p e (f ∷ l) ≡ (stays f && is_undisturbed p e l)
  unfolding is_undisturbed stays
  undisturbed-cons f l = refl

  undisturbed-insert :
      (f : Entry) (l : List Entry)
      → is_undisturbed p e (insert_sorted f l) ≡ (stays f && is_undisturbed p e l)
  unfolding insert_sorted
  undisturbed-insert f [] = undisturbed-cons f []
  undisturbed-insert f (g ∷ l) = ground (
    arith,
    undisturbed-insert f l,
    undisturbed-cons g l,
    undisturbed-cons g (insert_sorted f l),
    undisturbed-cons f (g ∷ l),
  )

  undisturbed-sort : (l : List Entry) → is_undisturbed p e (sort_entries l) ≡ is_undisturbed p e l
  unfolding sort_entries
  undisturbed-sort [] = refl
  undisturbed-sort (f ∷ l) =
      undisturbed-insert f (sort_entries l)
      ∙ (ap (λ b. stays f && b) (undisturbed-sort l) ∙ sym (undisturbed-cons f l))

  undisturbed-others :
      (l : List Entry)
      → has_id e.id (of_others p e l) ≡ false
      → is_undisturbed p e (of_others p e l ++ e ∷ []) ≡ true
  unfolding of_others is_undisturbed has_id
  undisturbed-others [] h = ground arith
  undisturbed-others (f ∷ l) h = ground (arith, undisturbed-others l)

  -- A reattach that nothing disturbed is rolled back: where the rows before it and after it have distinct
  -- ids, the restore writes the session's old rows again, and every id names the row that it named before
  -- the reattach.
  pub restore-replace :
      (l : List Entry)
      → HasDistinctIds l
      → HasDistinctIds (of_others p e l ++ e ∷ [])
      → (l' : List Entry) × (restore_change p e
            (of_session p e l)
            (sort_entries (of_others p e l ++ e ∷ []))
          ≡ replace l' true)
        × ((j : String) → find_id j l' ≡ find_id j l)
  unfolding restore_change
  restore-replace l d d' =
      let reserved : List Entry = of_others p e l ++ e ∷ [] in
      let new : has_id e.id (of_others p e l) ≡ false = last-is-new e (of_others p e l) d' in
      let held = undisturbed-sort (of_others p e l ++ e ∷ []) ∙ undisturbed-others l new in
      let there =
        has_id-sort e.id (of_others p e l ++ e ∷ []) ∙ has_id-append e.id (of_others p e l) e in
      (
        remove_id e.id (sort_entries reserved) ++ of_session p e l,
        ground (arith, held, there),
        λ j.
            find-join j (remove_id e.id (sort_entries reserved)) (of_session p e l)
            ∙ (ap (λ o. or_else o (find_id j (of_session p e l)))
                  (ground (
                    arith,
                    find-remove_id j e.id (sort_entries reserved) (sort-HasDistinctIds reserved d'),
                    find-sort j reserved d',
                    find-append j (of_others p e l) e new,
                    has_id-find_id e.id (of_others p e l) new,
                  ))
                ∙ parted j l d),
      )
