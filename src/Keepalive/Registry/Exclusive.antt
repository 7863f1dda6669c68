-- ===== src/Keepalive/Registry/Exclusive.antt =====
-- The attachments of the registry keep its rows exclusive.
use agent_message_queue.Base.{
  String, arith, ◌≡◌, ◌≢◌, refl, Option, none, some, Bool, true, false, List, [], ◌∷◌, ◌++◌,
  string_eq, codes_eq, if◌then◌else◌,
}
use agent_message_queue.Keepalive.Registry.{
  Entry, Paths, registration_owned, same_registration, entry_eq,
}
use agent_message_queue.Keepalive.Registry.Store.{Disk, file, Change, keep, replace, refuse}
use agent_message_queue.Keepalive.Registry.Operations.{
  find_id, replace_id, put, remove_id, of_others, conflicting_target_owner,
  conflicting_registration_owner, upsert_unowned, upsert_owned, upsert_change, replace_session,
  replace_change,
}
use agent_message_queue.Keepalive.Registry.Rows.{
  HasDistinctIds, find-replace_id, find-put, find-remove_id, find-of_others, find-append,
  last-is-new,
}
use agent_message_queue.Keepalive.Registry.Ownership.{
  Exclusive, Apart-same_registration, Exclusive-add, Exclusive-fewer, no_registration_owner,
  no_target_owner, registration_owner, replaced_new,
}

abbrev pub rows : List Entry → String → Option Entry
rows l j = find_id j l

abbrev pub disk_entries : Disk → List Entry
disk_entries (file v l) = l
disk_entries _ = []

module _ (p : Paths) where
  -- Distinct ids, and rows under two ids apart.
  pub record IsOwned (l : List Entry) : Type 0 where
    pub distinct : HasDistinctIds l
    pub exclusive : Exclusive p (rows l)

  -- What a change makes of owned entries is exclusive, where the save finds its ids distinct.
  abbrev pub KeepsOwned : {A : Type 0} → Change A → Type 0
  KeepsOwned (keep a) = Unit {0}
  KeepsOwned (replace l a) = HasDistinctIds l → Exclusive p (rows l)
  KeepsOwned (refuse x) = Unit {0}

  unowned-KeepsOwned :
      (e : Entry) (l : List Entry) (o : Option Entry)
      → IsOwned l
      → conflicting_registration_owner p e l ≡ none
      → conflicting_target_owner p false e l ≡ o
      → KeepsOwned (upsert_unowned p e l o)
  unfolding upsert_unowned
  unowned-KeepsOwned e l (some owner) h r t = tt
  unowned-KeepsOwned e l none h r t = λ d.
      Exclusive-add p (rows l) (rows (put e l)) e h.exclusive
        (λ j f at ne.
          (no_target_owner p false e l j f t at ne refl, no_registration_owner p e l j f r at ne))
        (λ j. find-put j e l)

  pub kept_row :
      (j id : String) (f : Entry) (l : List Entry)
      → HasDistinctIds l
      → find_id j (remove_id id l) ≡ some f
      → (find_id j l ≡ some f) × (j ≢ id)
  kept_row j id f l d h = ground (arith, find-remove_id j id l d)

  replaced_owner-Exclusive :
      (e owner : Entry) (l : List Entry)
      → IsOwned l
      → conflicting_registration_owner p e l ≡ some owner
      → same_registration p owner e ≡ true
      → HasDistinctIds (replace_id owner.id e l)
      → Exclusive p (rows (replace_id owner.id e l))
  replaced_owner-Exclusive e owner l h found same d =
      let at = registration_owner p e owner l h.distinct found in
      let new = replaced_new owner.id e l at.1 at.2 d in
      Exclusive-add p (rows (remove_id owner.id l)) (rows (replace_id owner.id e l)) e
        (Exclusive-fewer p (rows l) (rows (remove_id owner.id l)) h.exclusive
          (λ j f at_j. (kept_row j owner.id f l h.distinct at_j).0))
        (λ j f at_j ne.
          let row = kept_row j owner.id f l h.distinct at_j in
          Apart-same_registration p f owner e (h.exclusive j owner.id f owner row.0 at.0 row.1)
            same)
        (λ j. ground (
          arith,
          find-replace_id j owner.id e l at.1 h.distinct new,
          find-remove_id j owner.id l h.distinct,
        ))

  owned-KeepsOwned :
      (e : Entry) (l : List Entry) (o : Option Entry)
      → IsOwned l
      → conflicting_registration_owner p e l ≡ o
      → KeepsOwned (upsert_owned p e l o)
  unfolding upsert_owned
  owned-KeepsOwned e l none h r =
      unowned-KeepsOwned e l (conflicting_target_owner p false e l) h r refl
  owned-KeepsOwned e l (some owner) h r = choose (same_registration p owner e) refl
    where
      choose :
          (b : Bool)
          → same_registration p owner e ≡ b
          → KeepsOwned
              (if b then replace (replace_id owner.id e l) e else refuse (registration_owned owner))
      choose true same = replaced_owner-Exclusive e owner l h r same
      choose false same = tt

  pub upsert-KeepsOwned :
      (e : Entry) (l : List Entry) → IsOwned l → KeepsOwned (upsert_change p e l)
  unfolding upsert_change
  upsert-KeepsOwned e l h = owned-KeepsOwned e l (conflicting_registration_owner p e l) h refl

  session-KeepsOwned :
      (e : Entry) (l : List Entry) (o : Option Entry)
      → IsOwned l
      → conflicting_target_owner p true e l ≡ o
      → KeepsOwned (replace_session p e l o)
  unfolding replace_session
  session-KeepsOwned e l (some owner) h t = tt
  session-KeepsOwned e l none h t = λ d.
      Exclusive-add p (rows (of_others p e l)) (rows (of_others p e l ++ e ∷ [])) e
        (Exclusive-fewer p (rows l) (rows (of_others p e l)) h.exclusive
          (λ j f at. (find-of_others p j e f l h.distinct at).0))
        (λ j f at ne.
          let other = find-of_others p j e f l h.distinct at in
          (no_target_owner p true e l j f t other.0 ne other.1, other.1))
        (λ j. find-append j (of_others p e l) e (last-is-new e (of_others p e l) d))

  pub replace-KeepsOwned :
      (e : Entry) (l : List Entry) → IsOwned l → KeepsOwned (replace_change p e l)
  unfolding replace_change
  replace-KeepsOwned e l h = session-KeepsOwned e l (conflicting_target_owner p true e l) h refl
