-- ===== src/Keepalive/Registry/Ownership.antt =====
-- Which rows may stand beside one another: the ownership checks of the registry's operations.
use agent_message_queue.Base.{
  String, arith, ◌≡◌, ◌≢◌, ◌∙◌, Option, none, some, Bool, true, false, ◌&&◌, List, [], ◌∷◌,
  string_eq, codes_eq, ◌==◌, if◌then◌else◌,
}
use agent_message_queue.Keepalive.Registry.{
  Entry, Paths, same_root_agent, same_target, same_registration, both_equal, same_entry_identity,
}
use agent_message_queue.Keepalive.Registry.Operations.{
  has_id, find_id, replace_id, conflicting_target_owner, conflicting_registration_owner,
}
use agent_message_queue.Keepalive.Registry.Rows.{HasDistinctIds}

module _ (p : Paths) where
  -- Two rows claim neither one target of one adapter nor one agent of one root.
  abbrev pub Apart : Entry → Entry → Type 0
  Apart e f = (same_target p e f ≡ false) × (same_root_agent p e f ≡ false)

  -- Rows under two ids are apart.
  abbrev pub Exclusive : (String → Option Entry) → Type 0
  Exclusive rows =
      (i j : String) (e f : Entry) → rows i ≡ some e → rows j ≡ some f → i ≢ j → Apart e f

  same_root_agent_comm : (e f : Entry) → same_root_agent p e f ≡ same_root_agent p f e
  unfolding same_root_agent both_equal
  same_root_agent_comm e f = ground arith

  same_target_comm : (e f : Entry) → same_target p e f ≡ same_target p f e
  unfolding same_target
  same_target_comm e f = ground arith

  pub Apart-comm : (e f : Entry) → Apart e f → Apart f e
  Apart-comm e f (t, r) = (same_target_comm f e ∙ t, same_root_agent_comm f e ∙ r)

  -- What is apart from a row is apart from one of the same registration.
  pub Apart-same_registration :
      (f o e : Entry) → Apart f o → same_registration p o e ≡ true → Apart f e
  unfolding same_registration same_root_agent same_target both_equal
  Apart-same_registration f o e a s = ground arith

  pub Apart-same_identity : (f o e : Entry) → Apart f o → same_entry_identity o e ≡ true → Apart f e
  unfolding same_entry_identity same_root_agent same_target
  Apart-same_identity f o e a s = ground arith

  pub Exclusive-add :
      (old new : String → Option Entry) (e : Entry)
      → Exclusive old
      → ((j : String) (f : Entry) → old j ≡ some f → j ≢ e.id → Apart f e)
      → ((j : String) → new j ≡ (if j == e.id then some e else old j))
      → Exclusive new
  Exclusive-add old new e x a law i j f g hf hg ne =
      ground (
        arith,
        law i,
        law j,
        a i f,
        a j g,
        x i j f g,
        same_target_comm e g,
        same_root_agent_comm e g,
      )

  -- Fewer rows are exclusive where more are.
  pub Exclusive-fewer :
      (old new : String → Option Entry)
      → Exclusive old
      → ((j : String) (f : Entry) → new j ≡ some f → old j ≡ some f)
      → Exclusive new
  Exclusive-fewer old new x law i j f g hf hg ne = x i j f g (law i f hf) (law j g hg) ne

  pub no_registration_owner :
      (e : Entry) (l : List Entry) (j : String) (f : Entry)
      → conflicting_registration_owner p e l ≡ none
      → find_id j l ≡ some f
      → j ≢ e.id
      → same_root_agent p f e ≡ false
  unfolding conflicting_registration_owner find_id
  no_registration_owner e [] j f n h ne = cc
  no_registration_owner e (g ∷ l) j f n h ne = ground (arith, no_registration_owner e l j f)

  pub no_target_owner :
      (ignore : Bool) (e : Entry) (l : List Entry) (j : String) (f : Entry)
      → conflicting_target_owner p ignore e l ≡ none
      → find_id j l ≡ some f
      → j ≢ e.id
      → (ignore && same_root_agent p f e) ≡ false
      → same_target p f e ≡ false
  unfolding conflicting_target_owner find_id
  no_target_owner ignore e [] j f n h ne s = cc
  no_target_owner ignore e (g ∷ l) j f n h ne s = ground (arith, no_target_owner ignore e l j f)

  -- The owner that a search finds is a row of the registry, under another id.
  pub registration_owner :
      (e o : Entry) (l : List Entry)
      → HasDistinctIds l
      → conflicting_registration_owner p e l ≡ some o
      → (find_id o.id l ≡ some o) × (has_id o.id l ≡ true) × (o.id ≢ e.id)
  unfolding conflicting_registration_owner find_id has_id
  registration_owner e o [] d h = cc
  registration_owner e o (g ∷ l) (a, d) h = ground (arith, registration_owner e o l d)

has_id-replace_id :
    (id : String) (e : Entry) (l : List Entry)
    → has_id id l ≡ true
    → has_id e.id (replace_id id e l) ≡ true
unfolding has_id replace_id
has_id-replace_id id e [] h = cc
has_id-replace_id id e (f ∷ l) h = ground (arith, has_id-replace_id id e l)

-- A row that was written over another one and left the ids distinct is the only one of its id.
pub replaced_new :
    (id : String) (e : Entry) (l : List Entry)
    → has_id id l ≡ true
    → id ≢ e.id
    → HasDistinctIds (replace_id id e l)
    → has_id e.id l ≡ false
unfolding has_id replace_id
replaced_new id e [] h n d = cc
replaced_new id e (f ∷ l) h n d = ground (arith, replaced_new id e l, has_id-replace_id id e l)
