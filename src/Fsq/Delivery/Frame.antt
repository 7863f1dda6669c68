-- ===== src/Fsq/Delivery/Frame.antt =====
-- What a delivery may do to the tree, and the state of the stages that wait to be published.
use agent_message_queue.Base.{
  String, ◌≡◌, ◌≢◌, ◌⊎◌, ◌∙◌, sym, ap, inl, inr, refl, none, some, List, [], ◌∷◌, ◌++◌, All,
}
use agent_message_queue.Base.Dict.{lookup}
use agent_message_queue.Fsq.Store.{
  FilePath, Files, Bytes, Node, regular, inbox_tmp, inbox_new, join, path_eq,
}
use agent_message_queue.Fsq.Root.Write.{Except}
use agent_message_queue.Fsq.Delivery.{Stage, inbox_new_dir}
use agent_message_queue.Fsq.Delivery.Publish.{Published}

new_not_tmp : inbox_new ≢ inbox_tmp
new_not_tmp e = cc

-- `q` is a message of the given name that was absent and now holds exactly the given bytes.
pub record Arrived (filename : String) (b : Bytes) (fs gs : Files) (q : FilePath) : Type 0 where
  pub box : q.leaf ≡ inbox_new
  pub named : q.name ≡ filename
  pub absent : lookup q fs ≡ none
  pub complete : lookup q gs ≡ some (regular b)

module _ (filename : String) (b : Bytes) where
  -- Outside `inbox/tmp` every path holds what it held, or is a message that has arrived whole.
  abbrev pub Delivers : Files → Files → Type 0
  Delivers fs gs =
      (q : FilePath) → q.leaf ≢ inbox_tmp → (lookup q gs ≡ lookup q fs) ⊎ Arrived filename b fs gs q

  pub Delivers-refl : (fs : Files) → Delivers fs fs
  Delivers-refl fs q ne = inl refl

  -- A change of a path of `inbox/tmp` is no change of the tree.
  pub Delivers-Except :
      (t : FilePath) (fs gs hs : Files)
      → t.leaf ≡ inbox_tmp
      → Delivers fs gs
      → Except t gs hs
      → Delivers fs hs
  Delivers-Except t fs gs hs e d h q ne = elim (d q ne) [
    | inl same ↦ inl (h q (λ p. ne (ap (λ (p : FilePath). p.leaf) p ∙ e)) ∙ same)
    | inr a ↦ inr (record {
      box = a.box;
      named = a.named;
      absent = a.absent;
      complete = h q (λ p. ne (ap (λ (p : FilePath). p.leaf) p ∙ e)) ∙ a.complete;
    })
  ]

  pub Delivers-trans : (fs gs hs : Files) → Delivers fs gs → Delivers gs hs → Delivers fs hs
  Delivers-trans fs gs hs d d' q ne = elim (d q ne) [
    | inl same ↦ elim (d' q ne) [
      | inl same' ↦ inl (same' ∙ same)
      | inr a ↦ inr (record {
        box = a.box;
        named = a.named;
        absent = sym same ∙ a.absent;
        complete = a.complete;
      })
    ]
    | inr a ↦ inr (record {
      box = a.box;
      named = a.named;
      absent = a.absent;
      complete = elim (d' q ne) [ inl same' ↦ same' ∙ a.complete | inr a' ↦ a'.complete ];
    })
  ]

  -- A message that stands is never replaced.
  pub Delivers-keeps :
      (gs hs : Files) (q : FilePath) (n : Node)
      → Delivers gs hs
      → q.leaf ≢ inbox_tmp
      → lookup q gs ≡ some n
      → lookup q hs ≡ some n
  Delivers-keeps gs hs q n d ne e = elim (d q ne) [ inl same ↦ same ∙ e | inr a ↦ cc (a.absent, e) ]

  pub Published-Delivers :
      (t n : FilePath) (ne : t ≢ n) (gs hs : Files)
      → t.leaf ≡ inbox_tmp
      → n.leaf ≡ inbox_new
      → n.name ≡ filename
      → Published t n b ne gs hs
      → Delivers gs hs
  Published-Delivers t n ne gs hs l l' named (stored, before, h) q k = elim (path_eq.dec q n) [
    | yes p ↦ elim before [
      | inl absent ↦ inr (record {
        box = ap (λ (r : FilePath). r.leaf) p ∙ l';
        named = ap (λ (r : FilePath). r.name) p ∙ named;
        absent = ap (λ (r : FilePath). lookup r gs) p ∙ absent;
        complete = ap (λ (r : FilePath). lookup r hs) p ∙ stored;
      })
      | inr there ↦ inl (
          ap (λ (r : FilePath). lookup r hs) p
          ∙ stored
          ∙ sym (ap (λ (r : FilePath). lookup r gs) p ∙ there))
    ]
    | no ¬p ↦ inl (h q (λ p. k (ap (λ (r : FilePath). r.leaf) p ∙ l)) ¬p)
  ]

-- The temporary file of a stage holds the message, and its destination is the inbox of its recipient.
pub record IsStaged (filename : String) (b : Bytes) (gs : Files) (s : Stage) : Type 0 where
  pub in_tmp : s.tmp_path.leaf ≡ inbox_tmp
  pub dest : s.new_path ≡ join (inbox_new_dir s.recipient) filename
  pub held : lookup s.tmp_path gs ≡ some (regular b)

abbrev pub Apart : FilePath → List Stage → Type 0
Apart t = All (λ s. s.tmp_path ≢ t)

-- No two stages share a temporary file.
abbrev pub Separate : List Stage → Type 0
Separate [] = Unit
Separate (s ∷ rest) = Apart s.tmp_path rest × Separate rest

module _ (filename : String) (b : Bytes) where
  -- What holds between two rounds of the staging loop, and of what is left in the commit loop.
  pub record Staged (fs : Files) (stages : List Stage) (gs : Files) : Type 0 where
    pub frame : Delivers filename b fs gs
    pub staged : All (IsStaged filename b gs) stages
    pub separate : Separate stages

  IsStaged-Except :
      (t : FilePath) (gs hs : Files) (stages : List Stage)
      → Except t gs hs
      → Apart t stages
      → All (IsStaged filename b gs) stages
      → All (IsStaged filename b hs) stages
  IsStaged-Except t gs hs [] h a st = tt
  IsStaged-Except t gs hs (s ∷ rest) h (ne, a) (i, st) = (
    record { in_tmp = i.in_tmp; dest = i.dest; held = h s.tmp_path ne ∙ i.held },
    IsStaged-Except t gs hs rest h a st,
  )

  pub Staged-Except :
      (t : FilePath) (fs gs hs : Files) (stages : List Stage)
      → t.leaf ≡ inbox_tmp
      → Apart t stages
      → Staged fs stages gs
      → Except t gs hs
      → Staged fs stages hs
  Staged-Except t fs gs hs stages e a st h = record {
    frame = Delivers-Except filename b t fs gs hs e st.frame h;
    staged = IsStaged-Except t gs hs stages h a st.staged;
    separate = st.separate;
  }

  -- A path that holds nothing is no stage's temporary file.
  pub Apart-absent :
      (t : FilePath) (gs : Files) (stages : List Stage)
      → lookup t gs ≡ none
      → All (IsStaged filename b gs) stages
      → Apart t stages
  Apart-absent t gs [] e st = tt
  Apart-absent t gs (s ∷ rest) e (i, st) =
      ((λ p. cc (e, i.held, ap (λ (q : FilePath). lookup q gs) p)), Apart-absent t gs rest e st)

pub All-snoc :
    (P : Stage → Type 0) (xs : List Stage) (s : Stage) → All P xs → P s → All P (xs ++ s ∷ [])
All-snoc P [] s h p = (p, tt)
All-snoc P (x ∷ xs) s (q, h) p = (q, All-snoc P xs s h p)

Separate-snoc :
    (xs : List Stage) (s : Stage) → Separate xs → Apart s.tmp_path xs → Separate (xs ++ s ∷ [])
Separate-snoc [] s h a = (tt, tt)
Separate-snoc (x ∷ xs) s (k, h) (ne, a) =
    (All-snoc (λ x'. x'.tmp_path ≢ x.tmp_path) xs s k (λ p. ne (sym p)), Separate-snoc xs s h a)

pub Staged-snoc :
    (filename : String) (b : Bytes) (fs gs : Files) (stages : List Stage) (s : Stage)
    → Staged filename b fs stages gs
    → IsStaged filename b gs s
    → Apart s.tmp_path stages
    → Staged filename b fs (stages ++ s ∷ []) gs
Staged-snoc filename b fs gs stages s st i a = record {
  frame = st.frame;
  staged = All-snoc (IsStaged filename b gs) stages s st.staged i;
  separate = Separate-snoc stages s st.separate a;
}
