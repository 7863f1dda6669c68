-- ===== src/Swarm/Team/Registry.antt =====
-- The list of a team's members under registrations and removals.
use mathlib.Core.Path.{subst}
use agent_message_queue.Base.{
  String, sym, if◌then◌else◌, arith, ◌≡◌, refl, Bool, true, false, ◌||◌, Option, none, some, List,
  [], ◌∷◌, ◌++◌, string_eq, ◌==◌,
}
use agent_message_queue.Base.Dict.{lookup}
use agent_message_queue.Swarm.Json.{object, scalar, Item, get_text}
use agent_message_queue.Swarm.Team.{
  Member, Document, Content, unreadable, malformed, decoded, array, not_found, ◌>>=◌, TeamFile,
  Result, ok, err, items_of, write_members, find_duplicate, member_raw, register_member, any_with,
  without, unregister_member, append_member, read_team_config_raw,
}

-- No two members have one id.
abbrev pub Distinct : List Item → Type 0
Distinct [] = Unit
Distinct (scalar v ∷ rest) = Distinct rest
Distinct (object m ∷ rest) = (any_with (get_text m "agent_id") rest ≡ false) × Distinct rest

abbrev pub content_items : Content → List Item
content_items unreadable = []
content_items malformed = []
content_items (decoded d) = items_of d.members

abbrev pub HasDistinctIds : TeamFile → Type 0
HasDistinctIds f = Distinct (content_items f.content)

pub any_with-duplicate :
    (id : String) (items : List Item) → find_duplicate id items ≡ none → any_with id items ≡ false
unfolding find_duplicate any_with
any_with-duplicate id [] h = refl
any_with-duplicate id (scalar v ∷ rest) h = ground (arith, any_with-duplicate id rest h)
any_with-duplicate id (object m ∷ rest) h = ground (arith, any_with-duplicate id rest)

pub new_id : (m : Member) → get_text (member_raw m) "agent_id" ≡ m.agent_id
unfolding get_text lookup string_eq
new_id m = refl

any_with-append :
    (i : String) (items : List Item) (m : Member)
    → any_with i (items ++ object (member_raw m) ∷ []) ≡ (any_with i items || m.agent_id == i)
unfolding any_with
any_with-append i [] m = ground (arith, new_id m)
any_with-append i (item ∷ rest) m = ground (arith, any_with-append i rest m)

Distinct-append :
    (items : List Item) (m : Member)
    → Distinct items
    → any_with m.agent_id items ≡ false
    → Distinct (items ++ object (member_raw m) ∷ [])
unfolding any_with
Distinct-append [] m h n = (refl, tt)
Distinct-append (scalar v ∷ rest) m h n = Distinct-append rest m h (ground arith)
Distinct-append (object raw ∷ rest) m (h, hs) n = (
  ground (arith, any_with-append (get_text raw "agent_id") rest m),
  Distinct-append rest m hs (ground arith),
)

any_with-without :
    (i id : String) (items : List Item)
    → any_with i items ≡ false
    → any_with i (without id items) ≡ false
unfolding any_with without
any_with-without i id [] h = refl
any_with-without i id (item ∷ rest) h = ground (arith, any_with-without i id rest)

Distinct-without : (id : String) (items : List Item) → Distinct items → Distinct (without id items)
unfolding without
Distinct-without id [] h = h
Distinct-without id (scalar v ∷ rest) h = Distinct-without id rest h
Distinct-without id (object m ∷ rest) (h, hs) =
    keep (get_text m "agent_id" == id) (Distinct-without id rest hs) (any_with-without _ id rest h)
  where
    keep :
        (gone : Bool)
        → Distinct (without id rest)
        → any_with (get_text m "agent_id") (without id rest) ≡ false
        → Distinct (if gone then without id rest else object m ∷ without id rest)
    keep true d n = d
    keep false d n = (n, d)

pub without_absent :
    (id : String) (items : List Item) → any_with id items ≡ false → without id items ≡ items
unfolding any_with without
without_absent id [] h = refl
without_absent id (item ∷ rest) h = ground (arith, without_absent id rest)

without-append :
    (items : List Item) (m : Member)
    → any_with m.agent_id items ≡ false
    → without m.agent_id (items ++ object (member_raw m) ∷ []) ≡ items
unfolding any_with without
without-append [] m h = ground (arith, new_id m)
without-append (item ∷ rest) m h = ground (arith, without-append rest m)

-- A registration or a removal that succeeds.
pub data Step : TeamFile → TeamFile → Type 0 where
  register : {f g : TeamFile} (m : Member) → register_member m f ≡ ok g → Step f g
  unregister : {f g : TeamFile} (id : String) → unregister_member id f ≡ ok g → Step f g

pub data Reach (f : TeamFile) : TeamFile → Type 0 where
  here : Reach f f
  next : {g h : TeamFile} → Reach f g → Step g h → Reach f h

-- The file with another list of members.
abbrev pub with_items : TeamFile → Document → List Item → TeamFile
with_items f d items = record f { content = decoded (record d { members = array items }) }

pub read_inv :
    {A : Type 0} (c : Content) (k : Document → Result A) {a : A}
    → (read_team_config_raw c >>= k) ≡ ok a
    → (d : Document) × (c ≡ decoded d) × (k d ≡ ok a)
unfolding read_team_config_raw
read_inv unreadable k h = cc h
read_inv malformed k h = cc h
read_inv (decoded d) k h = (d, refl, h)

write_inv :
    (f g : TeamFile) (d : Document) (items : List Item)
    → write_members f d items ≡ ok g
    → (g ≡ with_items f d items) × (f.writable ≡ true)
unfolding write_members
write_inv f g d items h = ground arith

append_inv :
    (m : Member) (f g : TeamFile) (d : Document) (o : Option String)
    → append_member m f d o ≡ ok g
    → (o ≡ none)
      × (g ≡ with_items f d (items_of d.members ++ object (member_raw m) ∷ []))
      × (f.writable ≡ true)
unfolding append_member
append_inv m f g d none h = let (e, wr) = write_inv f g d _ h in (refl, e, wr)
append_inv m f g d (some name) h = cc h

-- What a registration that succeeds has found and written.
pub register_inv :
    (m : Member) (f g : TeamFile)
    → register_member m f ≡ ok g
    → (d : Document) × (f.content ≡ decoded d)
      × (any_with m.agent_id (items_of d.members) ≡ false)
      × (g ≡ with_items f d (items_of d.members ++ object (member_raw m) ∷ []))
      × (f.writable ≡ true)
unfolding register_member
register_inv m f g h =
    let (d, c, k) = read_inv f.content _ h in
    let (fresh, e, wr) = append_inv m f g d _ k in
    (d, c, any_with-duplicate m.agent_id (items_of d.members) fresh, e, wr)

remove_inv :
    (id : String) (f g : TeamFile) (d : Document) (b : Bool)
    → (if b then write_members f d (without id (items_of d.members)) else err not_found) ≡ ok g
    → g ≡ with_items f d (without id (items_of d.members))
remove_inv id f g d true h = (write_inv f g d _ h).0
remove_inv id f g d false h = cc h

unregister_inv :
    (id : String) (f g : TeamFile)
    → unregister_member id f ≡ ok g
    → (d : Document) × (f.content ≡ decoded d)
      × (g ≡ with_items f d (without id (items_of d.members)))
unfolding unregister_member
unregister_inv id f g h = let (d, c, k) = read_inv f.content _ h in (d, c, remove_inv id f g d _ k)

Step-HasDistinctIds : {f g : TeamFile} → Step f g → HasDistinctIds f → HasDistinctIds g
Step-HasDistinctIds {f} {g} (register m e) h =
    let (d, c, fresh, w, wr) = register_inv m f g e in
    subst HasDistinctIds (sym w)
      (Distinct-append (items_of d.members) m (subst (λ c. Distinct (content_items c)) c h) fresh)
Step-HasDistinctIds {f} {g} (unregister id e) h =
    let (d, c, w) = unregister_inv id f g e in
    subst HasDistinctIds (sym w)
      (Distinct-without id (items_of d.members) (subst (λ c. Distinct (content_items c)) c h))

-- However members register and leave, no two of them ever have one id, where none had at first.
pub distinct_forever : {f g : TeamFile} → Reach f g → HasDistinctIds f → HasDistinctIds g
distinct_forever here h = h
distinct_forever (next r st) h = Step-HasDistinctIds st (distinct_forever r h)

-- A removal undoes a registration: the other fields and every entry of the list are as they were.
pub unregister_member-register_member :
    (m : Member) (f g : TeamFile)
    → register_member m f ≡ ok g
    → (d : Document) × (f.content ≡ decoded d)
      × (unregister_member m.agent_id g ≡ ok (with_items f d (items_of d.members)))
unfolding unregister_member read_team_config_raw write_members
unregister_member-register_member m f g h =
    let (d, c, fresh, w, wr) = register_inv m f g h in
    (
      d,
      c,
      ground (
        arith,
        w,
        wr,
        fresh,
        any_with-append m.agent_id (items_of d.members) m,
        without-append (items_of d.members) m fresh,
      ),
    )
