-- ===== src/Swarm/Team/View.antt =====
-- The members that `load_team` shows, under registrations and removals of the file.
use agent_message_queue.Base.{
  String, arith, ◌≡◌, ◌≢◌, refl, Bool, true, false, Option, none, some, List, [], ◌∷◌, ◌++◌, ◌∙◌,
  string_eq, ◌==◌, if◌then◌else◌,
}
use agent_message_queue.Base.Dict.{lookup}
use agent_message_queue.Swarm.Json.{Raw, object, scalar, Item, get_text}
use agent_message_queue.Swarm.Team.{
  Member, TeamConfig, Document, TeamFile, duplicate, not_found, Result, ok, err, items_of,
  find_duplicate, ◌>>=?◌, member_raw, any_with, without, decode_member, decode_members, find_member,
  text_field, parsed, has_id, load_team, decode_config, decode_field, MembersField, missing, array,
  other, decoded, read_team_config_raw, register_member, unregister_member, write_members,
  append_member, ◌>>=◌,
}
use agent_message_queue.Swarm.Team.Registry.{read_inv}

-- Registration and removal as operations on the members.
unfoldable pub enrol : Member → List Member → Result (List Member)
enrol m ms = elim (find_member m.agent_id ms) [
  | none ↦ ok (ms ++ m ∷ [])
  | some old ↦ err (duplicate old.name)
]

unfoldable pub drop_member : String → List Member → List Member
drop_member id [] = []
drop_member id (m ∷ rest) =
    let kept = drop_member id rest in if m.agent_id == id then kept else m ∷ kept

text_read : (raw : Raw) (k s : String) → text_field (lookup k raw) ≡ some s → get_text raw k ≡ s
unfolding get_text
text_read raw k s h = ground arith

bind_inv :
    {A B : Type 0} (o : Option A) (f : A → Option B) {b : B}
    → (o >>=? f) ≡ some b
    → (a : A) × (o ≡ some a) × (f a ≡ some b)
bind_inv none f h = cc h
bind_inv (some a) f h = (a, refl, h)

-- The raw fields that a decoded member shows.
member_read :
    (raw : Raw) (m : Member)
    → decode_member (object raw) ≡ some m
    → (get_text raw "agent_id" ≡ m.agent_id) × (get_text raw "name" ≡ m.name)
unfolding decode_member
member_read raw m h =
    let (n, hn, h1) = bind_inv (text_field (lookup "name" raw)) _ h in
    let (i, hi, h2) = bind_inv (text_field (lookup "agent_id" raw)) _ h1 in
    let (t, ht, h3) = bind_inv (text_field (lookup "agent_type" raw)) _ h2 in
    (text_read raw "agent_id" i hi ∙ cc h3, text_read raw "name" n hn ∙ cc h3)

members_inv :
    (item : Item) (rest : List Item) (ms : List Member)
    → decode_members (item ∷ rest) ≡ some ms
    → (m : Member) × (ms' : List Member) × (decode_member item ≡ some m)
      × (decode_members rest ≡ some ms')
      × (ms ≡ m ∷ ms')
unfolding decode_members
members_inv item rest ms h =
    let (m, hm, h1) = bind_inv (decode_member item) _ h in
    let (ms', hms, h2) = bind_inv (decode_members rest) _ h1 in (m, ms', hm, hms, cc h2)

-- An entry that is no object is shown with no id.
null_read : (v : String) (m : Member) → decode_member (scalar v) ≡ some m → m.agent_id ≡ ""
unfolding decode_member
null_read v m h = ground arith

decoded_new : (m : Member) → decode_member (object (member_raw m)) ≡ some m
unfolding decode_member lookup string_eq
decoded_new m = refl

member_name : Option Member → Option String
member_name none = none
member_name (some m) = some m.name

unfoldable pub is_some : Option Member → Bool
is_some none = false
is_some (some m) = true

module _ (id : String) (named : id ≢ "") where
  id_shown :
      (item : Item) (m : Member) → decode_member item ≡ some m → has_id id item ≡ (m.agent_id == id)
  id_shown (scalar v) m h = ground (arith, null_read v m h)
  id_shown (object raw) m h = let (e, n) = member_read raw m h in ground (arith, e)

  duplicate_shown :
      (items : List Item) (ms : List Member)
      → decode_members items ≡ some ms
      → find_duplicate id items ≡ member_name (find_member id ms)
  unfolding find_duplicate find_member decode_members member_name
  duplicate_shown [] ms h = ground arith
  duplicate_shown (scalar v ∷ rest) ms h =
      let (m, ms', hm, hms, e) = members_inv (scalar v) rest ms h in
      ground (arith, e, id_shown (scalar v) m hm, duplicate_shown rest ms' hms)
  duplicate_shown (object raw ∷ rest) ms h =
      let (m, ms', hm, hms, e) = members_inv (object raw) rest ms h in
      ground
        (arith, e, member_read raw m hm, id_shown (object raw) m hm, duplicate_shown rest ms' hms)

  found_shown :
      (items : List Item) (ms : List Member)
      → decode_members items ≡ some ms
      → any_with id items ≡ is_some (find_member id ms)
  unfolding any_with find_member decode_members is_some
  found_shown [] ms h = ground arith
  found_shown (item ∷ rest) ms h =
      let (m, ms', hm, hms, e) = members_inv item rest ms h in
      ground (arith, e, id_shown item m hm, found_shown rest ms' hms)

  without_shown :
      (items : List Item) (ms : List Member)
      → decode_members items ≡ some ms
      → decode_members (without id items) ≡ some (drop_member id ms)
  unfolding without drop_member decode_members
  without_shown [] ms h = ground arith
  without_shown (item ∷ rest) ms h =
      let (m, ms', hm, hms, e) = members_inv item rest ms h in
      ground (arith, e, hm, id_shown item m hm, without_shown rest ms' hms)

append_shown :
    (items : List Item) (ms : List Member) (m : Member)
    → decode_members items ≡ some ms
    → decode_members (items ++ object (member_raw m) ∷ []) ≡ some (ms ++ m ∷ [])
unfolding decode_members
append_shown [] ms m h = ground (arith, decoded_new m)
append_shown (item ∷ rest) ms m h =
    let (m', ms', hm, hms, e) = members_inv item rest ms h in
    ground (arith, e, hm, append_shown rest ms' m hms)

parsed_inv : (o : Option TeamConfig) (cfg : TeamConfig) → parsed o ≡ ok cfg → o ≡ some cfg
unfolding parsed
parsed_inv none cfg h = cc h
parsed_inv (some c) cfg h = cc h

-- What a file shows that loads.
load_inv :
    (team : String) (f : TeamFile) (cfg : TeamConfig)
    → load_team team f ≡ ok cfg
    → (d : Document) × (f.content ≡ decoded d) × (decode_config team d ≡ some cfg)
unfolding load_team
load_inv team f cfg h =
    let (d, c, k) = read_inv f.content _ h in (d, c, parsed_inv (decode_config team d) cfg k)

field_shown :
    (field : MembersField) (ms : List Member)
    → decode_field field ≡ some ms
    → decode_members (items_of field) ≡ some ms
unfolding decode_field decode_members
field_shown missing ms h = ground arith
field_shown (array items) ms h = h
field_shown (other v) ms h = ground arith

config_inv :
    (team : String) (d : Document) (cfg : TeamConfig)
    → decode_config team d ≡ some cfg
    → (decode_members (items_of d.members) ≡ some cfg.members)
      × ((items : List Item) (ms : List Member)
          → decode_members items ≡ some ms
          → decode_config team (record d { members = array items })
            ≡ some (record cfg { members = ms }))
unfolding decode_config decode_field
config_inv team d cfg h =
    let (n, hn, h1) = bind_inv (text_field (lookup "name" d.fields)) _ h in
    let (l, hl, h2) = bind_inv (text_field (lookup "lead" d.fields)) _ h1 in
    let (ms, hms, h3) = bind_inv (decode_field d.members) _ h2 in
    (ground (arith, field_shown d.members ms hms, h3), λ items ms' k. ground (arith, hn, hl, h3, k))

-- The members that a team file shows are a list on which a registration and a removal are the plain
-- operations: for a file that loads and can be written, and an id that is not empty, a registration is
-- refused by the name of the first shown member with the id, or else adds the member to the end of what
-- is shown; a removal is refused where no shown member has the id, or else drops those that have it. The
-- name and lead of the team stay.
pub register_member-load_team :
    (team : String) (m : Member) (f : TeamFile) (cfg : TeamConfig)
    → m.agent_id ≢ ""
    → f.writable ≡ true
    → load_team team f ≡ ok cfg
    → ((register_member m f >>= load_team team)
        ≡ (enrol m cfg.members >>= λ ms. ok (record cfg { members = ms })))
      × ((unregister_member m.agent_id f >>= load_team team) ≡ (
          if is_some (find_member m.agent_id cfg.members)
          then ok (record cfg { members = drop_member m.agent_id cfg.members })
          else err not_found))
unfolding register_member unregister_member load_team write_members read_team_config_raw parsed
    enrol append_member member_name is_some
register_member-load_team team m f cfg named w h =
    let (d, c, k) = load_inv team f cfg h in
    let (ms, keep) = config_inv team d cfg k in
    (
      ground (
        arith,
        c,
        duplicate_shown m.agent_id named (items_of d.members) cfg.members ms,
        keep _ _ (append_shown (items_of d.members) cfg.members m ms),
      ),
      ground (
        arith,
        c,
        found_shown m.agent_id named (items_of d.members) cfg.members ms,
        keep _ _ (without_shown m.agent_id named (items_of d.members) cfg.members ms),
      ),
    )
