-- ===== src/Swarm/Team.antt =====
-- team.go: the members of a team, in its configuration file.
-- A file is read and written as one step, under its lock; keys are matched exactly.
pub mod Registry
pub mod View
pub mod Tests
use agent_message_queue.Base.{
  String, Bool, true, false, not, ◌&&◌, ◌||◌, Option, none, some, List, [], ◌∷◌, ◌++◌, string_eq,
  ◌==◌, if◌then◌else◌, ℕ, length,
}
use agent_message_queue.Base.Dict.{lookup}
use agent_message_queue.Base.Text.{has_prefix}
use agent_message_queue.Swarm.Json.{Value, text, texts, json, Raw, Item, object, scalar, get_text}

pub record Member : Type 0 where
  pub name : String
  pub agent_id : String
  pub agent_type : String

pub record TeamConfig : Type 0 where
  pub name : String
  pub lead : String
  pub members : List Member

pub record TeamSummary : Type 0 where
  pub name : String
  pub member_count : ℕ
  pub config_path : String

-- The "members" field of the document: missing, an array, or any other value by its JSON text.
pub data MembersField : Type 0 where
  missing : MembersField
  array : List Item → MembersField
  other : String → MembersField

-- The decoded document: its "members", and its other fields.
pub record Document : Type 0 where
  pub fields : Raw
  pub members : MembersField

-- What the configuration file holds: nothing that can be read or decoded, or an object.
pub data Content : Type 0 where
  unreadable malformed : Content
  decoded : Document → Content

-- `writable` says whether an atomic write succeeds.
pub record TeamFile : Type 0 where
  pub content : Content
  pub writable : Bool

pub data TeamError : Type 0 where
  read_error parse_error write_error not_found : TeamError
  duplicate : String → TeamError

pub data Result (A : Type 0) : Type 0 where
  ok : A → Result A
  err : TeamError → Result A

infixl 5 ◌>>=◌
abbrev pub ◌>>=◌ : {A B : Type 0} → Result A → (A → Result B) → Result B
ok a >>= f = f a
err e >>= f = err e

infixl 5 ◌>>=?◌
abbrev pub ◌>>=?◌ : {A B : Type 0} → Option A → (A → Option B) → Option B
none >>=? f = none
some a >>=? f = f a

-- `readTeamConfigRaw`.
unfoldable pub read_team_config_raw : Content → Result Document
read_team_config_raw unreadable = err read_error
read_team_config_raw malformed = err parse_error
read_team_config_raw (decoded d) = ok d

-- `raw["members"].([]any)`: what is no array reads as no members.
abbrev pub items_of : MembersField → List Item
items_of missing = []
items_of (array items) = items
items_of (other v) = []

-- `raw["members"] = …`, and `atomicWriteJSON`.
unfoldable pub write_members : TeamFile → Document → List Item → Result TeamFile
write_members f d items =
    if f.writable
    then ok (record f { content = decoded (record d { members = array items }) })
    else err write_error

-- The name of the first member with the agent's id.
unfoldable pub find_duplicate : String → List Item → Option String
find_duplicate id [] = none
find_duplicate id (scalar v ∷ rest) = find_duplicate id rest
find_duplicate id (object m ∷ rest) =
    let later = find_duplicate id rest in
    if get_text m "agent_id" == id then some (get_text m "name") else later

-- `newMember`.
abbrev pub member_raw : Member → Raw
member_raw m =
    ("name", text m.name) ∷ ("agent_id", text m.agent_id) ∷ ("agent_type", text m.agent_type) ∷ []

append_member : Member → TeamFile → Document → Option String → Result TeamFile
append_member m f d (some name) = err (duplicate name)
append_member m f d none = write_members f d (items_of d.members ++ object (member_raw m) ∷ [])

-- `RegisterMember`.
unfoldable pub register_member : Member → TeamFile → Result TeamFile
unfolding append_member
register_member m f = do
  d ← read_team_config_raw f.content
  append_member m f d (find_duplicate m.agent_id (items_of d.members))

-- Whether an entry is a member with the id: entries that are no objects never are.
abbrev pub has_id : String → Item → Bool
has_id id (scalar v) = false
has_id id (object m) = get_text m "agent_id" == id

-- `found`.
unfoldable pub any_with : String → List Item → Bool
any_with id [] = false
any_with id (item ∷ rest) = has_id id item || any_with id rest

-- `filtered`.
unfoldable pub without : String → List Item → List Item
without id [] = []
without id (item ∷ rest) =
    let kept = without id rest in if has_id id item then kept else item ∷ kept

-- `UnregisterMember`.
unfoldable pub unregister_member : String → TeamFile → Result TeamFile
unregister_member id f = do
  d ← read_team_config_raw f.content
  if any_with id (items_of d.members)
      then write_members f d (without id (items_of d.members))
      else err not_found

-- A text field of a struct: a missing one and `null` are empty, one of another type is an error.
abbrev pub text_field : Option Value → Option String
text_field none = some ""
text_field (some (text s)) = some s
text_field (some (texts l)) = none
text_field (some (json v)) = if v == "null" then some "" else none

-- `json.Unmarshal` into a `Member`; a `null` leaves it empty.
unfoldable pub decode_member : Item → Option Member
decode_member (scalar v) =
    if v == "null" then some (record { name = ""; agent_id = ""; agent_type = "" }) else none
decode_member (object m) = text_field (lookup "name" m) >>=? λ n.
    text_field (lookup "agent_id" m) >>=? λ i. text_field (lookup "agent_type" m) >>=? λ t.
    some (record { name = n; agent_id = i; agent_type = t })

unfoldable pub decode_members : List Item → Option (List Member)
decode_members [] = some []
decode_members (item ∷ rest) =
    decode_member item >>=? λ m. decode_members rest >>=? λ ms. some (m ∷ ms)

unfoldable pub decode_field : MembersField → Option (List Member)
decode_field missing = some []
decode_field (array items) = decode_members items
decode_field (other v) = if v == "null" then some [] else none

unfoldable pub decode_config : String → Document → Option TeamConfig
decode_config team d = text_field (lookup "name" d.fields) >>=? λ n.
    text_field (lookup "lead" d.fields) >>=? λ l. decode_field d.members >>=? λ ms.
    some (record { name = if n == "" then team else n; lead = l; members = ms })

parsed : Option TeamConfig → Result TeamConfig
parsed none = err parse_error
parsed (some c) = ok c

-- `LoadTeam`.
unfoldable pub load_team : String → TeamFile → Result TeamConfig
unfolding parsed
load_team team f = do d ← read_team_config_raw f.content; parsed (decode_config team d)

-- `FindMember`.
unfoldable pub find_member : String → List Member → Option Member
find_member id [] = none
find_member id (m ∷ rest) =
    let later = find_member id rest in if m.agent_id == id then some m else later

-- `FindMemberByName`.
unfoldable pub find_member_by_name : String → List Member → Option Member
find_member_by_name name [] = none
find_member_by_name name (m ∷ rest) =
    let later = find_member_by_name name rest in if m.name == name then some m else later

-- A directory entry of the teams directory, with the configuration file in it.
pub record TeamEntry : Type 0 where
  pub name : String
  pub is_dir : Bool
  pub file : TeamFile

-- The listing of the teams directory.
pub data TeamsDir : Type 0 where
  no_dir failed : TeamsDir
  entries : List TeamEntry → TeamsDir

-- `config_path` is `TeamConfigPath`.
module _ (config_path : String → String) where
  summary : String → Result TeamConfig → TeamSummary
  summary name (err e) = record { name = name; member_count = 0; config_path = config_path name }
  summary name (ok c) = record {
    name = name;
    member_count = length c.members;
    config_path = config_path name;
  }

  discover_entries : List TeamEntry → List TeamSummary
  unfolding summary
  discover_entries [] = []
  discover_entries (e ∷ rest) =
      let later = discover_entries rest in
      if not e.is_dir || has_prefix e.name "."
      then later
      else summary e.name (load_team e.name e.file) ∷ later

  -- `DiscoverTeams`: a team with an unreadable configuration is listed too.
  unfoldable pub discover_teams : TeamsDir → Result (List TeamSummary)
  unfolding discover_entries
  discover_teams no_dir = ok []
  discover_teams failed = err read_error
  discover_teams (entries es) = ok (discover_entries es)
