-- ===== src/Swarm/Json.antt =====
-- The JSON documents of the task store (internal/swarm/tasks.go), as Go's decoder presents them.
use agent_message_queue.Base.{String, Option, none, some, List, [], string_eq}
use agent_message_queue.Base.Dict.{Dict, lookup}

-- A field of a task: a text, a list of texts, or any other value by its JSON text.
pub data Value : Type 0 where
  text : String → Value
  texts : List String → Value
  json : String → Value

-- `map[string]any`.
abbrev pub Raw : Type 0
Raw = Dict String Value

-- An entry of a "tasks" array: an object, or anything else.
pub data Item : Type 0 where
  object : Raw → Item
  scalar : String → Item

-- What decoding the bytes of a file gives: an object with its other fields and its "tasks" array, if
-- the field is there as an array, or an error.
pub data Doc : Type 0 where
  document : Raw → Option (List Item) → Doc
  invalid : Doc

-- `s, _ := raw[key].(string)`: a missing field and one of another type read as the empty text.
abbrev text_of : Option Value → String
text_of (some (text s)) = s
text_of _ = ""

unfoldable pub get_text : Raw → String → String
get_text raw key = text_of (lookup key raw)

-- A text field of a struct: a missing one is empty, and one of another type is a decoding error.
abbrev decoded_text : Option Value → Option String
decoded_text none = some ""
decoded_text (some (text s)) = some s
decoded_text (some (texts l)) = none
decoded_text (some (json v)) = none

unfoldable pub decode_text : Raw → String → Option String
decode_text raw key = decoded_text (lookup key raw)

abbrev decoded_texts : Option Value → Option (List String)
decoded_texts none = some []
decoded_texts (some (texts l)) = some l
decoded_texts (some (text s)) = none
decoded_texts (some (json v)) = none

unfoldable pub decode_texts : Raw → String → Option (List String)
decode_texts raw key = decoded_texts (lookup key raw)

abbrev decoded_object : Option Value → Option (Option String)
decoded_object none = some none
decoded_object (some (json v)) = some (some v)
decoded_object (some (text s)) = none
decoded_object (some (texts l)) = none

unfoldable pub decode_object : Raw → String → Option (Option String)
decode_object raw key = decoded_object (lookup key raw)
