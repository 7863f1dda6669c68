-- ===== src/Format.antt =====
-- internal/format/message.go: a message file, its JSON header between two fence lines and its body.
-- The JSON of a header is the parameter `Json`.
pub mod RoundTrip
pub mod Sort
pub mod Agree
pub mod Readers
pub mod Tests
use agent_message_queue.Base.{
  ℕ, String, Bool, true, false, not, ◌&&◌, ◌||◌, Option, none, some, List, [], ◌∷◌, ◌++◌, length,
  take, eqb, leb, ltb, string_eq, codes_eq, ◌==◌, is_empty, contains, if◌then◌else◌,
}
use agent_message_queue.Fsq.Store.{Bytes}
use agent_message_queue.Fsq.Dlq.Format.{normalize_newlines, after_prefix}

-- `Header`. The context is its JSON text.
pub record Header : Type 0 where
  pub schema : ℕ
  pub id : String
  pub from : String
  pub to : List String
  pub thread : String
  pub subject : String
  pub created : String
  pub refs : List String
  pub priority : String
  pub kind : String
  pub labels : List String
  pub context : Option String
  pub reply_to : String
  pub reply_project : String
  pub from_project : String

pub record Message : Type 0 where
  pub header : Header
  pub body : Bytes

pub data FormatError : Type 0 where
  missing_start missing_end too_large bad_json : FormatError

pub data Parsed (A : Type 0) : Type 0 where
  ok : A → Parsed A
  err : FormatError → Parsed A

-- `json.MarshalIndent`, `json.Unmarshal`, and a decoder that takes one JSON value off the front of its
-- input: the value, and what follows it.
pub record Json : Type 0 where
  pub marshal : Header → Bytes
  pub unmarshal : Bytes → Option Header
  pub decode : Bytes → Option (Bytes × Bytes)

abbrev pub max_message_size : ℕ
max_message_size = 10485760

abbrev pub current_schema : ℕ
current_schema = 1

-- "---json", and with the end of its line.
abbrev pub start_line : Bytes
start_line = 45 ∷ 45 ∷ 45 ∷ 106 ∷ 115 ∷ 111 ∷ 110 ∷ []

abbrev pub frontmatter_start : Bytes
frontmatter_start = 45 ∷ 45 ∷ 45 ∷ 106 ∷ 115 ∷ 111 ∷ 110 ∷ 10 ∷ []

abbrev pub end_line : Bytes
end_line = 45 ∷ 45 ∷ 45 ∷ []

abbrev pub frontmatter_end : Bytes
frontmatter_end = 10 ∷ 45 ∷ 45 ∷ 45 ∷ 10 ∷ []

abbrev pub valid_priorities : List String
valid_priorities = "urgent" ∷ "normal" ∷ "low" ∷ []

abbrev pub valid_kinds : List String
valid_kinds =
    "brainstorm" ∷ "review_request" ∷ "review_response" ∷ "question" ∷ "answer" ∷ "decision"
    ∷ "status" ∷ "todo" ∷ []

unfoldable pub is_valid_priority : String → Bool
is_valid_priority p = p == "" || contains valid_priorities p

unfoldable pub is_valid_kind : String → Bool
is_valid_kind k = k == "" || contains valid_kinds k

-- Whether the last byte is a newline.
unfoldable pub ends_line : Bytes → Bool
ends_line [] = false
ends_line (c ∷ []) = eqb c 10
ends_line (c ∷ d ∷ s) = ends_line (d ∷ s)

-- The body that is written: one that is not empty ends its last line.
unfoldable pub terminated : Bytes → Bytes
terminated body = if is_empty body || ends_line body then body else body ++ 10 ∷ []

-- A blank of `bytes.TrimLeft(rest, " \t\r\n")`.
unfoldable pub is_blank : ℕ → Bool
is_blank c = eqb c 32 || (eqb c 9 || (eqb c 13 || eqb c 10))

unfoldable pub trim_left : Bytes → Bytes
trim_left [] = []
trim_left (c ∷ s) = let rest = trim_left s in if is_blank c then rest else c ∷ s

-- The complete lines of a text, without their ends, and what follows the last newline.
unfoldable pub lines : Bytes → List Bytes × Bytes
lines [] = ([], [])
lines (c ∷ s) =
    let rest = lines s in
    if eqb c 10
    then ([] ∷ rest.0, rest.1)
    else elim rest.0 [ [] ↦ ([], c ∷ rest.1) | l ∷ ls ↦ ((c ∷ l) ∷ ls, rest.1) ]

-- The white space of `strings.TrimSpace`.
unfoldable pub is_space : ℕ → Bool
is_space c = (leb 9 c && leb c 13) || eqb c 32

unfoldable pub trim_end : (ℕ → Bool) → Bytes → Bytes
trim_end p [] = []
trim_end p (c ∷ s) = let rest = trim_end p s in if is_empty rest && p c then [] else c ∷ rest

unfoldable pub trim_front : (ℕ → Bool) → Bytes → Bytes
trim_front p [] = []
trim_front p (c ∷ s) = let rest = trim_front p s in if p c then rest else c ∷ s

unfoldable pub trim_line : Bytes → Bytes
trim_line l = trim_end is_space (trim_front is_space l)

-- `consumeFrontmatterEnd`, over the complete lines: blank ones are skipped.
unfoldable pub consume_end : List Bytes → Bool
consume_end [] = false
consume_end (l ∷ ls) =
    let later = consume_end ls in if trim_line l == [] then later else trim_line l == end_line

-- The line end that `strings.TrimRight(line, "\r\n")` takes off a line without its newline.
unfoldable pub is_return : ℕ → Bool
is_return c = eqb c 13

-- `ReadString('\n')`: the line without its newline, and the rest; none at the end of the file.
unfoldable pub read_line : Bytes → Option (Bytes × Bytes)
read_line [] = none
read_line (c ∷ s) =
    let later = read_line s in
    if eqb c 10
    then some ([], s)
    else elim later [ none ↦ none | some (l, rest) ↦ some (c ∷ l, rest) ]

-- The defaults of a header that is written: its schema, and the time.
unfoldable pub stamped : String → Header → Header
stamped now h = record h {
  schema = if eqb h.schema 0 then current_schema else h.schema;
  created = if h.created == "" then now else h.created;
}

module _ (j : Json) where
  -- `Message.Marshal`.
  unfoldable pub marshal_message : String → Message → Bytes
  marshal_message now m =
      frontmatter_start
      ++ (j.marshal (stamped now m.header) ++ (frontmatter_end ++ terminated m.body))

  ended : Bytes → Option Bytes → Parsed (Bytes × Bytes)
  ended header none = err missing_end
  ended header (some body) = ok (header, body)

  decoded : Option (Bytes × Bytes) → Parsed (Bytes × Bytes)
  unfolding ended
  decoded none = err bad_json
  decoded (some (header, rest)) =
      ended header (after_prefix (45 ∷ 45 ∷ 45 ∷ 10 ∷ []) (trim_left rest))

  started : Option Bytes → Parsed (Bytes × Bytes)
  unfolding decoded
  started none = err missing_start
  started (some payload) = decoded (j.decode payload)

  -- `splitFrontmatter`.
  unfoldable pub split_frontmatter : Bytes → Parsed (Bytes × Bytes)
  unfolding started
  split_frontmatter data' =
      if ltb max_message_size (length data')
      then err too_large
      else started (after_prefix frontmatter_start (normalize_newlines data'))

  with_header : Bytes → Option Header → Parsed Message
  with_header body none = err bad_json
  with_header body (some h) = ok (record { header = h; body = body })

  parsed_parts : Parsed (Bytes × Bytes) → Parsed Message
  unfolding with_header
  parsed_parts (err e) = err e
  parsed_parts (ok (header, body)) = with_header body (j.unmarshal header)

  -- `ParseMessage`.
  unfoldable pub parse_message : Bytes → Parsed Message
  unfolding parsed_parts
  parse_message data' = parsed_parts (split_frontmatter data')

  header_parts : Parsed (Bytes × Bytes) → Parsed Header
  header_parts (err e) = err e
  header_parts (ok (header, body)) = elim (j.unmarshal header) [
    | none ↦ err bad_json
    | some h ↦ ok h
  ]

  -- `ParseHeader`.
  unfoldable pub parse_header : Bytes → Parsed Header
  unfolding header_parts
  parse_header data' = header_parts (split_frontmatter data')

  finished : Bytes → Option Header → Parsed Header
  finished rest none = err bad_json
  finished rest (some h) = if consume_end (lines rest).0 then ok h else err missing_end

  streamed : Option (Bytes × Bytes) → Parsed Header
  unfolding finished
  streamed none = err bad_json
  streamed (some (header, rest)) = finished rest (j.unmarshal header)

  -- The first line of a stream, and whether it was complete.
  first_line : Option (Bytes × Bytes) → Bytes → Parsed Header
  unfolding streamed
  first_line none data' =
      if trim_end is_return data' == start_line then err missing_end else err missing_start
  first_line (some (line, rest)) data' =
      if trim_end is_return line == start_line then streamed (j.decode rest) else err missing_start

  -- `ReadHeader`; the limited reader hides what lies beyond the maximal size.
  unfoldable pub read_header : Bytes → Parsed Header
  unfolding first_line
  read_header data' = let seen = take max_message_size data' in first_line (read_line seen) seen
