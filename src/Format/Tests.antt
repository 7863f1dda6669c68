-- ===== src/Format/Tests.antt =====
-- Messages at concrete inputs.
use agent_message_queue.Base.{
  ◌≡◌, refl, inl, inr, arith, true, none, some, Option, [], ◌∷◌, ◌++◌, codes_eq, string_eq,
}
use agent_message_queue.Fsq.Store.{Bytes}
use agent_message_queue.Fsq.Dlq.Format.{normalize_newlines, after_prefix}
use agent_message_queue.Fsq.Dlq.Format.RoundTrip.{HasNoCr}
use agent_message_queue.Format.{
  Header, Message, Json, ok, frontmatter_start, frontmatter_end, stamped, terminated, ends_line,
  trim_left, is_blank, marshal_message, split_frontmatter, parse_message, read_header,
}
use agent_message_queue.Format.RoundTrip.{Encodes, parse_message-marshal_message}
use agent_message_queue.Format.Sort.{Stamp, string_lt, codes_lt, less}
use agent_message_queue.Format.Sort.Order.{IsSorted, unreadable_unsorted}
use agent_message_queue.Format.Readers.{Agrees, readers_agree}

abbrev header : Header
header = record {
  schema = 1;
  id = "m1";
  from = "alice";
  to = "bob" ∷ [];
  thread = "p2p/alice__bob";
  subject = "";
  created = "2025-01-01T00:00:00Z";
  refs = [];
  priority = "";
  kind = "";
  labels = [];
  context = none;
  reply_to = "";
  reply_project = "";
  from_project = "";
}

abbrev braces : Bytes
braces = 123 ∷ 125 ∷ []

abbrev split_braces : Option Bytes → Option (Bytes × Bytes)
split_braces none = none
split_braces (some rest) = some (braces, rest)

-- An encoding that reads every header as the one above.
abbrev one : Json
one = record {
  marshal = λ h. braces;
  unmarshal = λ b. some header;
  decode = λ b. split_braces (after_prefix braces b);
}

abbrev note : Message
note = record { header = header; body = 104 ∷ 13 ∷ 10 ∷ 105 ∷ [] }

encodes :
    Encodes one
      (stamped "now" header)
      (frontmatter_end ++ normalize_newlines (terminated note.body))
unfolding after_prefix normalize_newlines stamped terminated ends_line string_eq codes_eq
encodes = record { decoded = refl; unmarshalled = refl; no_cr = omega arith }

parse_message-marshal_message_example :
    parse_message one (marshal_message one "now" note)
    ≡ ok
        (record { header = stamped "now" header; body = normalize_newlines (terminated note.body) })
unfolding marshal_message terminated ends_line
parse_message-marshal_message_example =
    parse_message-marshal_message one "now" note (omega arith) encodes

abbrev file : Bytes
file = frontmatter_start ++ (braces ++ (frontmatter_end ++ 104 ∷ 105 ∷ []))

abbrev hi : Message
hi = record { header = header; body = 104 ∷ 105 ∷ [] }

parsed : parse_message one file ≡ ok hi
unfolding parse_message split_frontmatter normalize_newlines after_prefix trim_left is_blank
parsed = refl

file_no_cr : HasNoCr file
file_no_cr = omega arith

readers_agree_example :
    ((m : Message) → parse_message one file ≡ ok m → read_header one file ≡ ok m.header)
    × ((h : Header) → read_header one file ≡ ok h → Agrees h (parse_message one file))
readers_agree_example = readers_agree one file file_no_cr

-- An hour of offset, and a time that cannot be read.
abbrev early : Stamp
early = record { created = "2025-01-01T10:00:00+05:00"; id = "a"; raw_time = some 5 }

abbrev late : Stamp
late = record { created = "2025-01-01T06:00:00Z"; id = "b"; raw_time = some 6 }

abbrev unread : Stamp
unread = record { created = "2025-01-01T08"; id = "c"; raw_time = none }

late_unread : string_lt late.created unread.created ≡ true
unfolding string_lt codes_lt
late_unread = refl

unread_early : string_lt unread.created early.created ≡ true
unfolding string_lt codes_lt
unread_early = refl

unreadable_unsorted_example : ¬ IsSorted (early ∷ late ∷ unread ∷ [])
unreadable_unsorted_example =
    unreadable_unsorted early late unread 5 6 (early ∷ late ∷ unread ∷ []) refl refl refl
      (omega arith) late_unread unread_early (inl refl) (inr (inl refl)) (inr (inr (inl refl)))

abbrev latest : Stamp
latest = record { created = "2025-01-01T06:00:00Z"; id = "c"; raw_time = some 6 }

first_two : less early late ≡ true
unfolding less
first_two = refl

last_two : less late latest ≡ true
unfolding less string_lt codes_lt
last_two = refl
