-- ===== src/Format/RoundTrip.antt =====
-- A message that is written is read back.
use agent_message_queue.Base.{
  ℕ, ◌≤◌, String, arith, ◌≡◌, ◌∙◌, ap, refl, false, some, [], ◌∷◌, ◌++◌, length, ltb,
}
use agent_message_queue.Fsq.Store.{Bytes}
use agent_message_queue.Fsq.Dlq.Format.{normalize_newlines}
use agent_message_queue.Fsq.Dlq.Format.RoundTrip.{HasNoCr, newlines_append, after_prefix-append}
use agent_message_queue.Format.{
  Header, Message, Json, ok, max_message_size, frontmatter_start, frontmatter_end, stamped,
  terminated, is_blank, trim_left, marshal_message, split_frontmatter, parse_message,
}

-- What `encoding/json` does with one header: a decoder takes its text off whatever follows it, the text
-- is read back, and holds no carriage return.
pub record Encodes (j : Json) (h : Header) (rest : Bytes) : Type 0 where
  pub decoded : j.decode (j.marshal h ++ rest) ≡ some (j.marshal h, rest)
  pub unmarshalled : j.unmarshal (j.marshal h) ≡ some h
  pub no_cr : HasNoCr (j.marshal h)

start_no_cr : HasNoCr frontmatter_start
start_no_cr = omega arith

end_no_cr : HasNoCr frontmatter_end
end_no_cr = omega arith

newlines-message :
    (header body : Bytes)
    → HasNoCr header
    → normalize_newlines (frontmatter_start ++ (header ++ (frontmatter_end ++ body)))
      ≡ frontmatter_start ++ (header ++ (frontmatter_end ++ normalize_newlines body))
newlines-message header body h =
    newlines_append frontmatter_start (header ++ (frontmatter_end ++ body)) start_no_cr
    ∙ ap (λ (t : Bytes). frontmatter_start ++ t)
        (newlines_append header (frontmatter_end ++ body) h
          ∙ ap (λ (t : Bytes). header ++ t) (newlines_append frontmatter_end body end_no_cr))

fence_trimmed : (body : Bytes) → trim_left (frontmatter_end ++ body) ≡ 45 ∷ 45 ∷ 45 ∷ 10 ∷ body
unfolding trim_left is_blank
fence_trimmed body = refl

small : {n k : ℕ} → n ≤ k → ltb k n ≡ false
small h = ground arith

-- A message that is written, within the size limit, is parsed back as its header with the defaults filled
-- in and its body with the last line ended and the line ends normalised, where the JSON of the header
-- round-trips.
pub parse_message-marshal_message :
    (j : Json) (now : String) (m : Message)
    → length (marshal_message j now m) ≤ max_message_size
    → Encodes j (stamped now m.header) (frontmatter_end ++ normalize_newlines (terminated m.body))
    → parse_message j (marshal_message j now m)
      ≡ ok (record { header = stamped now m.header; body = normalize_newlines (terminated m.body) })
unfolding parse_message split_frontmatter marshal_message
parse_message-marshal_message j now m fit e = ground (
  arith,
  small fit,
  e.decoded,
  e.unmarshalled,
  newlines-message (j.marshal (stamped now m.header)) (terminated m.body) e.no_cr,
  after_prefix-append frontmatter_start (
      j.marshal (stamped now m.header)
      ++ (frontmatter_end ++ normalize_newlines (terminated m.body))),
  fence_trimmed (normalize_newlines (terminated m.body)),
  after_prefix-append (45 ∷ 45 ∷ 45 ∷ 10 ∷ []) (normalize_newlines (terminated m.body)),
)
