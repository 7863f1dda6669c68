-- ===== src/Format/Readers.antt =====
-- message.go: how far the stream reader of a header and the parser of a whole message agree.
use agent_message_queue.Base.{
  arith, ◌≡◌, ◌∙◌, sym, ap, refl, true, Option, none, some, [], ◌∷◌, ◌++◌, length, ltb, codes_eq,
  Bool-cases, Option-cases, inl, inr, ◌⊎◌, ◌==◌,
}
use agent_message_queue.Fsq.Store.{Bytes}
use agent_message_queue.Fsq.Dlq.Format.{after_prefix}
use agent_message_queue.Fsq.Dlq.Format.RoundTrip.{HasNoCr}
use agent_message_queue.Format.Agree.{no_cr_same, take_all, fits, read_header-parse_message}
use agent_message_queue.Format.{
  Header, Message, Parsed, Json, missing_end, ok, err, max_message_size, frontmatter_start,
  parsed_parts, with_header, ended, decoded, started, finished, streamed, first_line, too_large,
  start_line, is_return, trim_end, read_line, split_frontmatter, parse_message, read_header,
}

-- What the parser of whole messages may make of a file whose header the stream reader has read.
abbrev pub Agrees : Header → Parsed Message → Type 0
Agrees h (ok m) = m.header ≡ h
Agrees h (err e) = (e ≡ missing_end) ⊎ (e ≡ too_large)

read_line_inv : (s line rest : Bytes) → read_line s ≡ some (line, rest) → s ≡ line ++ 10 ∷ rest
unfolding read_line
read_line_inv [] line rest h = cc h
read_line_inv (c ∷ s) line rest h = elim (Option-cases (read_line s)) [
  | inl n ↦ ground (arith, n, h)
  | inr ((l, r), e) ↦ ground (arith, h, e, read_line_inv s l r e)
]

HasNoCr-left : (s t : Bytes) → HasNoCr (s ++ t) → HasNoCr s
HasNoCr-left [] t h = tt
HasNoCr-left (c ∷ s) t (n, h) = (n, HasNoCr-left s t h)

no_return : (s : Bytes) → HasNoCr s → trim_end is_return s ≡ s
unfolding trim_end is_return
no_return [] h = refl
no_return (c ∷ s) (n, h) = ground (arith, no_return s h, n)

after_start : (rest : Bytes) → after_prefix frontmatter_start (start_line ++ 10 ∷ rest) ≡ some rest
unfolding after_prefix
after_start rest = refl

same_line : (s t : Bytes) → s == t ≡ true → s ≡ t
same_line s t h = ground arith

module _ (j : Json) (h : Header) where
  body-Agrees :
      (raw rest : Bytes) (u : Option Header) (o : Option Bytes)
      → j.unmarshal raw ≡ u
      → finished j rest u ≡ ok h
      → Agrees h (parsed_parts j (ended j raw o))
  unfolding parsed_parts ended finished with_header
  body-Agrees raw rest none o e k = cc k
  body-Agrees raw rest (some hd) none e k = inl refl
  body-Agrees raw rest (some hd) (some body) e k = rw e (ground arith)

  value-Agrees :
      (o : Option (Bytes × Bytes)) → streamed j o ≡ ok h → Agrees h (parsed_parts j (decoded j o))
  unfolding decoded streamed
  value-Agrees none k = cc k
  value-Agrees (some (raw, rest)) k = body-Agrees raw rest (j.unmarshal raw) _ refl k

  line-Agrees :
      (data' : Bytes) (o : Option (Bytes × Bytes))
      → HasNoCr data'
      → read_line data' ≡ o
      → first_line j o data' ≡ ok h
      → Agrees h (parsed_parts j (started j (after_prefix frontmatter_start data')))
  unfolding first_line started
  line-Agrees data' none n e k = absurd (ground arith)
  line-Agrees data' (some (line, rest)) n e k =
      elim (Bool-cases (trim_end is_return line == start_line)) [
        | inl b ↦
            let whole : data' ≡ line ++ 10 ∷ rest = read_line_inv data' line rest e in
            let own : line ≡ start_line =
              sym (no_return line (HasNoCr-left line (10 ∷ rest) (rw whole at n)))
              ∙ same_line (trim_end is_return line) start_line b in
            let there : after_prefix frontmatter_start data' ≡ some rest =
              ap (after_prefix frontmatter_start) (whole ∙ ap (λ (l : Bytes). l ++ 10 ∷ rest) own)
              ∙ after_start rest in
            rw there (value-Agrees (j.decode rest) (rw b at k))
        | inr b ↦ absurd (ground (arith, b, k))
      ]

-- The two readers of a file without carriage returns agree. A message that the parser of whole messages
-- accepts has the header that the stream reader reads. A header that the stream reader reads is that of
-- the message, unless the parser refuses the file for its size or for the end of its frontmatter.
pub readers_agree :
    (j : Json) (data' : Bytes)
    → HasNoCr data'
    → ((m : Message) → parse_message j data' ≡ ok m → read_header j data' ≡ ok m.header)
      × ((h : Header) → read_header j data' ≡ ok h → Agrees h (parse_message j data'))
unfolding parse_message split_frontmatter read_header
readers_agree j data' n = (λ m. read_header-parse_message j data' m n, reads)
  where
    reads : (h : Header) → read_header j data' ≡ ok h → Agrees h (parse_message j data')
    reads h k = elim (Bool-cases (ltb max_message_size (length data'))) [
      | inl large ↦ rw large (unfold parsed_parts in inr refl)
      | inr small ↦
          rw (small, no_cr_same data' n)
            (line-Agrees j h data' (read_line data') n refl
              (rw (take_all max_message_size data' (fits small)) at k))
    ]
