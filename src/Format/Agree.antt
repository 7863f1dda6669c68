-- ===== src/Format/Agree.antt =====
-- message.go: the stream reader of a header reads what the parser of a whole message accepts.
use native.Mathlib.Decide.{ℕ_discrete}
use agent_message_queue.Base.{
  ℕ, zero, suc, ◌≤◌, arith, ◌≡◌, ◌≢◌, ◌∙◌, sym, ap, refl, true, false, Option, none, some, List, [],
  ◌∷◌, ◌++◌, length, take, ltb, eqb, codes_eq, Bool-cases, inl, inr, ◌==◌,
}
use agent_message_queue.Fsq.Store.{Bytes}
use agent_message_queue.Fsq.Dlq.Format.{normalize_newlines, after_prefix}
use agent_message_queue.Fsq.Dlq.Format.RoundTrip.{HasNoCr, newlines_cons}
use agent_message_queue.Format.{
  Message, Json, ok, err, max_message_size, frontmatter_start, parsed_parts, with_header, ended,
  decoded, started, finished, streamed, first_line, too_large, start_line, is_blank, is_space,
  is_return, trim_left, lines, trim_line, trim_front, trim_end, consume_end, read_line,
  split_frontmatter, parse_message, read_header,
}

pub no_cr_same : (s : Bytes) → HasNoCr s → normalize_newlines s ≡ s
unfolding normalize_newlines
no_cr_same [] h = refl
no_cr_same (c ∷ s) (n, h) = newlines_cons c s n ∙ ap (λ (t : Bytes). c ∷ t) (no_cr_same s h)

pub after_prefix_inv : (p s r : Bytes) → after_prefix p s ≡ some r → s ≡ p ++ r
unfolding after_prefix
after_prefix_inv [] s r h = cc h
after_prefix_inv (c ∷ p) [] r h = cc h
after_prefix_inv (c ∷ p) (d ∷ s) r h = ground (arith, after_prefix_inv p s r)

pub take_all : (n : ℕ) (s : Bytes) → length s ≤ n → take n s ≡ s
take_all zero [] h = refl
take_all (suc n) [] h = refl
take_all zero (c ∷ s) h = absurd (omega arith)
take_all (suc n) (c ∷ s) h = ap (λ (t : Bytes). c ∷ t) (take_all n s (omega arith))

start_read :
    (payload : Bytes) → read_line (frontmatter_start ++ payload) ≡ some (start_line, payload)
unfolding read_line
start_read payload = refl

fence_read : (body : Bytes) → consume_end (lines (45 ∷ 45 ∷ 45 ∷ 10 ∷ body)).0 ≡ true
unfolding consume_end lines trim_line trim_front trim_end is_space codes_eq ℕ_discrete
fence_read body = refl

blank_line : (ls : List Bytes) → consume_end ([] ∷ ls) ≡ consume_end ls
unfolding consume_end trim_line trim_front trim_end codes_eq ℕ_discrete
blank_line ls = refl

blank_trim : (c : ℕ) (l : Bytes) → is_space c ≡ true → trim_line (c ∷ l) ≡ trim_line l
unfolding trim_line trim_front
blank_trim c l h = ground arith

blank_byte :
    (c : ℕ) (l : Bytes) (ls : List Bytes)
    → is_space c ≡ true
    → consume_end ((c ∷ l) ∷ ls) ≡ consume_end (l ∷ ls)
unfolding consume_end
blank_byte c l ls h = ground (arith, blank_trim c l h)

blank-space : (c : ℕ) → is_blank c ≡ true → is_space c ≡ true
unfolding is_blank is_space
blank-space c h = ground arith

lines_cons :
    (c : ℕ) (s : Bytes)
    → eqb c 10 ≡ false
    → consume_end (lines s).0 ≡ true
    → (l : Bytes) × (ls : List Bytes) × ((lines s).0 ≡ l ∷ ls) × ((lines (c ∷ s)).0 ≡ (c ∷ l) ∷ ls)
unfolding lines consume_end
lines_cons c s n h = split (lines s).0 refl h
  where
    split :
        (ls : List Bytes)
        → (lines s).0 ≡ ls
        → consume_end ls ≡ true
        → (l : Bytes) × (ls' : List Bytes) × ((lines s).0 ≡ l ∷ ls')
          × ((lines (c ∷ s)).0 ≡ (c ∷ l) ∷ ls')
    split [] e h = cc h
    split (l ∷ ls') e h = (l, ls', e, ground (arith, e, n))

lines_newline : (c : ℕ) (s : Bytes) → eqb c 10 ≡ true → (lines (c ∷ s)).0 ≡ [] ∷ (lines s).0
unfolding lines
lines_newline c s h = ground arith

skip_blank :
    (c : ℕ) (s : Bytes)
    → is_space c ≡ true
    → consume_end (lines s).0 ≡ true
    → consume_end (lines (c ∷ s)).0 ≡ true
skip_blank c s b h = elim (Bool-cases (eqb c 10)) [
  | inl yes' ↦ ap consume_end (lines_newline c s yes') ∙ blank_line (lines s).0 ∙ h
  | inr no' ↦
      let (l, ls, e, e') = lines_cons c s no' h in
      ap consume_end e' ∙ blank_byte c l ls b ∙ ap consume_end (sym e) ∙ h
]

fence_found :
    (rest body : Bytes)
    → trim_left rest ≡ 45 ∷ 45 ∷ 45 ∷ 10 ∷ body
    → consume_end (lines rest).0 ≡ true
unfolding trim_left
fence_found [] body h = cc h
fence_found (c ∷ s) body h = elim (Bool-cases (is_blank c)) [
  | inl b ↦ skip_blank c s (blank-space c b) (fence_found s body (rw b at h))
  | inr n ↦
      let e : c ∷ s ≡ 45 ∷ 45 ∷ 45 ∷ 10 ∷ body = rw n at h in
      ap (λ (t : Bytes). consume_end (lines t).0) e ∙ fence_read body
]

start_matches : trim_end is_return start_line == start_line ≡ true
unfolding trim_end is_return codes_eq ℕ_discrete
start_matches = refl

too_large_fails : (j : Json) (m : Message) → parsed_parts j (err too_large) ≢ ok m
unfolding parsed_parts
too_large_fails j m h = cc h

pub fits : {n k : ℕ} → ltb n k ≡ false → k ≤ n
fits h = ground arith

module _ (j : Json) (m : Message) where
  body_read :
      (raw rest : Bytes) (o : Option Bytes)
      → after_prefix (45 ∷ 45 ∷ 45 ∷ 10 ∷ []) (trim_left rest) ≡ o
      → parsed_parts j (ended j raw o) ≡ ok m
      → finished j rest (j.unmarshal raw) ≡ ok m.header
  unfolding parsed_parts ended finished with_header
  body_read raw rest none e h = cc h
  body_read raw rest (some body) e h =
      ground (arith, h, fence_found rest body (after_prefix_inv _ (trim_left rest) body e))

  value_read :
      (o : Option (Bytes × Bytes))
      → parsed_parts j (decoded j o) ≡ ok m
      → streamed j o ≡ ok m.header
  unfolding decoded streamed parsed_parts
  value_read none h = cc h
  value_read (some (raw, rest)) h = body_read raw rest _ refl h

  start_found :
      (data' : Bytes) (o : Option Bytes)
      → after_prefix frontmatter_start data' ≡ o
      → parsed_parts j (started j o) ≡ ok m
      → first_line j (read_line data') data' ≡ ok m.header
  unfolding started parsed_parts first_line
  start_found data' none e h = cc h
  start_found data' (some payload) e h =
      ap (λ (d : Bytes). first_line j (read_line d) d)
        (after_prefix_inv frontmatter_start data' payload e)
      ∙ ground (arith, start_read payload, start_matches, value_read (j.decode payload) h)

-- The stream reader of a header accepts every message that the parser of whole messages accepts, and
-- reads the same header, where the file has no carriage return.
pub read_header-parse_message :
    (j : Json) (data' : Bytes) (m : Message)
    → HasNoCr data'
    → parse_message j data' ≡ ok m
    → read_header j data' ≡ ok m.header
unfolding parse_message split_frontmatter read_header
read_header-parse_message j data' m n h = elim (Bool-cases (ltb max_message_size (length data'))) [
  | inl large ↦ absurd (too_large_fails j m (rw large at h))
  | inr small ↦
      ap (λ (d : Bytes). first_line j (read_line d) d)
        (take_all max_message_size data' (fits small))
      ∙ start_found j m data' _ refl (
          ap (λ (d : Bytes). parsed_parts j (started j (after_prefix frontmatter_start d)))
            (sym (no_cr_same data' n))
          ∙ (rw small at h))
]
