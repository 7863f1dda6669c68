-- ===== src/Receipt/Listing.antt =====
-- The listing of receipts hides none that the filter asks for.
use agent_message_queue.Base.{
  ℕ, String, ◌<>◌, arith, ◌≡◌, ◌∙◌, ◌⊎◌, sym, ap, refl, true, false, some, List, [], ◌∷◌, ◌++◌,
  string_eq,
}
use text.Mathlib.TextLemmas.{append_assoc}
use mathlib.Core.List.{reverse, reverse-append}
use agent_message_queue.Base.Text.{
  codes, codes-append, has_prefix, has_suffix, contains_text, prefix_codes, contains_codes,
}
use agent_message_queue.Receipt.{
  Receipt, ListFilter, Entry, receipt_name, filename, may_match, list_entries,
}

prefix_codes-append : (p s : List ℕ) → prefix_codes (p ++ s) p ≡ true
prefix_codes-append [] [] = refl
prefix_codes-append [] (c ∷ s) = refl
prefix_codes-append (c ∷ p) s = ground (arith, prefix_codes-append p s)

contains_codes-append : (a p s : List ℕ) → contains_codes (a ++ (p ++ s)) p ≡ true
contains_codes-append [] [] [] = refl
contains_codes-append [] [] (d ∷ s) = refl
contains_codes-append [] (c ∷ p) s = ground (arith, prefix_codes-append (c ∷ p) s)
contains_codes-append (c ∷ a) p s = ground (arith, contains_codes-append a p s)

starts : (p s : String) → has_prefix (p <> s) p ≡ true
unfolding has_prefix
starts p s = rw (codes-append p s) (prefix_codes-append (codes p) (codes s))

ends : (s p : String) → has_suffix (s <> p) p ≡ true
unfolding has_suffix
ends s p = rw (codes-append s p) (
    rw (reverse-append (codes s) (codes p))
      (prefix_codes-append (reverse (codes p)) (reverse (codes s))))

inside : (a p s : String) → contains_text (a <> (p <> s)) p ≡ true
unfolding contains_text
inside a p s =
    rw (codes-append a (p <> s))
      (rw (codes-append p s) (contains_codes-append (codes a) (codes p) (codes s)))

prefix_name : (c : Receipt) → has_prefix (filename c) (c.msg_id <> "__") ≡ true
unfolding filename receipt_name
prefix_name c =
    ap (λ (t : String). has_prefix t (c.msg_id <> "__")) (sym (append_assoc c.msg_id "__" _))
    ∙ starts (c.msg_id <> "__") _

suffix_name : (c : Receipt) → has_suffix (filename c) ("__" <> (c.stage <> ".json")) ≡ true
unfolding filename receipt_name
suffix_name c =
    ap (λ (t : String). has_suffix t ("__" <> (c.stage <> ".json")))
      (sym (
        append_assoc c.msg_id ("__" <> c.consumer) _
        ∙ ap (λ (t : String). c.msg_id <> t) (append_assoc "__" c.consumer _)))
    ∙ ends (c.msg_id <> ("__" <> c.consumer)) ("__" <> (c.stage <> ".json"))

json_name : (c : Receipt) → has_suffix (filename c) ".json" ≡ true
unfolding filename receipt_name
json_name c =
    ap (λ (t : String). has_suffix t ".json")
      (sym (
        append_assoc c.msg_id ("__" <> (c.consumer <> ("__" <> c.stage))) ".json"
        ∙ ap (λ (t : String). c.msg_id <> t)
            (append_assoc "__" (c.consumer <> ("__" <> c.stage)) ".json"
              ∙ ap (λ (t : String). "__" <> t)
                  (append_assoc c.consumer ("__" <> c.stage) ".json"
                    ∙ ap (λ (t : String). c.consumer <> t) (append_assoc "__" c.stage ".json")))))
    ∙ ends (c.msg_id <> ("__" <> (c.consumer <> ("__" <> c.stage)))) ".json"

consumer_name : (c : Receipt) → contains_text (filename c) ("__" <> (c.consumer <> "__")) ≡ true
unfolding filename receipt_name
consumer_name c =
    ap (λ (t : String). contains_text t ("__" <> (c.consumer <> "__")))
      (ap (λ (t : String). c.msg_id <> t)
        (sym (
          append_assoc "__" (c.consumer <> "__") _
          ∙ ap (λ (t : String). "__" <> t) (append_assoc c.consumer "__" _))))
    ∙ inside c.msg_id ("__" <> (c.consumer <> "__")) (c.stage <> ".json")

-- A filter asks for the receipt: each of its fields is empty or that of the receipt.
pub record Asks (f : ListFilter) (c : Receipt) : Type 0 where
  pub msg_id : (f.msg_id ≡ "") ⊎ (f.msg_id ≡ c.msg_id)
  pub consumer : (f.consumer ≡ "") ⊎ (f.consumer ≡ c.consumer)
  pub stage : (f.stage ≡ "") ⊎ (f.stage ≡ c.stage)

matches : (f : ListFilter) (c : Receipt) → Asks f c → may_match f (filename c) ≡ true
unfolding may_match
matches f c a = ground (arith, prefix_name c, suffix_name c, consumer_name c)

-- The listing hides no receipt that its filter asks for: the receipt of an entry that carries the name of
-- its receipt stands in the list, between the receipts of the entries before and after.
pub list_entries_complete :
    (f : ListFilter) (c : Receipt) (e : Entry) (before after : List Entry)
    → e.name ≡ filename c
    → e.is_dir ≡ false
    → e.content ≡ some c
    → Asks f c
    → list_entries f (before ++ e ∷ after) ≡ list_entries f before ++ c ∷ list_entries f after
unfolding list_entries
list_entries_complete f c e [] after n d k a = ground (arith, json_name c, matches f c a)
list_entries_complete f c e (b ∷ before) after n d k a =
    ground (arith, list_entries_complete f c e before after n d k a)
