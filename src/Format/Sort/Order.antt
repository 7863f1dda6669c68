-- ===== src/Format/Sort/Order.antt =====
-- Where the comparison of messages is an order, and where it is not.
use agent_message_queue.Base.{
  ℕ, ◌<◌, String, arith, ◌≡◌, ◌≢◌, refl, Bool, true, false, Option, none, some, List, [], ◌∷◌,
  string_eq, Bool-cases, inl, inr, ◌⊎◌, All,
}
use agent_message_queue.Base.Text.{codes}
use agent_message_queue.Format.Sort.{Stamp, codes_lt, string_lt, by_created, by_time, less}

codes_lt_irrefl : (s : List ℕ) → codes_lt s s ≡ false
unfolding codes_lt
codes_lt_irrefl [] = refl
codes_lt_irrefl (c ∷ s) = ground (arith, codes_lt_irrefl s)

codes_lt_trans : (s t u : List ℕ) → codes_lt s t ≡ true → codes_lt t u ≡ true → codes_lt s u ≡ true
unfolding codes_lt
codes_lt_trans s t [] h k = cc k
codes_lt_trans s [] (e ∷ u) h k = absurd (ground arith)
codes_lt_trans [] (d ∷ t) (e ∷ u) h k = refl
codes_lt_trans (c ∷ s) (d ∷ t) (e ∷ u) h k = ground (arith, codes_lt_trans s t u)

codes_lt_total : (s t : List ℕ) → codes_lt s t ≡ false → codes_lt t s ≡ false → s ≡ t
unfolding codes_lt
codes_lt_total [] [] h k = refl
codes_lt_total [] (d ∷ t) h k = cc h
codes_lt_total (c ∷ s) [] h k = cc k
codes_lt_total (c ∷ s) (d ∷ t) h k = ground (arith, codes_lt_total s t)

lt-ne : (s t : String) → string_lt s t ≡ true → s ≢ t
unfolding string_lt
lt-ne s t h e = ground (arith, codes_lt_irrefl (codes s), e)

lt_trans : (s t u : String) → string_lt s t ≡ true → string_lt t u ≡ true → string_lt s u ≡ true
unfolding string_lt
lt_trans s t u h k = codes_lt_trans (codes s) (codes t) (codes u) h k

lt_asymm : (s t : String) → string_lt s t ≡ true → string_lt t s ≡ false
lt_asymm s t h = elim (Bool-cases (string_lt t s)) [
  | inl k ↦ absurd (lt-ne s s (lt_trans s t s h k) refl)
  | inr k ↦ k
]

-- No message stands after one that it is less than: what a sort leaves.
abbrev pub IsSorted : List Stamp → Type 0
IsSorted [] = Unit {0}
IsSorted (a ∷ rest) = All (λ b. less b a ≡ false) rest × IsSorted rest

-- A message is in a list.
abbrev pub In : Stamp → List Stamp → Type 0
In a [] = ⊥
In a (x ∷ rest) = (a ≡ x) ⊎ In a rest

less_irrefl : (a : Stamp) → less a a ≡ false
unfolding less by_time by_created
less_irrefl a = irrefl a.raw_time
  where
    same : string_lt a.id a.id ≡ false
    same = elim (Bool-cases (string_lt a.id a.id)) [
      | inl h ↦ absurd (lt-ne a.id a.id h refl)
      | inr h ↦ h
    ]

    irrefl : (t : Option ℕ) → by_time a a t t ≡ false
    irrefl none = ground (arith, same)
    irrefl (some t) = ground (arith, same)

later_not_less :
    (x y : Stamp) (rest : List Stamp)
    → All (λ b. less b x ≡ false) rest
    → In y rest
    → less y x ≡ false
later_not_less x y [] h m = elim m [ ]
later_not_less x y (z ∷ rest) (h, hs) (inl e) = rw e h
later_not_less x y (z ∷ rest) (h, hs) (inr m) = later_not_less x y rest hs m

first_least :
    (x y : Stamp) (rest : List Stamp) → IsSorted (x ∷ rest) → In y (x ∷ rest) → less y x ≡ false
first_least x y rest h (inl e) = rw e (less_irrefl x)
first_least x y rest h (inr m) = later_not_less x y rest h.0 m

not_first :
    (x y z : Stamp) (rest : List Stamp)
    → IsSorted (x ∷ rest)
    → In y (x ∷ rest)
    → less y z ≡ true
    → z ≢ x
not_first x y z rest h m l e = ground (arith, first_least x y rest h m, l, e)

circle_unsorted :
    (a b c : Stamp) (l : List Stamp)
    → (less a b ≡ true) × (less b c ≡ true) × (less c a ≡ true)
    → In a l
    → In b l
    → In c l
    → ¬ IsSorted l
circle_unsorted a b c [] k p q r h = elim p [ ]
circle_unsorted a b c (x ∷ rest) k (inl e) q r h = not_first x c a rest h r k.2 e
circle_unsorted a b c (x ∷ rest) k (inr p) (inl e) r h = not_first x a b rest h (inr p) k.0 e
circle_unsorted a b c (x ∷ rest) k (inr p) (inr q) (inl e) h = not_first x b c rest h (inr q) k.1 e
circle_unsorted a b c (x ∷ rest) k (inr p) (inr q) (inr r) h =
    circle_unsorted a b c rest k p q r h.1

circle :
    (a b c : Stamp) (s t : ℕ)
    → a.raw_time ≡ some s
    → b.raw_time ≡ some t
    → c.raw_time ≡ none
    → s < t
    → string_lt b.created c.created ≡ true
    → string_lt c.created a.created ≡ true
    → (less a b ≡ true) × (less b c ≡ true) × (less c a ≡ true)
unfolding less by_time by_created
circle a b c s t ha hb hc lt bc ca = (
  ground arith,
  ground (arith, lt-ne b.created c.created bc),
  ground (arith, lt-ne c.created a.created ca),
)

-- A list of messages has no sorted arrangement if it holds three of which two have readable times, one
-- before the other, and the third none, and the text of its time is between theirs, which stand the other
-- way round: any list with these three has a message before one that is less than it.
pub unreadable_unsorted :
    (a b c : Stamp) (s t : ℕ) (l : List Stamp)
    → a.raw_time ≡ some s
    → b.raw_time ≡ some t
    → c.raw_time ≡ none
    → s < t
    → string_lt b.created c.created ≡ true
    → string_lt c.created a.created ≡ true
    → In a l
    → In b l
    → In c l
    → ¬ IsSorted l
unreadable_unsorted a b c s t l ha hb hc lt bc ca =
    circle_unsorted a b c l (circle a b c s t ha hb hc lt bc ca)

-- Whether the time of a message was read.
abbrev pub is_some : Option ℕ → Bool
is_some none = false
is_some (some t) = true

order :
    (a b c : Stamp) (s t u : Option ℕ)
    → is_some s ≡ is_some t
    → is_some t ≡ is_some u
    → by_time a b s t ≡ true
    → by_time b c t u ≡ true
    → (by_time a c s u ≡ true) × (by_time c a u s ≡ false)
unfolding by_time by_created
order a b c none none none e f h k = ground (
  arith,
  lt_trans a.created b.created c.created,
  lt-ne a.created c.created,
  lt-ne a.created b.created,
  lt_asymm a.created c.created,
  lt_trans a.id b.id c.id,
  lt_asymm a.id c.id,
)
order a b c (some s) (some t) (some u) e f h k =
    ground (arith, lt_trans a.id b.id c.id, lt_asymm a.id c.id)
order a b c none (some t) u e f h k = cc e
order a b c (some s) none u e f h k = cc e
order a b c none none (some u) e f h k = cc f
order a b c (some s) (some t) none e f h k = cc f

-- Among messages whose times were all read, and among those of which none was, the comparison is a strict
-- order: it is transitive, and what comes later is not less.
pub less_order :
    (a b c : Stamp)
    → is_some a.raw_time ≡ is_some b.raw_time
    → is_some b.raw_time ≡ is_some c.raw_time
    → less a b ≡ true
    → less b c ≡ true
    → (less a c ≡ true) × (less c a ≡ false)
unfolding less
less_order a b c e f h k = order a b c a.raw_time b.raw_time c.raw_time e f h k
