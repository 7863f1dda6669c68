-- ===== src/Format/Sort.antt =====
-- message.go: the comparison by which `SortByTimestamp` sorts.
pub mod Order
use agent_message_queue.Base.{
  ℕ, String, Bool, true, false, ◌&&◌, Option, none, some, List, [], ◌∷◌, string_eq, ◌==◌, eqb, ltb,
  if◌then◌else◌,
}
use agent_message_queue.Base.Text.{codes}

-- `Timestamped`: the written time, the id, and the time that was read from it, in nanoseconds; the zero
-- time is none.
pub record Stamp : Type 0 where
  pub created : String
  pub id : String
  pub raw_time : Option ℕ

-- `<` on texts.
unfoldable pub codes_lt : List ℕ → List ℕ → Bool
codes_lt s [] = false
codes_lt [] (d ∷ t) = true
codes_lt (c ∷ s) (d ∷ t) = let later = codes_lt s t in if eqb c d then later else ltb c d

unfoldable pub string_lt : String → String → Bool
string_lt s t = codes_lt (codes s) (codes t)

by_created : Stamp → Stamp → Bool
by_created a b =
    if a.created == b.created then string_lt a.id b.id else string_lt a.created b.created

by_time : Stamp → Stamp → Option ℕ → Option ℕ → Bool
unfolding by_created
by_time a b (some s) (some t) = if eqb s t then string_lt a.id b.id else ltb s t
by_time a b (some s) none = by_created a b
by_time a b none u = by_created a b

-- The comparison of `SortByTimestamp`.
unfoldable pub less : Stamp → Stamp → Bool
unfolding by_time
less a b = by_time a b a.raw_time b.raw_time
