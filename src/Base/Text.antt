-- ===== src/Base/Text.antt =====
-- The functions of Go's `strings` package that the program uses, over the code points of a text.
use Prim.Native.Nat.{ℕ, ◌+◌}
use mathlib.Core.Path.{◌≡◌, ap, ◌∙◌}
use native.Mathlib.Omega.{arith}
use Prim.Native.Char.{code}
use Prim.Native.String.{String, ◌++◌ as ◌<>◌}
use Prim.Native.String.append
use mathlib.Core.Bool.{Bool, true, false, ◌&&◌, ◌||◌}
use mathlib.Core.List.{List, [], ◌∷◌, ◌++◌, map, reverse}
use agent_message_queue.Base.Equality.{◌==◌, string_eq, codes_eq, eqb, leb, if◌then◌else◌}

abbrev pub codes : String → List ℕ
codes String.[] = []
codes (String.◌∷◌ c s) = code c ∷ codes s

pub codes-append : (s t : String) → codes (s <> t) ≡ codes s ++ codes t
codes-append String.[] t = λ i. codes (append.nil t i)
codes-append (String.◌∷◌ c s) t =
    (λ i. codes (append.cons c s t i)) ∙ ap (λ (l : List ℕ). code c ∷ l) (codes-append s t)

-- The white space of ASCII; the program's names hold no other.
unfoldable pub is_space : ℕ → Bool
is_space c = (leb 9 c && leb c 13) || eqb c 32

unfoldable pub trim_left : String → String
trim_left String.[] = ""
trim_left (String.◌∷◌ c s) =
    let rest = trim_left s in if is_space (code c) then rest else String.◌∷◌ c s

unfoldable pub trim_right : String → String
trim_right String.[] = ""
trim_right (String.◌∷◌ c s) =
    let rest = trim_right s in if rest == "" && is_space (code c) then "" else String.◌∷◌ c rest

-- `strings.TrimSpace`.
unfoldable pub trim_space : String → String
unfolding is_space trim_left trim_right
trim_space s = trim_right (trim_left s)

fold_case : ℕ → ℕ
fold_case c = if leb 65 c && leb c 90 then c + 32 else c

-- `strings.ToLower` on ASCII text, by its codes.
unfoldable pub to_lower : String → List ℕ
unfolding fold_case
to_lower s = map fold_case (codes s)

-- `strings.EqualFold` on ASCII text.
unfoldable pub equal_fold : String → String → Bool
unfolding fold_case
equal_fold s t = map fold_case (codes s) == map fold_case (codes t)

pub equal_fold-to_lower : (s t : String) → to_lower s ≡ to_lower t → equal_fold s t ≡ true
unfolding equal_fold to_lower
equal_fold-to_lower s t h = ground (arith, h)

pub equal_fold_refl : (s : String) → equal_fold s s ≡ true
unfolding equal_fold
equal_fold_refl s = ground arith

abbrev pub prefix_codes : List ℕ → List ℕ → Bool
prefix_codes s [] = true
prefix_codes [] (c ∷ p) = false
prefix_codes (d ∷ s) (c ∷ p) = eqb d c && prefix_codes s p

-- `strings.HasPrefix`.
unfoldable pub has_prefix : String → String → Bool
has_prefix s p = prefix_codes (codes s) (codes p)

abbrev pub contains_codes : List ℕ → List ℕ → Bool
contains_codes [] p = prefix_codes [] p
contains_codes (c ∷ s) p = prefix_codes (c ∷ s) p || contains_codes s p

-- `strings.Contains`.
unfoldable pub contains_text : String → String → Bool
contains_text s p = contains_codes (codes s) (codes p)

-- `strings.HasSuffix`.
unfoldable pub has_suffix : String → String → Bool
has_suffix s p = prefix_codes (reverse (codes s)) (reverse (codes p))

abbrev pub all_codes : (ℕ → Bool) → List ℕ → Bool
all_codes p [] = true
all_codes p (c ∷ s) = p c && all_codes p s
