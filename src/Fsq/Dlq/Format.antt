-- ===== src/Fsq/Dlq/Format.antt =====
-- dlq.go: the file of an envelope, its header between two fence lines and then the original content.
-- The JSON of the header is the parameter `Codec`.
pub mod RoundTrip
use agent_message_queue.Base.{
  ℕ, ◌+◌, arith, ◌≡◌, refl, Bool, true, false, ◌&&◌, Option, none, some, List, [], ◌∷◌, ◌++◌, eqb,
  if◌then◌else◌,
}
use agent_message_queue.Fsq.Store.{Bytes}
use agent_message_queue.Fsq.Dlq.{
  Envelope, EnvelopeError, Checked, valid, refused, normalize_retry_state,
}

-- `json.MarshalIndent` and `json.Unmarshal` of an envelope.
pub record Codec : Type 0 where
  pub encode : Envelope → Bytes
  pub decode : Bytes → Option Envelope

abbrev pub fence_start : Bytes
fence_start = 45 ∷ 45 ∷ 45 ∷ 10 ∷ []

abbrev pub fence_end : Bytes
fence_end = 10 ∷ 45 ∷ 45 ∷ 45 ∷ 10 ∷ []

-- `bytes.ReplaceAll(data, "\r\n", "\n")`.
unfoldable pub normalize_newlines : Bytes → Bytes
normalize_newlines [] = []
normalize_newlines (c ∷ []) = c ∷ []
normalize_newlines (c ∷ d ∷ rest) =
    let kept = normalize_newlines (d ∷ rest) in if eqb c 13 && eqb d 10 then kept else c ∷ kept

-- What is left after a prefix.
unfoldable pub after_prefix : Bytes → Bytes → Option Bytes
after_prefix [] s = some s
after_prefix (c ∷ p) [] = none
after_prefix (c ∷ p) (d ∷ s) = if eqb c d then after_prefix p s else none

-- `bytes.Index` and the two slices round the separator.
unfoldable pub split_at : Bytes → Bytes → Option (Bytes × Bytes)
split_at sep [] = none
split_at sep (c ∷ s) =
    let later = split_at sep s in
    elim (after_prefix sep (c ∷ s)) [
      | some rest ↦ some ([], rest)
      | none ↦ elim later [ none ↦ none | some (h, rest) ↦ some (c ∷ h, rest) ]
    ]

module _ (codec : Codec) where
  -- `serializeDLQMessage`.
  unfoldable pub serialize : Envelope → Bytes → Option Bytes
  serialize env content = elim (normalize_retry_state env) [
    | refused e ↦ none
    | valid env' ↦ some (fence_start ++ (codec.encode env' ++ (fence_end ++ content)))
  ]

  checked : Bytes → Checked → Option (Envelope × Bytes)
  checked body (refused e) = none
  checked body (valid env) = some (env, body)

  decoded : Bytes → Option Envelope → Option (Envelope × Bytes)
  unfolding checked
  decoded body none = none
  decoded body (some env) = checked body (normalize_retry_state env)

  headed : Option (Bytes × Bytes) → Option (Envelope × Bytes)
  unfolding decoded
  headed none = none
  headed (some (header, body)) = decoded body (codec.decode header)

  fenced : Option Bytes → Option (Envelope × Bytes)
  unfolding headed
  fenced none = none
  fenced (some rest) = headed (split_at fence_end rest)

  -- `parseDLQMessage`.
  unfoldable pub parse : Bytes → Option (Envelope × Bytes)
  unfolding fenced
  parse data' = fenced (after_prefix fence_start (normalize_newlines data'))

-- The header does not hold the fence that ends it.
abbrev pub EndsAt : Bytes → Bytes → Type 0
EndsAt header body = split_at fence_end (header ++ (fence_end ++ body)) ≡ some (header, body)
