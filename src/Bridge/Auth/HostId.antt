-- ===== src/Bridge/Auth/HostId.antt =====
-- The file that names the host, as it is written and read.
use Prim.Native.Char.{Char, code}
use Prim.Native.String.append
use agent_message_queue.Base.{
  ℕ, String, ◌<>◌, arith, ◌≡◌, sym, ap, ◌∙◌, true, false, string_eq, codes_eq, ◌==◌,
}
use agent_message_queue.Base.Text.{codes, all_codes, is_space, trim_space, trim_left, trim_right}
use agent_message_queue.Fsq.Monad.{ok}
use agent_message_queue.Fsq.Names.{handle_char, validate_handle, validate_legacy_inspectable_handle}
use agent_message_queue.Bridge.Auth.{parse_host_id, checked_host}

handle-not_space : (c : ℕ) → handle_char c ≡ true → is_space c ≡ false
unfolding handle_char is_space
handle-not_space c h = ground arith

handle_codes :
    (host : String) → validate_handle host ≡ ok tt → all_codes handle_char (codes host) ≡ true
unfolding validate_handle validate_legacy_inspectable_handle
handle_codes host h = ground arith

cons_trimmed :
    (c : Char) (s : String)
    → all_codes handle_char (codes (String.◌∷◌ c s)) ≡ true
    → trim_right (s <> "\n") ≡ s
    → trim_right (String.◌∷◌ c (s <> "\n")) ≡ String.◌∷◌ c s
unfolding trim_right
cons_trimmed c s h e = ground (arith, e, handle-not_space (code c))

newline_trimmed : (s : String) → all_codes handle_char (codes s) ≡ true → trim_right (s <> "\n") ≡ s
unfolding trim_right is_space
newline_trimmed String.[] h = ground arith
newline_trimmed (String.◌∷◌ c s) h =
    (λ i. trim_right (append.cons c s "\n" i))
    ∙ cons_trimmed c s h (newline_trimmed s (ground arith))

cons_kept :
    (c : Char) (s : String)
    → all_codes handle_char (codes (String.◌∷◌ c s)) ≡ true
    → trim_left (String.◌∷◌ c (s <> "\n")) ≡ String.◌∷◌ c (s <> "\n")
unfolding trim_left
cons_kept c s h = ground (arith, handle-not_space (code c))

front_kept :
    (s : String)
    → all_codes handle_char (codes s) ≡ true
    → s == "" ≡ false
    → trim_left (s <> "\n") ≡ s <> "\n"
unfolding trim_left
front_kept String.[] h n = absurd (ground arith)
front_kept (String.◌∷◌ c s) h n =
    (λ i. trim_left (append.cons c s "\n" i))
    ∙ (cons_kept c s h ∙ sym (λ i. append.cons c s "\n" i))

named : (host : String) → validate_handle host ≡ ok tt → host == "" ≡ false
unfolding validate_handle validate_legacy_inspectable_handle
named host h = ground arith

host_trimmed : (host : String) → validate_handle host ≡ ok tt → trim_space (host <> "\n") ≡ host
unfolding trim_space
host_trimmed host h =
    ap trim_right (front_kept host (handle_codes host h) (named host h))
    ∙ newline_trimmed host (handle_codes host h)

-- The name of the host that is written, which is a valid handle, is read back.
pub parse_host_id-written :
    (host : String) → validate_handle host ≡ ok tt → parse_host_id (host <> "\n") ≡ ok host
unfolding parse_host_id checked_host
parse_host_id-written host h = ground (arith, host_trimmed host h)
