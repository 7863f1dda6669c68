-- ===== src/Fsq/Names.antt =====
-- filename.go and the handle checks of layout.go: which names may stand in a path.
use Prim.Native.String.{String}
use agent_message_queue.Base.{
  ℕ, Bool, false, ◌&&◌, ◌||◌, List, [], ◌∷◌, string_eq, ◌==◌, leb, eqb, if◌then◌else◌,
}
use agent_message_queue.Base.Text.{
  codes, all_codes, trim_space, has_prefix, has_suffix, contains_text,
}
use agent_message_queue.Fsq.Errors.{message}
use agent_message_queue.Fsq.Monad.{Result, ok, err}

-- `handleRe`, ^[a-z0-9_-]+$, without the length test.
unfoldable pub handle_char : ℕ → Bool
handle_char c = (leb 97 c && leb c 122) || ((leb 48 c && leb c 57) || (eqb c 95 || eqb c 45))

unfoldable pub validate_legacy_inspectable_handle : String → Result (Unit {0})
unfolding handle_char
validate_legacy_inspectable_handle agent =
    if agent == "" || trim_space agent == ""
    then err (message "agent handle is empty")
    else if contains_text agent ".." || contains_text agent "/"
    then err (message "agent handle contains path traversal")
    else if all_codes handle_char (codes agent)
    then ok tt
    else err (message "agent handle must match [a-z0-9_-]+")

unsigned : String → Result (Unit {0}) → Result (Unit {0})
unsigned agent (err e) = err e
unsigned agent (ok _) =
    if has_prefix agent "-" then err (message "agent handle must not start with '-'") else ok tt

unfoldable pub validate_handle : String → Result (Unit {0})
unfolding unsigned
validate_handle agent = unsigned agent (validate_legacy_inspectable_handle agent)

-- `filepath.IsAbs` on a Unix system.
abbrev is_abs : String → Bool
is_abs name = has_prefix name "/"

-- A NUL byte is code 0.
abbrev has_nul : List ℕ → Bool
has_nul [] = false
has_nul (c ∷ s) = eqb c 0 || has_nul s

unfoldable pub validate_message_filename : String → Result (Unit {0})
validate_message_filename filename =
    if filename == ""
    then err (message "empty filename")
    else if has_prefix filename "."
    then err (message "dotfile names are not allowed")
    else if is_abs filename
    then err (message "absolute path is not allowed")
    else if contains_text filename "/" || contains_text filename "\\"
    then err (message "path separators are not allowed")
    else if has_nul (codes filename)
    then err (message "NUL byte is not allowed")
    else if filename == "." || filename == ".."
    then err (message "path traversal is not allowed")
    else if has_suffix filename ".md"
    then ok tt
    else err (message "filename must end with .md")
