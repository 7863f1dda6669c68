-- ===== src/Fsq/Monad.antt =====
-- Code that calls the operating system: it takes the state of the root, and returns a value or an
-- error, with the state that it leaves.
pub mod Triple
use agent_message_queue.Base.{Option, none, some}
use agent_message_queue.Fsq.Store.{Root}
use agent_message_queue.Fsq.Errors.{Error}

pub data Result (A : Type 0) : Type 0 where
  ok : A → Result A
  err : Error → Result A

abbrev pub M : Type 0 → Type 0
M A = Root → Result A × Root

module _ {A : Type 0} where
  pub pure : A → M A
  pure a r = (ok a, r)

  pub fail : Error → M A
  fail e r = (err e, r)

  pub lift : Result A → M A
  lift x r = (x, r)

module _ {A B : Type 0} where
  abbrev pub continue : Result A → (A → M B) → (Error → M B) → M B
  continue (ok a) f g = f a
  continue (err e) f g = g e

  infixl 5 ◌>>=◌ ◌>>◌
  -- `x, err := m; if err != nil { g(err) }; f(x)`. To open this is to open `pure`, `fail`, `lift` too.
  unfoldable pub cases : M A → (A → M B) → (Error → M B) → M B
  unfolding pure fail lift
  cases m f g r = continue (m r).0 f g (m r).1

  -- `x, err := m; if err != nil { return err }`.
  abbrev pub ◌>>=◌ : M A → (A → M B) → M B
  m >>= f = cases m f fail

  abbrev pub ◌>>◌ : M A → M B → M B
  m >> n = m >>= λ _. n

-- `err := m; if err != nil { return g(err) }`.
abbrev pub on_error : {A : Type 0} → M A → (Error → M A) → M A
on_error m g = cases m pure g

-- `_ = m`.
abbrev pub ignore : {A : Type 0} → M A → M (Unit {0})
ignore m = cases m (λ _. pure tt) (λ _. pure tt)

-- An error value, with nil as `none`.
abbrev pub error_of : {A : Type 0} → M A → M (Option Error)
error_of m = cases m (λ _. pure none) (λ e. pure (some e))

pub fail_if : Option Error → M (Unit {0})
unfolding pure fail
fail_if none = pure tt
fail_if (some e) = fail e
