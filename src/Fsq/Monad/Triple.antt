-- ===== src/Fsq/Monad/Triple.antt =====
-- Hoare triples over the files of a root: what holds of them before a call, and of its result and
-- of the files after it, whatever faults occur.
use agent_message_queue.Base.{Bool, true, false, ◌≡◌, refl, sym, Option, none, some, if◌then◌else◌}
use mathlib.Core.Path.{subst}
use agent_message_queue.Fsq.Store.{Files, Root}
use agent_message_queue.Fsq.Errors.{Error}
use agent_message_queue.Fsq.Monad.{
  Result, ok, err, M, pure, fail, lift, continue, cases, ◌>>=◌, ignore, error_of, on_error,
}

abbrev pub Post : Type 0 → Type 1
Post A = Result A → Files → Type 0

-- `P` holds of the files before `m`, and `Q` of its result and of the files after it.
pub record Triple {A : Type 0} (P : Files → Type 0) (m : M A) (Q : Post A) : Type 0 where
  pub at : (r : Root) → P r.files → Q (m r).0 (m r).1.files

module _ {A : Type 0} {P : Files → Type 0} {Q : Post A} where
  pub Triple-pure : (a : A) → ((fs : Files) → P fs → Q (ok a) fs) → Triple P (pure a) Q
  unfolding pure
  Triple-pure a h = record { at = λ r p. h r.files p }

  pub Triple-fail : (e : Error) → ((fs : Files) → P fs → Q (err e) fs) → Triple P (fail e) Q
  unfolding fail
  Triple-fail e h = record { at = λ r p. h r.files p }

  pub Triple-lift : (x : Result A) → ((fs : Files) → P fs → Q x fs) → Triple P (lift x) Q
  unfolding lift
  Triple-lift x h = record { at = λ r p. h r.files p }

  pub Triple-if :
      (b : Bool) (m n : M A)
      → (b ≡ true → Triple P m Q)
      → (b ≡ false → Triple P n Q)
      → Triple P (if b then m else n) Q
  Triple-if true m n hm hn = hm refl
  Triple-if false m n hm hn = hn refl

  pub Triple-weaken :
      {R : Post A} (m : M A)
      → Triple P m R
      → ((x : Result A) (fs : Files) → R x fs → Q x fs)
      → Triple P m Q
  Triple-weaken m h w = record { at = λ r p. w (m r).0 (m r).1.files (h.at r p) }

  pub Triple-under :
      {S : Files → Type 0} (m : M A) → ((fs : Files) → P fs → S fs) → Triple S m Q → Triple P m Q
  Triple-under m w h = record { at = λ r p. h.at r (w r.files p) }

module _ {A B : Type 0} {Q : Post B} where
  continue-at :
      (R : Post A) (x : Result A) (f : A → M B) (g : Error → M B)
      → ((a : A) → Triple (R (ok a)) (f a) Q)
      → ((e : Error) → Triple (R (err e)) (g e) Q)
      → (r : Root) → R x r.files
      → Q (continue x f g r).0 (continue x f g r).1.files
  continue-at R (ok a) f g hf hg r h = (hf a).at r h
  continue-at R (err e) f g hf hg r h = (hg e).at r h

  pub Triple-cases :
      {P : Files → Type 0} {R : Post A} (m : M A) (f : A → M B) (g : Error → M B)
      → Triple P m R
      → ((a : A) → Triple (R (ok a)) (f a) Q)
      → ((e : Error) → Triple (R (err e)) (g e) Q)
      → Triple P (cases m f g) Q
  unfolding cases
  Triple-cases {R = R} m f g hm hf hg = record {
    at = λ r p. continue-at R (m r).0 f g hf hg (m r).1 (hm.at r p);
  }

  -- The rest of a `do` block, where a failure ends it.
  pub Triple-bind :
      {P : Files → Type 0} {R : Post A} (m : M A) (f : A → M B)
      → Triple P m R
      → ((a : A) → Triple (R (ok a)) (f a) Q)
      → ((e : Error) (fs : Files) → R (err e) fs → Q (err e) fs)
      → Triple P (m >>= f) Q
  Triple-bind m f hm hf hg = Triple-cases m f fail hm hf (λ e. Triple-fail e (hg e))

-- A post-condition from what holds on success and what holds after a failure.
abbrev pub post : {A : Type 0} → (A → Files → Type 0) → (Files → Type 0) → Post A
post F G (ok a) fs = F a fs
post F G (err e) fs = G fs

quiet_post :
    {A : Type 0} (P : Files → Type 0) (x : Result A) (fs : Files) → P fs → post (λ _. P) P x fs
quiet_post P (ok a) fs p = p
quiet_post P (err e) fs p = p

-- A call that leaves the files alone keeps every assertion about them.
pub Triple-quiet :
    {A : Type 0} {P : Files → Type 0} (m : M A)
    → ((r : Root) → (m r).1.files ≡ r.files)
    → Triple P m (post (λ _. P) P)
Triple-quiet {P = P} m h = record {
  at = λ r p. quiet_post P (m r).0 (m r).1.files (subst P (sym (h r)) p);
}

-- What a call does that leaves the files alone.
abbrev pub Quiet : {A : Type 0} → M A → Type 0
Quiet m = (r : Root) → (m r).1.files ≡ r.files

pub Triple-then :
    {A B : Type 0} {P : Files → Type 0} {Q : Post B} (m : M A) (f : A → M B)
    → Quiet m
    → ((a : A) → Triple P (f a) Q)
    → ((e : Error) (fs : Files) → P fs → Q (err e) fs)
    → Triple P (m >>= f) Q
Triple-then m f q hf hg = Triple-bind m f (Triple-quiet m q) hf hg

-- `_ = m`, where an assertion holds whether `m` succeeds or not: no error is left.
pub Triple-ignore :
    {A : Type 0} {P Q : Files → Type 0} (m : M A)
    → Triple P m (post (λ _. Q) Q)
    → Triple P (ignore m) (post (λ _. Q) (λ _. ⊥))
Triple-ignore m h =
    Triple-cases m (λ _. pure tt) (λ _. pure tt) h (λ a. Triple-pure tt (λ fs p. p))
      λ e. Triple-pure tt (λ fs p. p)

-- An error taken as a value: `none` after a success, and `some` after a failure.
abbrev pub reported : (Files → Type 0) → (Files → Type 0) → Post (Option Error)
reported F G (ok none) fs = F fs
reported F G (ok (some e)) fs = G fs
reported F G (err e) fs = G fs

pub Triple-error_of :
    {A : Type 0} {P F G : Files → Type 0} (m : M A)
    → Triple P m (post (λ _. F) G)
    → Triple P (error_of m) (reported F G)
Triple-error_of m h =
    Triple-cases m (λ _. pure none) (λ e. pure (some e)) h (λ a. Triple-pure none (λ fs p. p))
      λ e. Triple-pure (some e) (λ fs p. p)

-- A fact about every call, as a triple from known files.
pub Triple-from :
    {A : Type 0} (Q : Files → Post A) (m : M A)
    → ((r : Root) → Q r.files (m r).0 (m r).1.files)
    → (fs : Files) → Triple (λ gs. gs ≡ fs) m (Q fs)
Triple-from Q m h fs = record { at = λ r e. subst (λ gs. Q gs (m r).0 (m r).1.files) e (h r) }

post_mono :
    {A : Type 0} (F F' : A → Files → Type 0) (G G' : Files → Type 0)
    → ((a : A) (fs : Files) → F a fs → F' a fs)
    → ((fs : Files) → G fs → G' fs)
    → (x : Result A) (fs : Files) → post F G x fs
    → post F' G' x fs
post_mono F F' G G' hf hg (ok a) fs h = hf a fs h
post_mono F F' G G' hf hg (err e) fs h = hg fs h

pub Triple-mono :
    {A : Type 0} {P : Files → Type 0} {F F' : A → Files → Type 0} {G G' : Files → Type 0} (m : M A)
    → Triple P m (post F G)
    → ((a : A) (fs : Files) → F a fs → F' a fs)
    → ((fs : Files) → G fs → G' fs)
    → Triple P m (post F' G')
Triple-mono {F = F} {F' = F'} {G = G} {G' = G'} m h hf hg =
    Triple-weaken m h (post_mono F F' G G' hf hg)

-- An assertion that a call keeps whatever it returns.
pub Triple-keeps :
    {A : Type 0} {P : Files → Type 0} (m : M A)
    → ((r : Root) → P r.files → P (m r).1.files)
    → Triple P m (post (λ _. P) P)
Triple-keeps {P = P} m h = record { at = λ r p. quiet_post P (m r).0 (m r).1.files (h r p) }

-- A triple from known files, used under an assertion.
pub Triple-use :
    {A : Type 0} {P : Files → Type 0} {S : Post A} (Q : Files → Post A) (m : M A)
    → ((fs : Files) → Triple (λ gs. gs ≡ fs) m (Q fs))
    → ((fs : Files) → P fs → (x : Result A) (gs : Files) → Q fs x gs → S x gs)
    → Triple P m S
Triple-use Q m h w = record {
  at = λ r p. w r.files p (m r).0 (m r).1.files ((h r.files).at r refl);
}

-- A handler that ends in failure.
pub Triple-on_error :
    {A : Type 0} {P : Files → Type 0} {R Q : Post A} (m : M A) (g : Error → M A)
    → Triple P m R
    → ((a : A) (fs : Files) → R (ok a) fs → Q (ok a) fs)
    → ((e : Error) → Triple (R (err e)) (g e) Q)
    → Triple P (on_error m g) Q
Triple-on_error m g hm hf hg = Triple-cases m pure g hm (λ a. Triple-pure a (hf a)) hg

-- A fact about values that every file tree under the assertion shows.
pub Triple-given :
    {A : Type 0} {P : Files → Type 0} {Q : Post A} (S : Type 0) (m : M A)
    → ((fs : Files) → P fs → S)
    → (S → Triple P m Q)
    → Triple P m Q
Triple-given S m w h = record { at = λ r p. (h (w r.files p)).at r p }

pub files-lift : {A : Type 0} (x : Result A) → Quiet (lift x)
unfolding lift
files-lift x r = refl
