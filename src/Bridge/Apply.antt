-- ===== src/Bridge/Apply.antt =====
-- Which envelopes reach an inbox, and the name that they get there.
use text.Mathlib.TextLemmas.{append_assoc}
use mathlib.Core.Path.{ap₂}
use agent_message_queue.Base.{String, ◌<>◌, ◌≡◌, ◌≢◌, ◌∙◌, sym, ap, refl}
use agent_message_queue.Base.{Bool, false, ◌!=◌, string_eq, arith}
use agent_message_queue.Fsq.Store.{Files, Root}
use agent_message_queue.Fsq.Monad.{Result, ok, err, M, lift}
use agent_message_queue.Fsq.Monad.Triple.{
  Post, post, Triple, Triple-then, Triple-bind, Triple-lift, Triple-if, Triple-fail, Triple-pure,
  files-lift, Triple-given,
}
use agent_message_queue.Bridge.{
  Envelope, Crypto, Applied, parse_alias, validate_envelope, unless, apply_envelope,
  transfer_filename,
}

-- The file name does not tell a host from a transfer: the part after a dash of a host's name may as well
-- begin the identifier of the transfer, and the two transfers have one name.
pub transfer_filename-shared :
    (host part id : String)
    → transfer_filename (host <> ("-" <> part)) id ≡ transfer_filename host (part <> ("-" <> id))
unfolding transfer_filename
transfer_filename-shared host part id =
    ap (λ (t : String). "xfer-" <> t)
      (append_assoc host ("-" <> part) ("-" <> (id <> ".md"))
        ∙ ap (λ (t : String). host <> t)
            (append_assoc "-" part ("-" <> (id <> ".md"))
              ∙ ap (λ (t : String). "-" <> t)
                  (sym (
                    append_assoc part ("-" <> id) ".md"
                    ∙ ap (λ (t : String). part <> t) (append_assoc "-" id ".md")))))

module _ (P : Files → Type 0) where
  unless-Triple : (b : Bool) (what : String) → Triple P (unless b what) (post (λ _. P) P)
  unfolding unless
  unless-Triple b what =
      Triple-if b _ _ (λ _. Triple-pure _ (λ fs p. p)) (λ _. Triple-fail _ (λ fs p. p))

  pub validate-Triple :
      (crypto : Crypto) (env : Envelope) → Triple P (validate_envelope crypto env) (post (λ _. P) P)
  unfolding validate_envelope
  validate-Triple crypto env =
      Triple-bind (unless _ _) _ (unless-Triple _ _)
        (λ _.
          Triple-bind (unless _ _) _ (unless-Triple _ _)
            (λ _.
              Triple-then (lift _) _ (files-lift _)
                (λ _.
                  Triple-then (lift _) _ (files-lift _)
                    (λ _.
                      Triple-then (lift _) _ (files-lift _)
                        (λ _.
                          Triple-then (lift _) _ (files-lift _)
                            (λ _.
                              Triple-bind (unless _ _) _ (unless-Triple _ _)
                                (λ _.
                                  Triple-bind (unless _ _) _ (unless-Triple _ _)
                                    (λ _. unless-Triple _ _) (λ e gs h. h))
                                (λ e gs h. h))
                            (λ e gs h. h))
                        (λ e gs h. h))
                    (λ e gs h. h))
                (λ e gs h. h))
            (λ e gs h. h))
        (λ e gs h. h)

eq_of_test : (s t : String) → (s != t) ≡ false → s ≡ t
eq_of_test s t h = ground arith

-- An envelope whose alias is not that of the local host and agent, or is none, is refused, and no file
-- is changed.
pub apply-refused :
    (crypto : Crypto) (validate_layout : String → M (Unit {0})) (local_host local_agent : String)
    (env : Envelope) (r : Root)
    → parse_alias env.dest_alias ≢ ok (local_host, local_agent)
    → ((a : Applied)
        → (apply_envelope crypto validate_layout local_host local_agent env r).0 ≢ ok a)
      × ((apply_envelope crypto validate_layout local_host local_agent env r).1.files ≡ r.files)
unfolding apply_envelope
apply-refused crypto validate_layout local_host local_agent env r ne =
    split (apply_envelope crypto validate_layout local_host local_agent env r).0 (refused.at r refl)
  where
    Parsed : Post (String × String)
    Parsed x gs = (parse_alias env.dest_alias ≡ x) × (gs ≡ r.files)

    split :
        (x : Result Applied) {gs : Files}
        → post (λ _ gs. ⊥) (λ gs. gs ≡ r.files) x gs
        → ((a : Applied) → x ≢ ok a) × (gs ≡ r.files)
    split (ok _) h = elim h [ ]
    split (err e) h = (λ a p. cc p, h)

    refused :
        Triple
          (λ gs. gs ≡ r.files)
          (apply_envelope crypto validate_layout local_host local_agent env)
          (post (λ _ gs. ⊥) (λ gs. gs ≡ r.files))
    refused =
        Triple-bind (validate_envelope crypto env) _ (validate-Triple _ crypto env)
          (λ _.
            Triple-bind {R = Parsed} (lift (parse_alias env.dest_alias)) _
              (Triple-lift _ (λ gs h. (refl, h)))
              (λ dest.
                Triple-if (dest.0 != local_host) _ _ (λ _. Triple-fail _ (λ gs h. h.1))
                  (λ p.
                    Triple-if (dest.1 != local_agent) _ _ (λ _. Triple-fail _ (λ gs h. h.1))
                      (λ q.
                        Triple-given (parse_alias env.dest_alias ≡ ok dest) _ (λ gs h. h.0)
                          (λ e.
                            elim (ne (
                              e
                              ∙ ap₂ (λ (h a : String). ok (h, a)) (eq_of_test _ _ p)
                                  (eq_of_test _ _ q))) [ ]))))
              (λ e gs h. h.1))
          (λ e gs h. h)
