-- ===== src/Smtp/Login.antt =====
-- What a session needs before it sends, and how many recipients it takes.
use eas_bridge.Prelude.{
  ℕ, ◌≤◌, String, ◌≡◌, refl, ◌∙◌, Bool, true, false, not, ◌&&◌, ◌||◌, List, [], ◌∷◌, arith, all,
  str_eq, is_empty, is_nil, length, length-append, leb, if◌then◌else◌, Bool-cases, inl, inr,
}
use eas_bridge.Smtp.Session.{
  SmtpSession, new_session, reset, Reply, mime, unreadable, Command, auth, mail_from, rcpt_to,
  data_of, reset_session, on_auth, on_mail, on_rcpt, on_data, on_command, run,
}

module _ {W : Type 0} (user password : String) (send_mail : List ℕ → W → Bool × W) where
  -- The command logs in with the name and the password of the configuration.
  unfoldable pub is_login : Command → Bool
  is_login (auth mech name secret) = str_eq name user && str_eq secret password
  is_login (mail_from from) = false
  is_login (rcpt_to to) = false
  is_login (data_of m) = false
  is_login reset_session = false

  closed_step :
      (c : Command) (s : SmtpSession) (w : W)
      → is_login c ≡ false
      → s.authed ≡ false
      → ((on_command user password send_mail c s w).1.authed ≡ false)
        × ((on_command user password send_mail c s w).2 ≡ w)
  unfolding is_login on_command reset
  closed_step (auth mech name secret) s w others closed =
      elim (Bool-cases (not (str_eq mech "PLAIN"))) [
        | inl p ↦ rw (p, on_command, on_auth) (closed, refl)
        | inr p ↦ rw (p, others, on_command, on_auth) (closed, refl)
      ]
  closed_step (mail_from from) s w others closed = rw (closed, on_command, on_mail) (refl, refl)
  closed_step (rcpt_to to) s w others closed = rw (closed, on_command, on_rcpt) (refl, refl)
  closed_step (data_of unreadable) s w others closed = (closed, refl)
  closed_step (data_of (mime bytes)) s w others closed =
      rw (closed, on_command, on_data) (refl, refl)
  closed_step reset_session s w others closed = (closed, refl)

  closed_run :
      (cs : List Command) (s : SmtpSession) (w : W)
      → all (λ c. not (is_login c)) cs ≡ true
      → s.authed ≡ false
      → (run user password send_mail cs s w).1 ≡ w
  unfolding run
  closed_run [] s w others closed = refl
  closed_run (c ∷ cs) s w others closed =
      let step = closed_step c s w (ground (arith, others)) closed in
      let r = on_command user password send_mail c s w in
      closed_run cs (r.1) (r.2) (ground (arith, others)) (step.0) ∙ step.1

  -- A session whose client never gives the name and the password of the configuration sends nothing.
  pub run_closed :
      (cs : List Command) (w : W)
      → all (λ c. not (is_login c)) cs ≡ true
      → (run user password send_mail cs new_session w).1 ≡ w
  unfolding new_session
  run_closed cs w others = closed_run cs new_session w others refl

  Few : Reply × SmtpSession × W → Type 0
  Few r = length (r.1).rcpts ≤ 100

  Few-either :
      (a b c d : Bool) (x y z : Reply × SmtpSession × W)
      → Few x
      → Few y
      → Few z
      → Few (if a then x else if b then x else if c then x else if d then y else z)
  Few-either true b c d x y z p q r = p
  Few-either false true c d x y z p q r = p
  Few-either false false true d x y z p q r = p
  Few-either false false false true x y z p q r = q
  Few-either false false false false x y z p q r = r

  on_command-Few :
      (c : Command) (s : SmtpSession) (w : W)
      → length s.rcpts ≤ 100
      → length (on_command user password send_mail c s w).1.rcpts ≤ 100
  unfolding on_command reset Few
  on_command-Few (auth mech name secret) s w few = ground (arith, few)
  on_command-Few (mail_from from) s w few = ground (arith, few)
  on_command-Few (rcpt_to to) s w few = elim (Bool-cases (not s.authed)) [
    | inl p ↦ rw (p, on_command, on_rcpt) few
    | inr p ↦ elim (Bool-cases (leb 100 (length s.rcpts))) [
      | inl q ↦ rw (p, q, on_command, on_rcpt) few
      | inr q ↦ rw (p, q, on_command, on_rcpt) (ground (arith, length-append s.rcpts (to ∷ []), q))
    ]
  ]
  on_command-Few (data_of unreadable) s w few = few
  on_command-Few (data_of (mime bytes)) s w few =
      Few-either (not s.authed) (is_empty s.from || is_nil s.rcpts) (is_nil bytes)
        ((send_mail bytes w).0) _ _ _ few (omega arith) few
  on_command-Few reset_session s w few = omega arith

  run-Few :
      (cs : List Command) (s : SmtpSession) (w : W)
      → length s.rcpts ≤ 100
      → length (run user password send_mail cs s w).0.rcpts ≤ 100
  unfolding run
  run-Few [] s w few = few
  run-Few (c ∷ cs) s w few =
      let r = on_command user password send_mail c s w in
      run-Few cs (r.1) (r.2) (on_command-Few c s w few)

  -- A session never has more than 100 recipients.
  pub run_rcpts :
      (cs : List Command) (w : W)
      → length (run user password send_mail cs new_session w).0.rcpts ≤ 100
  unfolding new_session
  run_rcpts cs w = run-Few cs new_session w (omega arith)
