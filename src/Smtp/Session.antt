-- ===== src/Smtp/Session.antt =====
-- smtpSession (smtpd.go): the commands, in the order in which a client gives them.
use eas_bridge.Prelude.{
  ℕ, String, Bool, true, false, not, ◌&&◌, ◌||◌, List, [], ◌∷◌, ◌++◌, str_eq, is_empty, is_nil,
  length, leb, if◌then◌else◌,
}

pub record SmtpSession : Type 0 where
  pub authed : Bool
  pub from : String
  pub rcpts : List String

-- NewSession
unfoldable pub new_session : SmtpSession
new_session = record { authed = false; from = ""; rcpts = [] }

-- Reset keeps the login.
unfoldable pub reset : SmtpSession → SmtpSession
reset s = record s { from = ""; rcpts = [] }

-- A nil error, or any error.
pub data Reply : Type 0 where
  ok : Reply
  refused : Reply

-- The bytes of a message, or a reader that fails.
pub data Message : Type 0 where
  unreadable : Message
  mime : List ℕ → Message

pub data Command : Type 0 where
  auth : String → String → String → Command
  mail_from : String → Command
  rcpt_to : String → Command
  data_of : Message → Command
  reset_session : Command

module _ {W : Type 0} (user password : String) (send_mail : List ℕ → W → Bool × W) where
  -- Auth, with the function that PLAIN calls
  unfoldable pub on_auth : String → String → String → SmtpSession → Reply × SmtpSession
  on_auth mech name secret s =
      if not (str_eq mech "PLAIN")
      then (refused, s)
      else if str_eq name user && str_eq secret password
      then (ok, record s { authed = true })
      else (refused, s)

  -- Mail
  unfoldable pub on_mail : String → SmtpSession → Reply × SmtpSession
  on_mail from s = if not s.authed then (refused, s) else (ok, record s { from = from; rcpts = [] })

  -- Rcpt
  unfoldable pub on_rcpt : String → SmtpSession → Reply × SmtpSession
  on_rcpt to s =
      if not s.authed
      then (refused, s)
      else if leb 100 (length s.rcpts)
      then (refused, s)
      else (ok, record s { rcpts = s.rcpts ++ to ∷ [] })

  -- Data
  unfoldable pub on_data : Message → SmtpSession → W → Reply × SmtpSession × W
  unfolding reset
  on_data unreadable s w = (refused, s, w)
  on_data (mime bytes) s w =
      let sent = send_mail bytes w in
      if not s.authed
      then (refused, s, w)
      else if is_empty s.from || is_nil s.rcpts
      then (refused, s, w)
      else if is_nil bytes
      then (refused, s, w)
      else if sent.0
      then (ok, reset s, sent.1)
      else (refused, s, sent.1)

  unfoldable pub on_command : Command → SmtpSession → W → Reply × SmtpSession × W
  unfolding on_auth on_mail on_rcpt on_data reset
  on_command (auth mech name secret) s w = let r = on_auth mech name secret s in (r.0, r.1, w)
  on_command (mail_from from) s w = let r = on_mail from s in (r.0, r.1, w)
  on_command (rcpt_to to) s w = let r = on_rcpt to s in (r.0, r.1, w)
  on_command (data_of m) s w = on_data m s w
  on_command reset_session s w = (ok, reset s, w)

  unfoldable pub run : List Command → SmtpSession → W → SmtpSession × W
  unfolding on_command
  run [] s w = (s, w)
  run (c ∷ cs) s w = let r = on_command c s w in run cs (r.1) (r.2)
