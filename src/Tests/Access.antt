-- ===== src/Tests/Access.antt =====
-- Logins, a mail session, and a configuration, on small inputs.
use Prim.Native.Char.{char}
use Prim.Native.String.{[] as empty, ◌∷◌ as cons}
use eas_bridge.Prelude.{
  length, ◌≤◌, ℕ, zero, suc, String, ◌≡◌, refl, ap, Bool, true, not, Option, none, some, List, [],
  ◌∷◌, all, arith, ◌⊎◌,
}
use eas_bridge.Dict
use eas_bridge.Dict.{Dict, get_or, get, put}
use eas_bridge.Folders.Component.{is_space}
use eas_bridge.Digest.Header.{parse_digest_authorization}
use eas_bridge.Digest.Verify.{Codecs, mint_nonce, valid_nonce, caldav_authorized}
use eas_bridge.Digest.Logins.{Proves, caldav_authorized_lem}
use eas_bridge.Digest.Nonces.{is_dotless, valid_nonce-mint_nonce}
use eas_bridge.Smtp.Session.{new_session, Command, auth, mail_from, rcpt_to, data_of, mime, run}
use eas_bridge.Smtp.Login.{is_login, run_closed, run_rcpts}

-- A number as as many strokes.
unfoldable strokes : ℕ → String
strokes zero = ""
strokes (suc n) = cons (char 73 tt) (strokes n)

unfoldable stroke_count : String → ℕ
stroke_count empty = 0
stroke_count (cons c s) = suc (stroke_count s)

stroke_count-strokes : (n : ℕ) → stroke_count (strokes n) ≡ n
unfolding strokes stroke_count
stroke_count-strokes zero = refl
stroke_count-strokes (suc n) = ap suc (stroke_count-strokes n)

strokes_plain : (n : ℕ) → is_dotless (strokes n) ≡ true
unfolding strokes is_dotless
strokes_plain zero = refl
strokes_plain (suc n) = strokes_plain n

abbrev plain_codecs : Codecs
plain_codecs = record {
  mac = λ s. "m";
  encode = λ s. s;
  decode = λ s. some s;
  format_int = strokes;
  parse_int = λ s. some (stroke_count s);
  md5hex = λ s. s;
  to_lower = λ s. s;
}

valid_nonce-mint_nonce_example :
    valid_nonce plain_codecs (mint_nonce plain_codecs 5000000000) 1804000000000 ≡ true
valid_nonce-mint_nonce_example =
    valid_nonce-mint_nonce plain_codecs (λ s. refl) (λ n. ap some (stroke_count-strokes n))
      strokes_plain 5000000000 1804000000000 (omega arith) (omega arith)

abbrev digest_login : String
digest_login =
    "Digest username=\"ann\", realm=\"eas-bridge\", nonce=\"III.m\", uri=\"/cal\", response=\"ann:eas-bridge:key:III.m:PUT:/cal\""

digest_login_accepted :
    caldav_authorized plain_codecs none digest_login "PUT" "/cal" "ann" "key" 3000000000 ≡ true
unfolding caldav_authorized stroke_count get put is_space Dict.empty
digest_login_accepted = refl

caldav_authorized_lem_example :
    (◌≡◌ {A = Option (String × String)} none (some ("ann", "key")))
    ⊎ ((kv : Dict String) × (parse_digest_authorization plain_codecs.to_lower digest_login
          ≡ some kv)
        × (get_or "" kv "uri" ≡ "/cal")
        × Proves plain_codecs "PUT" "ann" "key" 3000000000 kv)
caldav_authorized_lem_example =
    caldav_authorized_lem plain_codecs "PUT" "ann" "key" 3000000000 none digest_login "/cal"
      digest_login_accepted

-- The world counts the messages that went out.
abbrev send_counted : List ℕ → ℕ → Bool × ℕ
send_counted bytes n = (true, suc n)

abbrev intruder : List Command
intruder =
    auth "PLAIN" "ann" "guess" ∷ mail_from "ann" ∷ rcpt_to "bob" ∷ data_of (mime (104 ∷ [])) ∷ []

abbrev client : List Command
client = auth "PLAIN" "ann" "key" ∷ mail_from "ann" ∷ rcpt_to "bob" ∷ data_of (mime (104 ∷ [])) ∷ []

client_sends : (run "ann" "key" send_counted client new_session 0).1 ≡ 1
unfolding run
client_sends = refl

intruder_no_login : all (λ c. not (is_login "ann" "key" send_counted c)) intruder ≡ true
unfolding is_login
intruder_no_login = refl

run_closed_example : (run "ann" "key" send_counted intruder new_session 0).1 ≡ 0
run_closed_example = run_closed "ann" "key" send_counted intruder 0 intruder_no_login

run_rcpts_example : length (run "ann" "key" send_counted client new_session 0).0.rcpts ≤ 100
run_rcpts_example = run_rcpts "ann" "key" send_counted client 0
