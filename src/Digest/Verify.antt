-- ===== src/Digest/Verify.antt =====
-- The nonces and the check of a login (digest.go): mintNonce, validNonce, computeDigestResponse,
-- verifyDigest and caldavAuthorized. Times are nanoseconds, a Unix time whole seconds.
use Prim.Native.Char.{code}
use Prim.Native.String.{[], ◌∷◌, ◌++◌}
use eas_bridge.Prelude.{
  ℕ, ◌+◌, ◌*◌, ◌/◌, String, Bool, true, false, not, ◌&&◌, ◌||◌, Option, none, some, str_eq,
  is_empty, leb, ◌==◌, if◌then◌else◌,
}
use eas_bridge.Dict.{Dict, get_or}
use eas_bridge.Digest.Header.{parse_digest_authorization}

abbrev pub digest_realm : String
digest_realm = "eas-bridge"

abbrev pub second : ℕ
second = 1000000000

-- digestNonceTTL
abbrev pub digest_nonce_ttl : ℕ
digest_nonce_ttl = 30 * 60 * second

-- Go's packages: the hexadecimal HMAC under the secret of the process, base64, the numbers, MD5 and
-- the case mapping.
pub record Codecs : Type 0 where
  pub mac : String → String
  pub encode : String → String
  pub decode : String → Option String
  pub format_int : ℕ → String
  pub parse_int : String → Option ℕ
  pub md5hex : String → String
  pub to_lower : String → String

-- `strings.Cut(s, ".")`
unfoldable pub cut_dot : String → Option (String × String)
cut_dot [] = none
cut_dot (c ∷ cs) =
    let rest = cut_dot cs in
    if code c == 46
    then some ("", cs)
    else elim rest [ none ↦ none | some (a, b) ↦ some (c ∷ a, b) ]

module _ (g : Codecs) where
  -- mintNonce
  unfoldable pub mint_nonce : ℕ → String
  mint_nonce now = let ts = g.format_int (now / second) in g.encode (ts ++ "." ++ g.mac ts)

  -- `age >= -time.Minute && age <= digestNonceTTL`
  unfoldable pub is_current : ℕ → ℕ → Bool
  is_current t now = leb (t * second) (now + 60 * second) && leb now (t * second + digest_nonce_ttl)

  -- validNonce
  unfoldable pub valid_nonce : String → ℕ → Bool
  unfolding cut_dot is_current
  valid_nonce nonce now = elim (g.decode nonce) [
    | none ↦ false
    | some raw ↦ elim (cut_dot raw) [
      | none ↦ false
      | some (ts, sig) ↦
          str_eq sig (g.mac ts)
          && elim (g.parse_int ts) [ none ↦ false | some t ↦ is_current t now ]
    ]
  ]

  unfoldable pub digest_ha1 : String → String → String → String
  digest_ha1 user realm password = g.md5hex (user ++ ":" ++ realm ++ ":" ++ password)

  unfoldable pub digest_ha2 : String → String → String
  digest_ha2 method uri = g.md5hex (method ++ ":" ++ uri)

  unfoldable pub compute_digest_response :
      String → String → String → String → String → String → String
  compute_digest_response ha1 nonce nc cnonce qop ha2 =
      if not (is_empty qop)
      then g.md5hex (ha1 ++ ":" ++ nonce ++ ":" ++ nc ++ ":" ++ cnonce ++ ":" ++ qop ++ ":" ++ ha2)
      else g.md5hex (ha1 ++ ":" ++ nonce ++ ":" ++ ha2)

  -- The response that the password gives for the parameters of a header.
  unfoldable pub wanted : Dict String → String → String → String → String
  unfolding digest_ha1 digest_ha2 compute_digest_response
  wanted kv method user password =
      compute_digest_response (digest_ha1 user digest_realm password) (get_or "" kv "nonce")
        (get_or "" kv "nc") (get_or "" kv "cnonce") (get_or "" kv "qop")
        (digest_ha2 method (get_or "" kv "uri"))

  -- verifyDigest
  unfoldable pub verify_digest : Dict String → String → String → String → ℕ → Bool
  unfolding valid_nonce wanted
  verify_digest kv method user password now =
      let nonce = get_or "" kv "nonce" in
      let qop = get_or "" kv "qop" in
      if not (str_eq (get_or "" kv "username") user)
        || not (str_eq (get_or "" kv "realm") digest_realm)
      then false
      else if is_empty nonce || not (valid_nonce nonce now)
      then false
      else if is_empty (get_or "" kv "uri") || is_empty (get_or "" kv "response")
      then false
      else if not (is_empty qop) && not (str_eq qop "auth")
      then false
      else if str_eq qop "auth"
          && (is_empty (get_or "" kv "nc") || is_empty (get_or "" kv "cnonce"))
      then false
      else str_eq (wanted kv method user password) (get_or "" kv "response")

  -- caldavAuthorized: the name and password of Basic, the header and the target of a request
  unfoldable pub caldav_authorized :
      Option (String × String) → String → String → String → String → String → ℕ → Bool
  unfolding verify_digest parse_digest_authorization
  caldav_authorized basic header method target user password now =
      let by_digest : Bool = elim (parse_digest_authorization g.to_lower header) [
        | none ↦ false
        | some kv ↦
            if not (str_eq (get_or "" kv "uri") target)
            then false
            else verify_digest kv method user password now
      ] in
      let by_basic : Bool = elim basic [
        | none ↦ false
        | some (u, p) ↦ str_eq u user && str_eq p password
      ] in
      if by_basic then true else by_digest
