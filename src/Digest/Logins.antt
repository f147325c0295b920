-- ===== src/Digest/Logins.antt =====
-- Whom the CalDAV server lets in, and how long a nonce is good for.
use eas_bridge.Prelude.{
  ℕ, String, ◌≡◌, Bool, true, false, not, ◌&&◌, ◌||◌, Option, none, some, str_eq, eq_iff, is_empty,
  if◌then◌else◌, arith, Bool-cases, Option-cases, inl, inr, ◌⊎◌,
}
use eas_bridge.Dict.{Dict, get_or}
use eas_bridge.Digest.Header.{parse_digest_authorization}
use eas_bridge.Digest.Verify.{
  Codecs, digest_realm, valid_nonce, wanted, verify_digest, caldav_authorized,
}

module _ (g : Codecs) (method user password : String) (now : ℕ) where
  -- The header names the user, has a nonce of this process that has not run out, and the response that the
  -- password gives.
  abbrev pub Proves : Dict String → Type 0
  Proves kv =
      (get_or "" kv "username" ≡ user)
      × (valid_nonce g (get_or "" kv "nonce") now ≡ true)
      × (get_or "" kv "response" ≡ wanted g kv method user password)

  guarded :
      (a b c d e f : Bool)
      → (if a
          then false
          else if b
          then false
          else if c
          then false
          else if d
          then false
          else if e
          then false
          else f)
        ≡ true
      → (a ≡ false) × (b ≡ false) × (f ≡ true)
  guarded a b c d e f h = ground (arith, h)

  verify-Proves :
      (kv : Dict String) → verify_digest g kv method user password now ≡ true → Proves kv
  unfolding verify_digest
  verify-Proves kv h =
      let parts =
        guarded
          (not (str_eq (get_or "" kv "username") user)
            || not (str_eq (get_or "" kv "realm") digest_realm))
          (is_empty (get_or "" kv "nonce") || not (valid_nonce g (get_or "" kv "nonce") now))
          (is_empty (get_or "" kv "uri") || is_empty (get_or "" kv "response"))
          (not (is_empty (get_or "" kv "qop")) && not (str_eq (get_or "" kv "qop") "auth"))
          (str_eq (get_or "" kv "qop") "auth"
            && (is_empty (get_or "" kv "nc") || is_empty (get_or "" kv "cnonce")))
          (str_eq (wanted g kv method user password) (get_or "" kv "response")) h in
      (
        ground (arith, parts.0, eq_iff (get_or "" kv "username") user),
        ground (arith, parts.1),
        ground
            (arith, parts.2, eq_iff (wanted g kv method user password) (get_or "" kv "response")),
      )

  targeted :
      (kv : Dict String) (target : String)
      → (if not (str_eq (get_or "" kv "uri") target)
          then false
          else verify_digest g kv method user password now)
        ≡ true
      → (get_or "" kv "uri" ≡ target) × Proves kv
  targeted kv target h = elim (Bool-cases (str_eq (get_or "" kv "uri") target)) [
    | inl p ↦ (
      ground (arith, p, eq_iff (get_or "" kv "uri") target),
      verify-Proves kv (ground (arith, h, p)),
    )
    | inr p ↦ absurd (ground (arith, h, p))
  ]

  named :
      (u p : String)
      → u ≡ user
      → p ≡ password
      → ◌≡◌ {A = Option (String × String)} (some (u, p)) (some (user, password))
  named u p same_user same_password = cc

  digest_lem :
      (header target : String)
      → (elim (parse_digest_authorization g.to_lower header) as (λ o. Bool) [
        | none ↦ false
        | some kv ↦
            if not (str_eq (get_or "" kv "uri") target)
            then false
            else verify_digest g kv method user password now
      ])
        ≡ true
      → (kv : Dict String) × (parse_digest_authorization g.to_lower header ≡ some kv)
        × (get_or "" kv "uri" ≡ target)
        × Proves kv
  digest_lem header target h = elim (Option-cases (parse_digest_authorization g.to_lower header)) [
    | inl p ↦ absurd (cc (rw p at h))
    | inr (kv, p) ↦ let r = targeted kv target (rw p at h) in (kv, p, r.0, r.1)
  ]

  -- A request that is let in has the name and the password of the configuration, or a Digest header for
  -- its own target that proves the password.
  pub caldav_authorized_lem :
      (basic : Option (String × String)) (header target : String)
      → caldav_authorized g basic header method target user password now ≡ true
      → (basic ≡ some (user, password))
        ⊎ ((kv : Dict String) × (parse_digest_authorization g.to_lower header ≡ some kv)
            × (get_or "" kv "uri" ≡ target)
            × Proves kv)
  unfolding caldav_authorized
  caldav_authorized_lem none header target h = inr (digest_lem header target h)
  caldav_authorized_lem (some (u, p)) header target h =
      elim (Bool-cases (str_eq u user && str_eq p password)) [
        | inl both ↦ inl (
            named u p (ground (arith, both, eq_iff u user))
              (ground (arith, both, eq_iff p password)))
        | inr q ↦ inr (digest_lem header target (rw (q, caldav_authorized) at h))
      ]
