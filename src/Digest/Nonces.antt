-- ===== src/Digest/Nonces.antt =====
-- A nonce that the process mints is good for the time that digest.go gives it.
use Prim.Native.Char.{code, char}
use Prim.Native.String.{[], ◌∷◌, ◌++◌}
use Prim.Native.String.append
use eas_bridge.Prelude.{
  ℕ, ◌+◌, ◌*◌, ◌/◌, ◌≤◌, String, ◌≡◌, refl, ap, ◌∙◌, Bool, true, false, not, ◌&&◌, some, eq_refl,
  ◌==◌, arith,
}
use eas_bridge.Digest.Verify.{
  Codecs, second, digest_nonce_ttl, cut_dot, mint_nonce, is_current, valid_nonce,
}

-- No character of the text is '.'.
unfoldable pub is_dotless : String → Bool
is_dotless [] = true
is_dotless (c ∷ cs) = not (code c == 46) && is_dotless cs

dotted : (r : String) → "." ++ r ≡ (char 46 tt ∷ r)
dotted r = append.cons (char 46 tt) [] r ∙ ap (λ t. char 46 tt ∷ t) (append.nil r)

cut_dot-dotless : (s r : String) → is_dotless s ≡ true → cut_dot (s ++ "." ++ r) ≡ some (s, r)
unfolding cut_dot is_dotless
cut_dot-dotless [] r plain = rw (append.nil ("." ++ r), dotted r, cut_dot) refl
cut_dot-dotless (c ∷ cs) r plain =
    let other : (code c == 46) ≡ false = ground (arith, plain) in
    rw (append.cons c cs ("." ++ r), cut_dot, cut_dot-dotless cs r (ground (arith, plain)), other)
      refl

module _ (g : Codecs) where
  is_current-later :
      (now later : ℕ)
      → now ≤ later
      → later ≤ (now / second) * second + digest_nonce_ttl
      → is_current g (now / second) later ≡ true
  unfolding is_current
  is_current-later now later after soon = ground arith

  -- Where base64 and the numbers read back what they print, and a printed number has no '.', a nonce is good
  -- from the moment it is minted until its lifetime after the second of that moment.
  pub valid_nonce-mint_nonce :
      (decode_encode : (s : String) → g.decode (g.encode s) ≡ some s)
      → (parse_format : (n : ℕ) → g.parse_int (g.format_int n) ≡ some n)
      → (format_plain : (n : ℕ) → is_dotless (g.format_int n) ≡ true) → (now later : ℕ)
      → now ≤ later
      → later ≤ (now / second) * second + digest_nonce_ttl
      → valid_nonce g (mint_nonce g now) later ≡ true
  unfolding valid_nonce mint_nonce
  valid_nonce-mint_nonce decode_encode parse_format format_plain now later after soon =
      let ts = g.format_int (now / second) in
      rw
        (
          mint_nonce,
          valid_nonce,
          decode_encode (ts ++ "." ++ g.mac ts),
          cut_dot-dotless ts (g.mac ts) (format_plain (now / second)),
          parse_format (now / second),
          eq_refl (g.mac ts),
          is_current-later now later after soon,
        )
        refl
