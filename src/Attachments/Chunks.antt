-- ===== src/Attachments/Chunks.antt =====
-- The download of a large attachment: what comes back, and when the loop does not end.
use eas_bridge.Prelude.{
  ℕ, zero, suc, ◌+◌, ◌-◌, ◌<◌, min, String, ◌≡◌, refl, sym, ap, ◌∙◌, subst, true, false, Option,
  none, some, List, [], ◌∷◌, ◌++◌, arith, is_empty, is_nil, length, length-append, ltb, leb, inr,
  ◌⊎◌,
}
use mathlib.Core.List.{append_assoc, append-nil}
use eas_bridge.Eas.{Attachment}
use eas_bridge.Attachments.Download.{
  attachment_chunk_size, FetchedAttachment, DownloadError, decode_base64_chunk, download_chunks,
  download_attachment,
}

module _ (decode : List ℕ → Option (List ℕ)) {E W : Type 0}
    (fetch_attachment : String → ℕ → ℕ → W → (E ⊎ FetchedAttachment) × W) (file_reference : String)
    (content : List ℕ) where
  stop :
      (fuel size : ℕ) (buf : List ℕ) (w : W)
      → ltb (length buf) size ≡ false
      → download_chunks decode fetch_attachment (suc fuel) file_reference size (length buf) buf w
        ≡ some (inr buf, w)
  unfolding download_chunks
  stop fuel size buf w p = rw (p, download_chunks) refl

  abbrev pub asked : ℕ → ℕ → W → (E ⊎ FetchedAttachment) × W
  asked size start w =
      fetch_attachment file_reference start (min (start + attachment_chunk_size - 1) (size - 1)) w

  next :
      (fuel size start : ℕ) (buf chunk : List ℕ) (w : W) (result : FetchedAttachment) (n : ℕ)
      → ltb start size ≡ true
      → (asked size start w).0 ≡ inr result
      → is_empty result.range ≡ false
      → is_nil result.data_bytes ≡ false
      → decode_base64_chunk decode result.data_bytes ≡ some (chunk, n)
      → download_chunks decode fetch_attachment (suc fuel) file_reference size start buf w
        ≡ download_chunks decode fetch_attachment fuel file_reference size
            (start + length chunk)
            (buf ++ chunk)
            (asked size start w).1
  unfolding download_chunks
  next fuel size start buf chunk w result n p q r s t = rw (p, q, r, s, t, download_chunks) refl

  -- An answer with a range, whose data decodes to a chunk that is not empty and with which `rest` begins.
  abbrev pub Continues : List ℕ → E ⊎ FetchedAttachment → Type 0
  Continues rest answer =
      (result : FetchedAttachment) × (chunk rest' : List ℕ) × (n : ℕ) × (answer ≡ inr result)
      × (is_empty result.range ≡ false)
      × (is_nil result.data_bytes ≡ false)
      × (decode_base64_chunk decode result.data_bytes ≡ some (chunk, n))
      × (0 < length chunk)
      × (rest ≡ chunk ++ rest')

  -- The server answers each request of the loop, from where a part of the content ends, with the next chunk.
  abbrev pub Serves : Type 0
  Serves =
      (buf rest : List ℕ) (w : W)
      → content ≡ buf ++ rest
      → 0 < length rest
      → Continues rest (asked (length content) (length buf) w).0

  abbrev pub Arrives : Option ((DownloadError E ⊎ List ℕ) × W) → Type 0
  Arrives o = (w' : W) × (o ≡ some (inr content, w'))

  chunks_arrive :
      (serves : Serves) (fuel : ℕ) (buf rest : List ℕ) (w : W)
      → content ≡ buf ++ rest
      → length rest < fuel
      → Arrives (
          download_chunks decode fetch_attachment fuel file_reference
            (length content)
            (length buf)
            buf
            w)
  chunks_arrive serves zero buf rest w e few = absurd (omega (arith, few))
  chunks_arrive serves (suc fuel) buf [] w e few =
      let same : content ≡ buf = e ∙ append-nil buf in
      (
        w,
        stop fuel (length content) buf w (rw same (ground arith))
            ∙ ap (λ c. some (inr c, w)) (sym same),
      )
  chunks_arrive serves (suc fuel) buf (x ∷ rest) w e few =
      let (result, chunk, rest', n, p, q, r, s, some_bytes, parts) =
        serves buf (x ∷ rest) w e (omega arith) in
      let more : length (x ∷ rest) ≡ length chunk + length rest' =
        ap length parts ∙ length-append chunk rest' in
      let whole : length content ≡ length buf + length (x ∷ rest) =
        ap length e ∙ length-append buf (x ∷ rest) in
      let w1 = (asked (length content) (length buf) w).1 in
      let later =
        chunks_arrive serves fuel (buf ++ chunk) rest' w1
          (e ∙ ap (λ t. buf ++ t) parts ∙ sym (append_assoc buf chunk rest'))
          (omega (arith, few, more, some_bytes)) in
      let step =
        next fuel (length content) (length buf) buf chunk w result n (ground (arith, whole)) p q r
          s in
      let here =
        subst
          (λ k. Arrives (
            download_chunks decode fetch_attachment fuel file_reference (length content) k
              (buf ++ chunk) w1))
          (length-append buf chunk) later in
      (here.0, step ∙ here.1)

  -- Where the server answers each request with the next chunk, the loop returns the content; its length and
  -- one round more are enough.
  pub download_chunks-arrives :
      (serves : Serves) (w : W)
      → (w' : W) × (download_chunks decode fetch_attachment
            (suc (length content))
            file_reference
            (length content)
            0
            []
            w
          ≡ some (inr content, w'))
  download_chunks-arrives serves w =
      chunks_arrive serves (suc (length content)) [] content w refl (omega arith)

  -- The download of an attachment that is larger than a chunk returns the content of such a server.
  pub download_attachment-arrives :
      (serves : Serves) (meta : Attachment) (w : W)
      → meta.file_reference ≡ file_reference
      → meta.estimated_data_size ≡ length content
      → attachment_chunk_size < length content
      → (w' : W) × (download_attachment decode fetch_attachment (suc (length content)) meta w
          ≡ some (inr content, w'))
  unfolding download_attachment
  download_attachment-arrives serves meta w same size large =
      let small : leb (length content) attachment_chunk_size ≡ false = ground (arith, large) in
      rw (size, same, small, download_attachment) (download_chunks-arrives serves w)

  -- The answers from a place on have a range and data, and decode to nothing.
  abbrev pub Stalls : ℕ → ℕ → Type 0
  Stalls size start =
      (w : W)
      → (result : FetchedAttachment) × (n : ℕ) × ((asked size start w).0 ≡ inr result)
        × (is_empty result.range ≡ false)
        × (is_nil result.data_bytes ≡ false)
        × (decode_base64_chunk decode result.data_bytes ≡ some ([], n))

  -- Where the answers at a place before the end have data that decodes to nothing, no fuel is enough for the
  -- loop.
  pub download_chunks-Stalls :
      (size start : ℕ) (stalls : Stalls size start) (fuel : ℕ) (buf : List ℕ) (w : W)
      → start < size
      → download_chunks decode fetch_attachment fuel file_reference size start buf w ≡ none
  unfolding download_chunks
  download_chunks-Stalls size start stalls zero buf w more = refl
  download_chunks-Stalls size start stalls (suc fuel) buf w more =
      let (result, n, p, q, r, s) = stalls w in
      let at_start : start + 0 ≡ start = omega arith in
      next fuel size start buf [] w result n (ground (arith, more)) p q r s
      ∙ subst
          (λ k.
            download_chunks decode fetch_attachment fuel file_reference size k (buf ++ [])
              (asked size start w).1
            ≡ none)
          (sym at_start)
          (download_chunks-Stalls size start stalls fuel (buf ++ []) (asked size start w).1 more)
