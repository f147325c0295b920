-- ===== src/Attachments/Download.antt =====
-- decodeBase64Chunk and decodeAttachmentData (mime.go), downloadAttachment (mime_engine.go). Bytes are
-- numbers. The client of the server, with its errors, and the decoder of base64 are parameters.
use eas_bridge.Prelude.{
  ℕ, zero, suc, ◌+◌, ◌-◌, min, String, Bool, true, false, ◌||◌, Option, none, some, List, [], ◌∷◌,
  ◌++◌, is_empty, is_nil, length, ltb, leb, ◌==◌, if◌then◌else◌, inl, inr, ◌⊎◌,
}
use eas_bridge.Eas.{Attachment}

-- attachmentChunkSize, `4 << 20`
abbrev pub attachment_chunk_size : ℕ
attachment_chunk_size = 4194304

-- The answer to FetchAttachment, as far as it is read.
pub record FetchedAttachment : Type 0 where
  pub data_bytes : List ℕ
  pub range : String

-- The error of a request, a chunk without data, and a chunk that is not base64.
pub data DownloadError (E : Type 0) : Type 0 where
  fetch_failed : E → DownloadError E
  empty_chunk : DownloadError E
  bad_chunk : DownloadError E

unfoldable pub is_blank : ℕ → Bool
is_blank b = b == 13 || b == 10 || b == 32 || b == 9

unfoldable pub compact_bytes : List ℕ → List ℕ
unfolding is_blank
compact_bytes [] = []
compact_bytes (b ∷ bs) = let rest = compact_bytes bs in if is_blank b then rest else b ∷ rest

module _ (decode : List ℕ → Option (List ℕ)) where
  -- decodeBase64Chunk
  unfoldable pub decode_base64_chunk : List ℕ → Option (List ℕ × ℕ)
  unfolding compact_bytes
  decode_base64_chunk raw = elim (decode (compact_bytes raw)) [
    | none ↦ none
    | some dec ↦ some (dec, length (compact_bytes raw))
  ]

  -- decodeAttachmentData
  unfoldable pub decode_attachment_data : List ℕ → ℕ → List ℕ
  unfolding decode_base64_chunk
  decode_attachment_data raw declared_size = elim (decode_base64_chunk raw) [
    | none ↦ raw
    | some (dec, compact_len) ↦
        if ltb 0 declared_size
        then if length dec == declared_size
          then dec
          else if length raw == declared_size
          then raw
          else if leb 16 compact_len
          then dec
          else raw
        else if leb 16 compact_len
        then dec
        else raw
  ]

  module _ {E W : Type 0}
      (fetch_attachment : String → ℕ → ℕ → W → (E ⊎ FetchedAttachment) × W) where
    -- The loop over the chunks, on fuel: `none` when it is used up.
    unfoldable pub download_chunks :
        ℕ → String → ℕ → ℕ → List ℕ → W → Option ((DownloadError E ⊎ List ℕ) × W)
    unfolding decode_attachment_data decode_base64_chunk
    download_chunks zero file_reference size start buf w = none
    download_chunks (suc fuel) file_reference size start buf w =
        let end = min (start + attachment_chunk_size - 1) (size - 1) in
        let r = fetch_attachment file_reference start end w in
        elim (ltb start size) [
          | false ↦ some (inr buf, w)
          | true ↦ elim (r.0) [
            | inl e ↦ some (inl (fetch_failed e), r.1)
            | inr result ↦ elim (is_empty result.range) [
              | true ↦ some (inr (decode_attachment_data result.data_bytes size), r.1)
              | false ↦ elim (is_nil result.data_bytes) [
                | true ↦ some (inl empty_chunk, r.1)
                | false ↦ elim (decode_base64_chunk result.data_bytes) [
                  | none ↦ some (inl bad_chunk, r.1)
                  | some (chunk, compact_len) ↦
                      download_chunks fuel file_reference size (start + length chunk) (buf ++ chunk)
                        (r.1)
                ]
              ]
            ]
          ]
        ]

    -- downloadAttachment
    unfoldable pub download_attachment :
        ℕ → Attachment → W → Option ((DownloadError E ⊎ List ℕ) × W)
    unfolding download_chunks decode_attachment_data
    download_attachment fuel meta w =
        let r = fetch_attachment meta.file_reference 0 0 w in
        if leb meta.estimated_data_size attachment_chunk_size
        then elim (r.0) [
          | inl e ↦ some (inl (fetch_failed e), r.1)
          | inr result ↦
              some (inr (decode_attachment_data result.data_bytes meta.estimated_data_size), r.1)
        ]
        else download_chunks fuel meta.file_reference meta.estimated_data_size 0 [] w
