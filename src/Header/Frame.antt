-- ===== src/Header/Frame.antt =====
-- The frame header parser after the frame header writer.
use zrip.Common.{ℕ, suc, ◌+◌, ◌^◌, ◌≡◌, refl, sym, ap, ◌∙◌, arith}
use zrip.Common.{Bool, true, false, not, List, [], ◌∷◌, ◌++◌, length, bit_and, append_assoc}
use zrip.Common.{Option, none, some, ok, ◌==◌, if◌then◌else◌, ge→ltb, length-append}
use zrip.Common.Words.{◌>>>◌}
use zrip.Header.{FrameHeader, le_at, parse_window, parse_dict_id, parse_content_size}
use zrip.Header.{unwrap_or_zero, window_descriptor_for_log, fcs_flag, fcs_field_size, dict_id_flag}
use zrip.Header.{dict_id_bytes, content_size_bytes, is_single_segment, fcs_size_of}
use zrip.Header.{parse_frame_header_after_magic, parse_frame_header, write_frame_header_inner}
use zrip.Header.Fields.{ValidId, ValidSize, clamped, descriptor, descriptor_lem, need-ok}
use zrip.Header.Fields.{
  window_of-window_descriptor_for_log, parse_dict_id_lem, parse_content_size_lem,
}
use zrip.Header.Fields.{dict_id_flag-lt, fcs_field_size-fcs_flag}

-- The parser put together from what its parts return.
parse_frame_header_after_magic-ok :
    (d : ℕ) (ys : List ℕ) (magic_size f w o1 o2 o3 : ℕ) (id size : Option ℕ)
    (single checksum : Bool)
    → not (bit_and d 0x20 == 0) ≡ single
    → not (bit_and d 0x08 == 0) ≡ false
    → not (bit_and d 0x04 == 0) ≡ checksum
    → fcs_field_size (bit_and (d >>> 6) 3) single ≡ f
    → parse_window (d ∷ ys) single ≡ ok (w, o1)
    → parse_dict_id (d ∷ ys) (bit_and d 3) o1 ≡ ok (id, o2)
    → parse_content_size (d ∷ ys) f o2 ≡ ok (size, o3)
    → parse_frame_header_after_magic (d ∷ ys) magic_size
      ≡ ok (record {
        window_size = if single then unwrap_or_zero size else w;
        frame_content_size = size;
        dict_id = id;
        content_checksum = checksum;
        single_segment = single;
        header_size = o3 + magic_size;
      })
unfolding parse_frame_header_after_magic
parse_frame_header_after_magic-ok d ys magic_size f w o1 o2 o3 id size single checksum d1 d2 d3 d4
      p1 p2 p3 =
    let filled : (suc (length ys) == 0) ≡ false = ground arith in
    rw (filled, d1, d2, d3, d4, p1, p2, p3)

same_window : (s : Bool) (a b : ℕ) → (if s then a else (if s then 0 else b)) ≡ (if s then a else b)
same_window true a b = refl
same_window false a b = refl

unsized : (id : Option ℕ) → is_single_segment id none ≡ false
unfolding is_single_segment
unsized none = refl
unsized (some id) = refl

past_magic :
    (ys : List ℕ)
    → parse_frame_header (40 ∷ 181 ∷ 47 ∷ 253 ∷ ys) ≡ parse_frame_header_after_magic ys 4
unfolding parse_frame_header le_at
past_magic ys = let long = ge→ltb (suc (suc (suc (suc (length ys))))) 4 (omega arith) in rw long

module _ (size id : Option ℕ) (window_log : ℕ) (checksum : Bool) where
  abbrev single : Bool
  single = is_single_segment id size

  abbrev fcs_size : ℕ
  fcs_size = fcs_size_of size single

  abbrev lead : ℕ
  lead = descriptor single checksum (fcs_flag fcs_size) (dict_id_flag id)

  abbrev window_bytes : List ℕ
  window_bytes = if single then [] else window_descriptor_for_log window_log ∷ []

  abbrev size_bytes : List ℕ
  size_bytes = content_size_bytes fcs_size (unwrap_or_zero size)

  -- What a reader of the header learns.
  abbrev pub header_of : ℕ → FrameHeader
  header_of n = record {
    window_size = if single then unwrap_or_zero size else 2 ^ clamped window_log;
    frame_content_size = size;
    dict_id = id;
    content_checksum = checksum;
    single_segment = single;
    header_size = n;
  }

  -- The header behind the magic number.
  abbrev body : List ℕ → List ℕ
  body rest = lead ∷ (window_bytes ++ (dict_id_bytes id ++ (size_bytes ++ rest)))

  parse_window_lem :
      (s : Bool) (post : List ℕ)
      → parse_window
          (lead ∷ ((if s then [] else window_descriptor_for_log window_log ∷ []) ++ post))
          s
        ≡ ok (
          if s then 0 else 2 ^ clamped window_log,
          suc (length (if s then [] else window_descriptor_for_log window_log ∷ [])),
        )
  unfolding parse_window
  parse_window_lem true post = refl
  parse_window_lem false post =
      need-ok [] (lead ∷ window_descriptor_for_log window_log ∷ []) post 2 _ refl
      ∙ ap (λ (t : ℕ). ok (t, 2)) (window_of-window_descriptor_for_log window_log)

  no_size : size ≡ none → single ≡ false
  no_size e = ap (is_single_segment id) e ∙ unsized id

  parse_body :
      (rest : List ℕ) (magic_size : ℕ)
      → ValidSize size
      → ValidId id
      → parse_frame_header_after_magic (body rest) magic_size
        ≡ ok (
            header_of (
              suc (length window_bytes)
              + length (dict_id_bytes id)
              + length size_bytes
              + magic_size))
  parse_body rest magic_size hs hi =
      let (flagged, flag_lt) = fcs_field_size-fcs_flag single size hs no_size in
      let (d1, d2, d3, d4, d5) =
        descriptor_lem single checksum (fcs_flag fcs_size) (dict_id_flag id) flag_lt
          (dict_id_flag-lt id) in
      let tail : List ℕ = dict_id_bytes id ++ (size_bytes ++ rest) in
      let o1 : ℕ = suc (length window_bytes) in
      let o2 : ℕ = o1 + length (dict_id_bytes id) in
      let p1 = parse_window_lem single tail in
      let p2 = parse_dict_id_lem (lead ∷ window_bytes) (size_bytes ++ rest) id o1 refl hi in
      let again : body rest ≡ ((lead ∷ window_bytes) ++ dict_id_bytes id) ++ (size_bytes ++ rest) =
        sym (append_assoc (lead ∷ window_bytes) (dict_id_bytes id) (size_bytes ++ rest)) in
      let p3 : parse_content_size (body rest) fcs_size o2 ≡ ok (size, o2 + length size_bytes) =
        ap (λ t. parse_content_size t fcs_size o2) again
        ∙ parse_content_size_lem ((lead ∷ window_bytes) ++ dict_id_bytes id) rest size single o2
            (sym (length-append (lead ∷ window_bytes) (dict_id_bytes id))) hs in
      parse_frame_header_after_magic-ok lead (window_bytes ++ tail) magic_size fcs_size
        (if single then 0 else 2 ^ clamped window_log) o1 o2 (o2 + length size_bytes) id size single
        checksum d1 d2 d3 (ap (λ (t : ℕ). fcs_field_size t single) d5 ∙ flagged) p1
        (ap (λ (t : ℕ). parse_dict_id (body rest) t o1) d4 ∙ p2) p3
      ∙ ap
          (λ (w : ℕ). ok (record {
            window_size = w;
            frame_content_size = size;
            dict_id = id;
            content_checksum = checksum;
            single_segment = single;
            header_size = o2 + length size_bytes + magic_size;
          }))
          (same_window single (unwrap_or_zero size) (2 ^ clamped window_log))

  -- What `write_frame_header_inner` writes for a content size below 2^64 or none, and for a nonzero
  -- 32-bit dictionary id or none, is parsed, whatever bytes follow: the parser returns the size, the
  -- id and the checksum flag, the size or the clamped power of two as the window, and the length of
  -- what was written.
  pub parse_frame_header-write_frame_header_inner :
      (rest : List ℕ)
      → ValidSize size
      → ValidId id
      → parse_frame_header (write_frame_header_inner size id window_log checksum ++ rest)
        ≡ ok (header_of (length (write_frame_header_inner size id window_log checksum)))
  unfolding write_frame_header_inner
  parse_frame_header-write_frame_header_inner rest hs hi =
      let n : ℕ = suc (length window_bytes) + length (dict_id_bytes id) + length size_bytes + 4 in
      let regrouped : ((window_bytes ++ dict_id_bytes id) ++ size_bytes) ++ rest
          ≡ window_bytes ++ (dict_id_bytes id ++ (size_bytes ++ rest)) =
        append_assoc (window_bytes ++ dict_id_bytes id) size_bytes rest
        ∙ append_assoc window_bytes (dict_id_bytes id) (size_bytes ++ rest) in
      let long : n ≡ length (write_frame_header_inner size id window_log checksum) = omega (
        arith,
        length-append (window_bytes ++ dict_id_bytes id) size_bytes,
        length-append window_bytes (dict_id_bytes id),
      ) in
      ap (λ t. parse_frame_header (40 ∷ 181 ∷ 47 ∷ 253 ∷ lead ∷ t)) regrouped
      ∙ past_magic (body rest)
      ∙ parse_body rest 4 hs hi
      ∙ ap (λ (k : ℕ). ok (header_of k)) long
