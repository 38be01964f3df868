-- ===== src/Header/Fields.antt =====
-- The fields of a frame header one by one, on the writer's and the parser's side.
use zrip.Common.{ℕ, ◌+◌, ◌-◌, ◌*◌, ◌/◌, ◌^◌, ◌<◌, ◌≡◌, refl, sym, ap, ◌∙◌, arith, min, max}
use zrip.Common.{Bool, true, false, not, ◌&&◌, List, ◌++◌, length, take, bit_and, bit_or}
use zrip.Common.{Option, none, some, Result, ok, leb, leb→le, ge→ltb, ◌==◌, ==→eq, if◌then◌else◌}
use zrip.Common.{
  Bool-cases, inl, inr, passes_below, passes_below_lem, length-append, take-append, drop-append,
}
use zrip.Common.Words.{u8, u16, u32, u64, ◌<<<◌, ◌>>>◌}
use zrip.Common.Bytes.{from_le_bytes, length-to_le_bytes, from_le_bytes-to_le_bytes}
use zrip.Common.Bits.{bit_and_mask}
use zrip.Header.{le_at, need, window_of, dict_id_size, parse_dict_id, fcs_field_size}
use zrip.Header.{parse_content_size, unwrap_or_zero, frame_content_size_field_size}
use zrip.Header.{
  window_descriptor_for_log, fcs_flag, dict_id_flag, dict_id_bytes, content_size_bytes,
}
use zrip.Header.{fcs_size_of}

-- A field inside a header is read at its offset.
pub le_at_field :
    (pre mid post : List ℕ) (offset n : ℕ)
    → offset ≡ length pre
    → n ≡ length mid
    → le_at (pre ++ (mid ++ post)) offset n ≡ from_le_bytes mid
unfolding le_at
le_at_field pre mid post offset n e f =
    ap (λ t. from_le_bytes (take n t)) (drop-append offset pre (mid ++ post) e)
    ∙ ap from_le_bytes (take-append n mid post f)

pub need-ok :
    {A : Type 0} (pre mid post : List ℕ) (end : ℕ) (next : Result A)
    → end ≡ length pre + length mid
    → need (pre ++ (mid ++ post)) end next ≡ next
unfolding need
need-ok pre mid post end next e =
    let long =
      ge→ltb (length (pre ++ (mid ++ post))) end
        (omega (arith, e, length-append pre (mid ++ post), length-append mid post)) in
    rw long

-- The descriptor byte, bit by bit.
abbrev pub descriptor : Bool → Bool → ℕ → ℕ → ℕ
descriptor single checksum fcs id =
    bit_or (bit_or (bit_or (if single then 0x20 else 0) (if checksum then 0x04 else 0)) (fcs <<< 6))
      id

abbrev same : Bool → Bool → Bool
same a b = if a then b else not b

abbrev descriptor_test : Bool → Bool → ℕ → ℕ → Bool
descriptor_test single checksum fcs id =
    let d = descriptor single checksum fcs id in
    same (not (bit_and d 0x20 == 0)) single
    && (not (not (bit_and d 0x08 == 0))
        && (same (not (bit_and d 0x04 == 0)) checksum
            && (bit_and d 3 == id && bit_and (d >>> 6) 3 == fcs)))

descriptor_table :
    (single checksum : Bool)
    → passes_below (λ fcs. passes_below (descriptor_test single checksum fcs) 4) 4 ≡ true
descriptor_table true true = refl
descriptor_table true false = refl
descriptor_table false true = refl
descriptor_table false false = refl

&&-both : (a b : Bool) → (a && b) ≡ true → (a ≡ true) × (b ≡ true)
&&-both true true e = (refl, refl)
&&-both true false e = absurd (ground (arith, e))
&&-both false b e = absurd (ground (arith, e))

same-eq : (a b : Bool) → same a b ≡ true → a ≡ b
same-eq true b e = sym e
same-eq false true e = e
same-eq false false e = refl

not-true : (a : Bool) → not a ≡ true → a ≡ false
not-true true e = sym e
not-true false e = refl

pub descriptor_lem :
    (single checksum : Bool) (fcs id : ℕ)
    → fcs < 4
    → id < 4
    → (not (bit_and (descriptor single checksum fcs id) 0x20 == 0) ≡ single)
      × (not (bit_and (descriptor single checksum fcs id) 0x08 == 0) ≡ false)
      × (not (bit_and (descriptor single checksum fcs id) 0x04 == 0) ≡ checksum)
      × (bit_and (descriptor single checksum fcs id) 3 ≡ id)
      × (bit_and (descriptor single checksum fcs id >>> 6) 3 ≡ fcs)
descriptor_lem single checksum fcs id hf hi =
    let row =
      passes_below_lem (λ k. passes_below (descriptor_test single checksum k) 4) 4 fcs
        (descriptor_table single checksum) hf in
    let t = passes_below_lem (descriptor_test single checksum fcs) 4 id row hi in
    let (a, r1) = &&-both _ _ t in
    let (b, r2) = &&-both _ _ r1 in
    let (c, r3) = &&-both _ _ r2 in
    let (d, e) = &&-both _ _ r3 in
    (same-eq _ _ a, not-true _ b, same-eq _ _ c, ==→eq _ _ d, ==→eq _ _ e)

-- The window size that the encoder advertises: the logarithm is moved into 10..=27.
abbrev pub clamped : ℕ → ℕ
clamped window_log = min (max window_log 10) 27

pub window_of-window_descriptor_for_log :
    (window_log : ℕ) → window_of (window_descriptor_for_log window_log) ≡ 2 ^ clamped window_log
unfolding window_of window_descriptor_for_log
window_of-window_descriptor_for_log window_log =
    let k : ℕ = clamped window_log - 10 in
    let d : u8 k * 2 ^ 3 ≡ k * 8 = omega arith in
    let low : bit_and (k * 8) 7 ≡ 0 = bit_and_mask 3 (k * 8) ∙ omega arith in
    ap (λ (t : ℕ). 1 * 2 ^ (10 + t / 2 ^ 3) + 1 * 2 ^ (10 + t / 2 ^ 3) / 2 ^ 3 * bit_and t 7) d
    ∙ ap (λ (t : ℕ). 1 * 2 ^ (10 + k * 8 / 2 ^ 3) + 1 * 2 ^ (10 + k * 8 / 2 ^ 3) / 2 ^ 3 * t) low
    ∙ omega arith
    ∙ ap (λ (t : ℕ). 2 ^ t) (let e : 10 + k * 8 / 2 ^ 3 ≡ clamped window_log = omega arith in e)

abbrev pub ValidId : Option ℕ → Type 0
ValidId none = Unit {0}
ValidId (some id) = (0 < id) × (id < 2 ^ 32)

abbrev pub ValidSize : Option ℕ → Type 0
ValidSize none = Unit {0}
ValidSize (some size) = size < 2 ^ 64

-- The bytes of an id spell it, and the flag gives their number.
dict_id_lem :
    (id : ℕ)
    → id < 2 ^ 32
    → (from_le_bytes (dict_id_bytes (some id)) ≡ id)
      × (dict_id_size (dict_id_flag (some id)) ≡ length (dict_id_bytes (some id)))
      × ((dict_id_size (dict_id_flag (some id)) == 0) ≡ false)
unfolding dict_id_bytes dict_id_size dict_id_flag
dict_id_lem id h = elim (Bool-cases (leb id 0xFF)) [
  | inl e ↦ rw e (omega (arith, leb→le id 0xFF e), refl, refl)
  | inr e ↦ elim (Bool-cases (leb id 0xFFFF)) [
    | inl f ↦
        rw (e, f)
          (
            from_le_bytes-to_le_bytes 2 (u16 id) (omega arith) ∙ omega (arith, leb→le id 0xFFFF f),
            sym (length-to_le_bytes 2 (u16 id)),
            refl,
          )
    | inr f ↦
        rw (e, f)
          (from_le_bytes-to_le_bytes 4 id (omega (arith, h)), sym (length-to_le_bytes 4 id), refl)
  ]
]

pub dict_id_flag-lt : (id : Option ℕ) → dict_id_flag id < 4
unfolding dict_id_flag
dict_id_flag-lt none = omega arith
dict_id_flag-lt (some id) = ground arith

parse_dict_id-ok :
    (pre bytes post : List ℕ) (flag offset id : ℕ)
    → offset ≡ length pre
    → dict_id_size flag ≡ length bytes
    → (dict_id_size flag == 0) ≡ false
    → from_le_bytes bytes ≡ id
    → 0 < id
    → parse_dict_id (pre ++ (bytes ++ post)) flag offset ≡ ok (some id, offset + length bytes)
unfolding parse_dict_id
parse_dict_id-ok pre bytes post flag offset id e len nz val pos =
    let keep : (id == 0) ≡ false = ground arith in
    rw (
      nz,
      need-ok pre bytes post (offset + dict_id_size flag) _ (omega (arith, e, len)),
      le_at_field pre bytes post offset (dict_id_size flag) e len,
      val,
      keep,
      len,
    )

pub parse_dict_id_lem :
    (pre post : List ℕ) (id : Option ℕ) (offset : ℕ)
    → offset ≡ length pre
    → ValidId id
    → parse_dict_id (pre ++ (dict_id_bytes id ++ post)) (dict_id_flag id) offset
      ≡ ok (id, offset + length (dict_id_bytes id))
parse_dict_id_lem pre post none offset e h =
    unfold parse_dict_id dict_id_flag dict_id_bytes dict_id_size in
    ap (λ (t : ℕ). ok (none, t)) (let q : offset ≡ offset + 0 = omega arith in q)
parse_dict_id_lem pre post (some id) offset e (pos, h) =
    let (val, len, nz) = dict_id_lem id h in
    parse_dict_id-ok pre (dict_id_bytes (some id)) post (dict_id_flag (some id)) offset id e len nz
      val pos

-- Whether a size field is two bytes, with the 256 left out of it.
parse_content_size-ok :
    (pre bytes post : List ℕ) (size offset v : ℕ)
    → offset ≡ length pre
    → size ≡ length bytes
    → (size == 0) ≡ false
    → (if size == 2 then from_le_bytes bytes + 256 else from_le_bytes bytes) ≡ v
    → parse_content_size (pre ++ (bytes ++ post)) size offset ≡ ok (some v, offset + length bytes)
unfolding parse_content_size
parse_content_size-ok pre bytes post size offset v e len nz val = rw (
  nz,
  need-ok pre bytes post (offset + size) _ (omega (arith, e, len)),
  le_at_field pre bytes post offset size e len,
  val,
  len,
)

-- What a content size is written as, by the size of its field.
record Written (single : Bool) (size fcs : ℕ) : Type 0 where
  long : fcs ≡ length (content_size_bytes fcs size)
  some_bytes : (fcs == 0) ≡ false
  spells :
      (if fcs == 2
        then from_le_bytes (content_size_bytes fcs size) + 256
        else from_le_bytes (content_size_bytes fcs size))
      ≡ size
  flagged : fcs_field_size (fcs_flag fcs) single ≡ fcs

content_size-Written :
    (single : Bool) (size : ℕ)
    → size < 2 ^ 64
    → Written single size (frame_content_size_field_size size single)
unfolding frame_content_size_field_size content_size_bytes fcs_field_size fcs_flag
content_size-Written single size h = elim (Bool-cases (single && leb size 255)) [
  | inl e ↦
      let (one, small) = &&-both single (leb size 255) e in
      rw e (record {
        long = refl;
        some_bytes = refl;
        spells = omega (arith, leb→le size 255 small);
        flagged = ap (λ (b : Bool). if b then 1 else 0) one;
      })
  | inr e ↦ elim (Bool-cases (leb 256 size && leb size 0x100FF)) [
    | inl f ↦
        let (above, below) = &&-both (leb 256 size) (leb size 0x100FF) f in
        let a = leb→le 256 size above in
        let b = leb→le size 0x100FF below in
        rw (e, f)
          (record {
            long = refl;
            some_bytes = refl;
            spells =
                ap (λ (t : ℕ). t + 256)
                  (from_le_bytes-to_le_bytes 2 (u16 (size - 256)) (omega arith))
                ∙ omega arith;
            flagged = refl;
          })
    | inr f ↦ elim (Bool-cases (leb size 0xFFFFFFFF)) [
      | inl g ↦
          let below = leb→le size 0xFFFFFFFF g in
          rw (e, f, g)
            (record {
              long = refl;
              some_bytes = refl;
              spells = from_le_bytes-to_le_bytes 4 (u32 size) (omega arith) ∙ omega arith;
              flagged = refl;
            })
      | inr g ↦
          rw (e, f, g)
            (record {
              long = refl;
              some_bytes = refl;
              spells = from_le_bytes-to_le_bytes 8 (u64 size) (omega arith) ∙ omega arith;
              flagged = refl;
            })
    ]
  ]
]

pub fcs_field_size-fcs_flag :
    (single : Bool) (size : Option ℕ)
    → ValidSize size
    → (size ≡ none → single ≡ false)
    → (fcs_field_size (fcs_flag (fcs_size_of size single)) single ≡ fcs_size_of size single)
      × (fcs_flag (fcs_size_of size single) < 4)
unfolding fcs_size_of
fcs_field_size-fcs_flag single none h unsized =
    (rw (unsized refl) (unfold fcs_field_size fcs_flag in refl), unfold fcs_flag in omega arith)
fcs_field_size-fcs_flag single (some size) h unsized =
    ((content_size-Written single size h).flagged, unfold fcs_flag in ground arith)

pub parse_content_size_lem :
    (pre post : List ℕ) (size : Option ℕ) (single : Bool) (offset : ℕ)
    → offset ≡ length pre
    → ValidSize size
    → parse_content_size
        (pre ++ (content_size_bytes (fcs_size_of size single) (unwrap_or_zero size) ++ post))
        (fcs_size_of size single)
        offset
      ≡ ok (
        size,
        offset + length (content_size_bytes (fcs_size_of size single) (unwrap_or_zero size)),
      )
unfolding fcs_size_of unwrap_or_zero
parse_content_size_lem pre post none single offset e h =
    unfold parse_content_size content_size_bytes in
    ap (λ (t : ℕ). ok (none, t)) (let q : offset ≡ offset + 0 = omega arith in q)
parse_content_size_lem pre post (some size) single offset e h =
    let fcs : ℕ = frame_content_size_field_size size single in
    let w = content_size-Written single size h in
    parse_content_size-ok pre (content_size_bytes fcs size) post fcs offset size e w.long
      w.some_bytes w.spells
