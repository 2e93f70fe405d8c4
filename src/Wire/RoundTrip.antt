-- ===== src/Wire/RoundTrip.antt =====
-- `Decode` after `Encode`, and `Encode` after `Decode`.
use proto_test.Base.{
  ℕ, ◌+◌, ◌%◌, ◌^◌, ◌≤◌, ◌<◌, ◌≡◌, ap, sym, ◌∙◌, List, ◌∷◌, ◌++◌, length, section, take, drop,
  get_or, All, IsByte, ok, arith, length-append, take-append_length, ap₂, to_u64, to_i64,
  to_u64-to_i64, put_be, get_be, All-section, length-section, get_or-All, to_i64-IsI64, get_be-lt,
  section-append-drop, drop-eq-cons, put_be-get_be,
}
use proto_test.Wire.{Frame, IsFrame, frame_bytes, encode, decoded, decode, magic, version}
use proto_test.Wire.Fields.{
  length-frame_bytes, frame_bytes_append, magic_field, version_field, size_field,
  decoded-frame_bytes,
}

-- A frame whose fields fit their types and whose payload has at most 65535 bytes is encoded, in
-- 26 bytes and its payload, and `Decode` reads the same frame back from that buffer with any bytes
-- behind it.
pub decode-encode :
    (f : Frame) (rest : List ℕ)
    → IsFrame f
    → length f.payload ≤ 0xFFFF
    → (buf : List ℕ) × (encode f ≡ ok buf)
      × (length buf ≡ 26 + length f.payload)
      × (decode (buf ++ rest) ≡ ok f)
unfolding encode decode
decode-encode f rest v h = (
  frame_bytes f,
  ground arith,
  length-frame_bytes f,
  ground (
    arith,
    length-append (frame_bytes f) rest,
    length-frame_bytes f,
    magic_field f rest,
    version_field f rest,
    size_field f rest h,
    decoded-frame_bytes f rest v h,
  ),
)

-- What `decode` has checked when it returns a frame.
pub record IsAccepted (input : List ℕ) : Type 0 where
  pub header_fits : 26 ≤ length input
  pub has_magic : get_be (section 0 4 input) ≡ magic
  pub has_version : get_or input 4 0 ≡ version
  pub payload_fits : 26 + get_be (section 24 2 input) ≤ length input

pub decode-IsAccepted :
    (input : List ℕ) {f : Frame} → decode input ≡ ok f → IsAccepted input × (f ≡ decoded input)
unfolding decode
decode-IsAccepted input h = ground arith

module _ (input : List ℕ) (bytes : All IsByte input) where
  -- Reading a big-endian number and writing it again gives the same bytes.
  rewrite_field :
      (o k : ℕ)
      → o + k ≤ length input
      → put_be k (get_be (section o k input)) ++ drop (o + k) input ≡ drop o input
  rewrite_field o k h = ap (λ ys. ys ++ drop (o + k) input) same ∙ section-append-drop o k input
    where
      same : put_be k (get_be (section o k input)) ≡ section o k input
      same =
          rw (length-section o k input h) at
            (put_be-get_be (section o k input) (All-section IsByte o k input bytes))

  field_lt : (o k : ℕ) → o + k ≤ length input → get_be (section o k input) < 256 ^ k
  field_lt o k h =
      rw (length-section o k input h) at
        (get_be-lt (section o k input) (All-section IsByte o k input bytes))

  decoded-IsFrame : IsAccepted input → IsFrame (decoded input)
  unfolding decoded
  decoded-IsFrame a = record {
    type_fits = get_or-All IsByte 5 0 input bytes (omega arith);
    seq_fits = omega (arith, field_lt 6 8 (omega arith));
    ts_fits = to_i64-IsI64 _ (omega (arith, field_lt 14 8 (omega arith)));
    channel_fits = omega (arith, field_lt 22 2 (omega arith));
    payload_bytes = All-section IsByte 26 _ input bytes;
  }

  module _ (a : IsAccepted input) where
    abbrev size : ℕ
    size = get_be (section 24 2 input)

    length-payload : length (decoded input).payload ≡ size
    unfolding decoded
    length-payload = length-section 26 size input a.payload_fits

    size_again : length (decoded input).payload % 2 ^ 16 ≡ size
    size_again = omega (arith, length-payload, field_lt 24 2 (omega (arith, a.header_fits)))

    ts_again : to_u64 (to_i64 (get_be (section 14 8 input))) ≡ get_be (section 14 8 input)
    ts_again = to_u64-to_i64 _ (omega (arith, field_lt 14 8 (omega (arith, a.header_fits))))

    first_bytes : version ∷ get_or input 5 0 ∷ drop 6 input ≡ drop 4 input
    first_bytes = sym (
        drop-eq-cons 4 0 input (omega (arith, a.header_fits))
        ∙ ap₂ ◌∷◌ a.has_version (drop-eq-cons 5 0 input (omega (arith, a.header_fits))))

    magic_again : put_be 4 magic ++ drop 4 input ≡ input
    magic_again = rw (← a.has_magic) (rewrite_field 0 4 (omega (arith, a.header_fits)))

    frame_bytes-decoded : frame_bytes (decoded input) ++ drop (26 + size) input ≡ input
    unfolding decoded
    frame_bytes-decoded = rw (
      frame_bytes_append (decoded input) (drop (26 + size) input),
      section-append-drop 26 size input,
      size_again,
      rewrite_field 24 2 (omega (arith, a.header_fits)),
      rewrite_field 22 2 (omega (arith, a.header_fits)),
      ts_again,
      rewrite_field 14 8 (omega (arith, a.header_fits)),
      rewrite_field 6 8 (omega (arith, a.header_fits)),
      first_bytes,
      magic_again,
    )

    frame_bytes-take : frame_bytes (decoded input) ≡ take (26 + size) input
    frame_bytes-take = sym (ap₂ take (sym fits) (sym frame_bytes-decoded) ∙ take-append_length _ _)
      where
        fits : length (frame_bytes (decoded input)) ≡ 26 + size
        fits = length-frame_bytes (decoded input) ∙ ap (λ n. 26 + n) length-payload

    encode-decoded : encode (decoded input) ≡ ok (take (26 + length (decoded input).payload) input)
    unfolding encode
    encode-decoded =
        ground
          (arith, frame_bytes-take, length-payload, field_lt 24 2 (omega (arith, a.header_fits)))

-- When `Decode` accepts a slice of bytes, the frame that it returns has fields that fit their Go
-- types, its 26 header bytes and payload lie inside the slice, and `Encode` maps it to exactly the
-- leading bytes of the slice that were read: no second form of a frame is accepted.
pub encode-decode :
    (input : List ℕ) (f : Frame)
    → All IsByte input
    → decode input ≡ ok f
    → IsFrame f
      × (26 + length f.payload ≤ length input)
      × (encode f ≡ ok (take (26 + length f.payload) input))
encode-decode input f bytes h =
    let (a, e) = decode-IsAccepted input h in
    rw e (
      decoded-IsFrame input bytes a,
      omega (arith, a.payload_fits, length-payload input bytes a),
      encode-decoded input bytes a,
    )
