-- ===== src/Wire/Prefix.antt =====
-- What `Decode` does on a cut frame, and on a frame with bytes behind it.
use mathlib.Core.List.{append-nil}
use proto_test.Base.{
  ℕ, ◌+◌, ◌≤◌, ◌<◌, ◌≡◌, inl, inr, sym, ap, ◌∙◌, List, [], ◌∷◌, ◌++◌, ltb, if◌then◌else◌,
  Bool-cases, length, section, get_or, get_be, ok, err, message, message_number, arith,
  length-append, section-append, get_or-append,
}
use proto_test.Wire.{Frame, frame_bytes, encode, decoded, decode, version}
use proto_test.Wire.Fields.{length-frame_bytes, magic_field, version_field, size_field}
use proto_test.Wire.RoundTrip.{IsAccepted, decode-IsAccepted}

module _ (input more : List ℕ) (a : IsAccepted input) where
  size_same : get_be (section 24 2 (input ++ more)) ≡ get_be (section 24 2 input)
  size_same = ap get_be (section-append 24 2 input more (omega (arith, a.header_fits)))

  IsAccepted-append : IsAccepted (input ++ more)
  IsAccepted-append = record {
    header_fits = omega (arith, a.header_fits, length-append input more);
    has_magic = rw (section-append 0 4 input more (omega (arith, a.header_fits))) a.has_magic;
    has_version = rw (get_or-append 4 0 input more (omega (arith, a.header_fits))) a.has_version;
    payload_fits = omega (arith, a.payload_fits, size_same, length-append input more);
  }

  decoded-append : decoded (input ++ more) ≡ decoded input
  unfolding decoded
  decoded-append = rw (
    size_same,
    get_or-append 5 0 input more (omega (arith, a.header_fits)),
    section-append 6 8 input more (omega (arith, a.header_fits)),
    section-append 14 8 input more (omega (arith, a.header_fits)),
    section-append 22 2 input more (omega (arith, a.header_fits)),
    section-append 26 (get_be (section 24 2 input)) input more a.payload_fits,
  )

pub decode-of_IsAccepted : (input : List ℕ) → IsAccepted input → decode input ≡ ok (decoded input)
unfolding decode
decode-of_IsAccepted input a = ground arith

-- Bytes behind a frame do not change what `Decode` returns.
pub decode-append :
    (input more : List ℕ) {f : Frame} → decode input ≡ ok f → decode (input ++ more) ≡ ok f
decode-append input more h =
    let (a, e) = decode-IsAccepted input h in
    rw (decode-of_IsAccepted (input ++ more) (IsAccepted-append input more a), e)
      (ap ok (decoded-append input more a))

-- The bytes that `encode` returns, and when it does.
pub encode-ok :
    (f : Frame) {buf : List ℕ}
    → encode f ≡ ok buf
    → (length f.payload ≤ 0xFFFF) × (buf ≡ frame_bytes f)
unfolding encode
encode-ok f h = ground arith

module _ (f : Frame) (front back : List ℕ) (cut : frame_bytes f ≡ front ++ back) where
  cut_header :
      (o k : ℕ) → o + k ≤ length front → section o k front ≡ section o k (frame_bytes f ++ [])
  cut_header o k h = rw (append-nil, cut) (sym (section-append o k front back h))

  cut_version : 26 ≤ length front → get_or front 4 0 ≡ version
  cut_version h =
      sym (get_or-append 4 0 front back (omega arith))
      ∙ rw (← cut) (rw append-nil at (version_field f []))

  decode_cut :
      length f.payload ≤ 0xFFFF
      → 0 < length back
      → 26 ≤ length front
      → decode front ≡ err (message "truncated payload")
  unfolding decode
  decode_cut small more h = ground (
    arith,
    ap get_be (cut_header 0 4 (omega arith)),
    magic_field f [],
    cut_version h,
    ap get_be (cut_header 24 2 (omega arith)),
    size_field f [] small,
    ap length cut,
    length-frame_bytes f,
    length-append front back,
  )

-- Every proper prefix of an encoded frame is refused: one that is shorter than the 26 bytes of the
-- header as too short, any other as a truncated payload.
pub decode_truncated :
    (f : Frame) (front : List ℕ) (x : ℕ) (back : List ℕ)
    → encode f ≡ ok (front ++ (x ∷ back))
    → decode front ≡ (
        if ltb (length front) 26
        then err (message_number "frame too short: %d" (length front))
        else err (message "truncated payload"))
decode_truncated f front x back h =
    let (small, same) = encode-ok f h in
    elim (Bool-cases (ltb (length front) 26)) [
      | inl short ↦ rw short (unfold decode in ground arith)
      | inr long ↦
          rw long (decode_cut f front (x ∷ back) (sym same) small (omega arith) (ground arith))
    ]
