-- ===== src/Transport/Kernel/Channel/Recv.antt =====
-- Framing on the kernel transport: `Recv` cuts the byte stream at the frames' ends.
use mathlib.Core.List.{append-nil, append_assoc}
use proto_test.Base.{
  ℕ, zero, suc, ◌+◌, ◌≤◌, ◌≡◌, refl, sym, ap, ap₂, ◌∙◌, inl, inr, List, [], ◌∷◌, ◌++◌, map, length,
  take, drop, section, All, ◌==◌, Bool-cases, ==→eq, get_be, arith, length-append, take-append-drop,
  section-append, length-take, length-drop, drop-drop, take-add, take-append_length,
  drop-append_length,
}
use proto_test.Wire.{Frame, frame_bytes}
use proto_test.Wire.Fields.{length-frame_bytes, size_field}
use proto_test.Transport.Stream.{Chunk, Outcome, done, ◌>>=◌, contents, NoFailure}
use proto_test.Transport.Stream.Laws.{Reads, read_full-Reads}
use proto_test.Transport.Kernel.Channel.{recv_payload, recv_frame}

-- The number of payload bytes that the header announces.
abbrev pub announced : List ℕ → ℕ
announced c = get_be (section 24 2 c)

announced-take : (c : List ℕ) → 26 ≤ length c → announced (take 26 c) ≡ announced c
announced-take c h = ap get_be (
    sym (section-append 24 2 (take 26 c) (drop 26 c) (omega (arith, length-take 26 c)))
    ∙ ap (section 24 2) (take-append-drop 26 c))

payload_part :
    (header : List ℕ) (n : ℕ) (rest : List Chunk)
    → NoFailure rest
    → n ≤ length (contents rest)
    → Reads (recv_payload header n rest) (header ++ take n (contents rest)) (drop n (contents rest))
unfolding recv_payload
payload_part header n rest nf h = elim (Bool-cases (n == 0)) [
  | inl none ↦ rw none (
      rw (==→eq n 0 none)
        (record { stream = rest; result = rw append-nil; no_failure = nf; remains = refl }))
  | inr some ↦
      let r = read_full-Reads n rest nf h in
      rw (some, r.result)
        (record {
          stream = r.stream;
          result = refl;
          no_failure = r.no_failure;
          remains = r.remains;
        })
]

-- From a stream that holds a whole frame `Recv` returns exactly the bytes of the frame, and leaves
-- those behind it, however the stream is cut.
pub recv_frame-Reads :
    (s : List Chunk)
    → NoFailure s
    → 26 ≤ length (contents s)
    → 26 + announced (contents s) ≤ length (contents s)
    → Reads
        (recv_frame s)
        (take (26 + announced (contents s)) (contents s))
        (drop (26 + announced (contents s)) (contents s))
unfolding recv_frame
recv_frame-Reads s nf h k =
    let c = contents s in
    let r = read_full-Reads 26 s nf h in
    rw
      (
        r.result,
        announced-take c h,
        ← take-add 26 (announced c) c,
        ← drop-drop (announced c) 26 c,
        ← r.remains,
      )
      (payload_part (take 26 c) (announced c) r.stream r.no_failure
        (omega (arith, ap length r.remains, length-drop 26 c)))

-- A stream that begins with an encoded frame.
pub recv_frame-frame_bytes :
    (f : Frame) (rest : List ℕ) (s : List Chunk)
    → length f.payload ≤ 0xFFFF
    → NoFailure s
    → contents s ≡ frame_bytes f ++ rest
    → Reads (recv_frame s) (frame_bytes f) rest
recv_frame-frame_bytes f rest s small nf e =
    rw (value, left) (recv_frame-Reads s nf (omega (arith, size)) (omega (arith, size, announces)))
  where
    announces : announced (contents s) ≡ length f.payload
    announces = ap announced e ∙ size_field f rest small

    size : length (contents s) ≡ 26 + length f.payload + length rest
    size =
        ap length e
        ∙ length-append (frame_bytes f) rest
        ∙ ap (λ n. n + length rest) (length-frame_bytes f)

    whole : 26 + announced (contents s) ≡ length (frame_bytes f)
    whole = ap (λ n. 26 + n) announces ∙ sym (length-frame_bytes f)

    value : frame_bytes f ≡ take (26 + announced (contents s)) (contents s)
    value = sym (ap₂ take whole e ∙ take-append_length (frame_bytes f) rest)

    left : rest ≡ drop (26 + announced (contents s)) (contents s)
    left = sym (ap₂ drop whole e ∙ drop-append_length (frame_bytes f) rest)

-- `Recv`, called as often as the first argument says.
pub recv_many : ℕ → List Chunk → Outcome (List (List ℕ))
recv_many zero s = done [] s
recv_many (suc n) s = recv_frame s >>= λ b s'. (recv_many n s' >>= λ bs s''. done (b ∷ bs) s'')

abbrev pub concat_frames : List Frame → List ℕ
concat_frames [] = []
concat_frames (f ∷ fs) = frame_bytes f ++ concat_frames fs

-- The frames of a stream, in order, with payloads of at most 65535 bytes: where no read fails,
-- however the network cuts the concatenation of the encoded frames into pieces, as many calls of `Recv` as there are frames return the encodings one by one, and
-- leave the bytes that follow the last frame.
pub recv_many-frames :
    (fs : List Frame) (rest : List ℕ) (s : List Chunk)
    → All (λ f. length f.payload ≤ 0xFFFF) fs
    → NoFailure s
    → contents s ≡ concat_frames fs ++ rest
    → (s' : List Chunk) × (recv_many (length fs) s ≡ done (map frame_bytes fs) s')
      × NoFailure s'
      × (contents s' ≡ rest)
unfolding recv_many
recv_many-frames [] rest s small nf e = (s, refl, nf, e)
recv_many-frames (f ∷ fs) rest s small nf e =
    let r =
      recv_frame-frame_bytes f (concat_frames fs ++ rest) s small.0 nf
        (e ∙ append_assoc (frame_bytes f) (concat_frames fs) rest) in
    let (s', e', nf', c') = recv_many-frames fs rest r.stream small.1 r.no_failure r.remains in
    (s', rw (r.result, e'), nf', c')
