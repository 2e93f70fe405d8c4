-- ===== src/Transport/Sctp/Framing.antt =====
-- Which frames fit into the buffer of `Recv`.
use proto_test.Base.{
  ℕ, ◌≤◌, ◌<◌, ◌≡◌, ◌⊎◌, inl, inr, Bool-cases, leb→le, refl, sym, ap, ◌∙◌, List, [], ◌∷◌, ◌++◌,
  length, take, drop, leb, ltb, true, false, message, ok, err, take-append-drop, length-take,
  length-drop, arith,
}
use proto_test.Wire.{Frame, encode, decode}
use proto_test.Wire.Fields.{length-frame_bytes}
use proto_test.Wire.Prefix.{encode-ok, decode_truncated}
use proto_test.Transport.Stream.{Chunk, bytes, done, read}
use proto_test.Transport.Sctp.{recv_buffer, recv_message}

leb_of_le : (a b : ℕ) → a ≤ b → leb a b ≡ true
leb_of_le a b h = ground arith

leb_of_lt : (a b : ℕ) → b < a → leb a b ≡ false
leb_of_lt a b h = ground arith

read_fits :
    (k : ℕ) (buf : List ℕ) (s : List Chunk) → length buf ≤ k → read k (bytes buf ∷ s) ≡ done buf s
unfolding read
read_fits k buf s h = rw (leb_of_le (length buf) k h) refl

read_cut :
    (k : ℕ) (buf : List ℕ) (s : List Chunk)
    → k < length buf
    → read k (bytes buf ∷ s) ≡ done (take k buf) (bytes (drop k buf) ∷ s)
unfolding read
read_cut k buf s h = rw (leb_of_lt (length buf) k h) refl

-- A list that is not empty has a first element.
split_first : (xs : List ℕ) → 0 < length xs → (x : ℕ) × (rest : List ℕ) × (xs ≡ x ∷ rest)
split_first [] h = absurd (omega arith)
split_first (x ∷ xs) h = (x, xs, refl)

not_short : (n : ℕ) → 26 ≤ n → ltb n 26 ≡ false
not_short n h = ground arith

-- The first `size` bytes of an encoded frame, for a number from 26 on that is less than its length,
-- are refused as a truncated payload.
decode_cut_at :
    (f : Frame) (buf : List ℕ) (size : ℕ)
    → encode f ≡ ok buf
    → 26 ≤ size
    → size < length buf
    → decode (take size buf) ≡ err (message "truncated payload")
decode_cut_at f buf size e h k =
    let (x, back, d) = split_first (drop size buf) (omega (arith, length-drop size buf)) in
    let parts = sym (take-append-drop size buf) ∙ ap (λ r. take size buf ++ r) d in
    let short = not_short (length (take size buf)) (omega (arith, length-take size buf)) in
    rw short at (decode_truncated f (take size buf) x back (e ∙ ap ok parts))

-- A frame that arrives whole is received by `Recv` as it was sent if its payload has at most 65510
-- bytes. A frame with a longer payload is cut at 64 KiB, so that what `Recv` returns is refused by
-- `Decode` as truncated, and the rest of the frame is left for the next call.
pub recv_message-limit :
    (f : Frame) (buf : List ℕ) (s : List Chunk)
    → encode f ≡ ok buf
    → ((length f.payload ≤ 65510) × (recv_message (bytes buf ∷ s) ≡ done buf s))
      ⊎ ((65510 < length f.payload)
          × ((part left : List ℕ) × (recv_message (bytes buf ∷ s) ≡ done part (bytes left ∷ s))
              × (part ++ left ≡ buf)
              × (decode part ≡ err (message "truncated payload"))))
unfolding recv_message
recv_message-limit f buf s e =
    let (small, same) = encode-ok f e in
    let size = ap length same ∙ length-frame_bytes f in
    elim (Bool-cases (leb (length f.payload) 65510)) [
      | inl fits ↦
          let h = leb→le (length f.payload) 65510 fits in
          inl (h, rw (read_fits recv_buffer buf s (omega (arith, size, h))) refl)
      | inr long ↦
          let h : 65510 < length f.payload = ground arith in
          inr (
            h,
            (
              take recv_buffer buf,
              drop recv_buffer buf,
              rw (read_cut recv_buffer buf s (omega (arith, size, h))) refl,
              take-append-drop recv_buffer buf,
              decode_cut_at f buf recv_buffer e (omega arith) (omega (arith, size, h)),
            ),
          )
    ]
