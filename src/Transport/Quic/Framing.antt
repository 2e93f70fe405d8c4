-- ===== src/Transport/Quic/Framing.antt =====
-- A message sent over QUIC arrives whole.
use mathlib.Core.List.{append_assoc, append-nil}
use proto_test.Base.{
  ℕ, ◌+◌, ◌%◌, ◌^◌, ◌≤◌, ◌≡◌, refl, sym, ap, ap₂, subst, ◌∙◌, inl, inr, List, [], ◌∷◌, ◌++◌, none,
  ltb, Bool-cases, length, take, drop, arith, take-append-drop, length-append, length-drop, put_be,
  get_be, length-put_be, get_be-put_be_mod, take-append_length, drop-append_length,
}
use proto_test.Transport.Stream.{Chunk, bytes, fail, read_full, contents, NoFailure}
use proto_test.Transport.Stream.Laws.{Reads, read_full-Reads}
use proto_test.Transport.Stream.Writes.{
  Write, wrote, refused, Sent, sent, broke, waiting, Puts, piece-Puts, MakesProgress,
}
use proto_test.Transport.Quic.{
  max_frame_size, write_all, behind, after_pieces, and_then, send, recv_payload, recv,
}

write_all-Puts : (p : List ℕ) (ws : List Write) → Puts p (write_all p ws)
unfolding write_all contents
write_all-Puts [] ws = (tt, refl)
write_all-Puts (b ∷ bs) [] = (tt, (b ∷ bs, refl))
write_all-Puts (b ∷ bs) (wrote n ∷ ws) =
    piece-Puts n (b ∷ bs) (write_all (drop n (b ∷ bs)) ws) (write_all-Puts (drop n (b ∷ bs)) ws)
write_all-Puts (b ∷ bs) (refused n e ∷ ws) =
    (tt, (drop n (b ∷ bs), append_assoc (take n (b ∷ bs)) [] _ ∙ take-append-drop n (b ∷ bs)))

after_pieces-Puts :
    (p : List ℕ) (q : List Chunk) (r : Sent)
    → NoFailure q
    → Puts p r
    → Puts (contents q ++ p) (after_pieces q r)
unfolding contents
after_pieces-Puts p [] r nf h = h
after_pieces-Puts p (fail e ∷ q) r nf h = absurd nf
after_pieces-Puts p (bytes b ∷ q) r nf h =
    rw append_assoc
      (behind-Puts b (contents q ++ p) (after_pieces q r) (after_pieces-Puts p q r nf h))
  where
    behind-Puts : (b p : List ℕ) (r : Sent) → Puts p r → Puts (b ++ p) (behind (bytes b) r)
    behind-Puts b p (sent ps ws) (nf, e) = (nf, ap (λ x. b ++ x) e)
    behind-Puts b p (broke e ps) (nf, (left, c)) =
        (nf, (left, append_assoc b (contents ps) left ∙ ap (λ x. b ++ x) c))
    behind-Puts b p (waiting ps) (nf, (left, c)) =
        (nf, (left, append_assoc b (contents ps) left ∙ ap (λ x. b ++ x) c))

and_then-Puts :
    (p q : List ℕ) (r : Sent) (f : List Write → Sent)
    → Puts p r
    → ((ws : List Write) → Puts q (f ws))
    → Puts (p ++ q) (and_then r f)
and_then-Puts p q (sent ps ws) f (nf, e) h =
    subst (λ x. Puts (x ++ q) (after_pieces ps (f ws))) e (after_pieces-Puts q ps (f ws) nf (h ws))
and_then-Puts p q (broke x ps) f (nf, (left, e)) h =
    (nf, (left ++ q, sym (append_assoc (contents ps) left q) ∙ ap (λ x. x ++ q) e))
and_then-Puts p q (waiting ps) f (nf, (left, e)) h =
    (nf, (left ++ q, sym (append_assoc (contents ps) left q) ∙ ap (λ x. x ++ q) e))

-- A message as it stands on the stream.
abbrev pub message_bytes : List ℕ → List ℕ
message_bytes p = put_be 4 (length p % 2 ^ 32) ++ p

pub send-Puts :
    (p : List ℕ) (ws : List Write)
    → length p ≤ max_frame_size
    → Puts (message_bytes p) (send none p ws)
unfolding send
send-Puts p ws h = elim (Bool-cases (ltb max_frame_size (length p))) [
  | inl large ↦ absurd (ground arith)
  | inr fits ↦ rw fits (
      and_then-Puts (put_be 4 (length p % 2 ^ 32)) p (write_all (put_be 4 (length p % 2 ^ 32)) ws)
        (λ ws'. write_all p ws') (write_all-Puts (put_be 4 (length p % 2 ^ 32)) ws)
        (write_all-Puts p))
]

-- A write loop that makes progress takes the whole buffer, and at most one answer for each byte.
write_all_ends :
    (p : List ℕ) (ws : List Write)
    → MakesProgress ws
    → length p ≤ length ws
    → (ps : List Chunk) × (left : List Write) × (write_all p ws ≡ sent ps left)
      × MakesProgress left
      × (length ws ≤ length left + length p)
unfolding write_all
write_all_ends [] ws m h = ([], ws, refl, m, omega arith)
write_all_ends (b ∷ bs) [] m h = absurd (omega arith)
write_all_ends (b ∷ bs) (refused n e ∷ ws) m h = absurd m
write_all_ends (b ∷ bs) (wrote n ∷ ws) m h =
    let (ps, left, e, ml, hl) =
      write_all_ends (drop n (b ∷ bs)) ws m.1 (omega (arith, m, length-drop n (b ∷ bs))) in
    (bytes (take n (b ∷ bs)) ∷ ps, left, rw e, ml, omega (arith, m, hl, length-drop n (b ∷ bs)))

after_pieces-sent :
    (q ps : List Chunk) (ws : List Write) → after_pieces q (sent ps ws) ≡ sent (q ++ ps) ws
after_pieces-sent [] ps ws = refl
after_pieces-sent (c ∷ q) ps ws = rw (after_pieces-sent q ps ws)

send_ends :
    (p : List ℕ) (ws : List Write)
    → length p ≤ max_frame_size
    → MakesProgress ws
    → 4 + length p ≤ length ws
    → (ps : List Chunk) × (left : List Write) × (send none p ws ≡ sent ps left)
unfolding send
send_ends p ws small m h =
    let (q, mid, e, mm, hm) =
      write_all_ends (put_be 4 (length p % 2 ^ 32)) ws m
        (omega (arith, length-put_be 4 (length p % 2 ^ 32))) in
    let (ps, left, e', ml, hl) =
      write_all_ends p mid mm (omega (arith, hm, length-put_be 4 (length p % 2 ^ 32))) in
    elim (Bool-cases (ltb max_frame_size (length p))) [
      | inl large ↦ absurd (ground arith)
      | inr fits ↦ (q ++ ps, left, rw (fits, e) (rw e' (after_pieces-sent q ps left)))
    ]

recv_payload-Reads :
    (p rest : List ℕ) (s : List Chunk)
    → length p ≤ max_frame_size
    → NoFailure s
    → contents s ≡ p ++ rest
    → Reads (recv_payload (length p) s) p rest
unfolding recv_payload
recv_payload-Reads p rest s small nf e = elim (Bool-cases (ltb max_frame_size (length p))) [
  | inl large ↦ absurd (ground arith)
  | inr fits ↦ rw fits (
      rw (e, take-append_length p rest, drop-append_length p rest) at
        (read_full-Reads (length p) s nf (omega (arith, ap length e, length-append p rest))))
]

-- From a stream that begins with a message `Recv` returns the message and leaves the rest.
pub recv-message_bytes :
    (p rest : List ℕ) (s : List Chunk)
    → length p ≤ max_frame_size
    → NoFailure s
    → contents s ≡ put_be 4 (length p % 2 ^ 32) ++ (p ++ rest)
    → Reads (recv none s) p rest
unfolding recv
recv-message_bytes p rest s small nf e =
    rw (r.result, head, size)
      (recv_payload-Reads p rest r.stream small r.no_failure (r.remains ∙ tail))
  where
    header : List ℕ
    header = put_be 4 (length p % 2 ^ 32)

    four : 4 ≡ length header
    four = sym (length-put_be 4 (length p % 2 ^ 32))

    head : take 4 (contents s) ≡ header
    head = ap₂ take four e ∙ take-append_length header (p ++ rest)

    tail : drop 4 (contents s) ≡ p ++ rest
    tail = ap₂ drop four e ∙ drop-append_length header (p ++ rest)

    size : get_be header ≡ length p
    size = get_be-put_be_mod 4 (length p % 2 ^ 32) ∙ omega arith

    r : Reads (read_full 4 s) (take 4 (contents s)) (drop 4 (contents s))
    r = read_full-Reads 4 s nf (omega (arith, ap length e, length-append header (p ++ rest), four))

-- A message of at most 16 MiB sent over QUIC arrives whole: where no deadline error comes, every
-- write takes at least one byte, and there are four answers more than bytes, `Send` succeeds; and
-- `Recv` on the pieces that it wrote returns the same bytes and leaves nothing.
pub recv-send :
    (p : List ℕ) (ws : List Write)
    → length p ≤ max_frame_size
    → MakesProgress ws
    → 4 + length p ≤ length ws
    → (ps : List Chunk) × (left : List Write) × (send none p ws ≡ sent ps left)
      × Reads (recv none ps) p []
recv-send p ws small m h =
    let (ps, left, r) = send_ends p ws small m h in
    let (nf, c) = subst (Puts (message_bytes p)) r (send-Puts p ws small) in
    (
      ps,
      left,
      r,
      recv-message_bytes p [] ps small nf
          (c ∙ ap (λ x. put_be 4 (length p % 2 ^ 32) ++ x) (sym (append-nil p))),
    )
