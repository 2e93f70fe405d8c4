-- ===== src/Transport/Kernel/Channel/Send.antt =====
-- The write loop of the kernel transport: the bytes in order, and what the receiver makes of them.
use mathlib.Core.List.{append_assoc, append-nil}
use proto_test.Base.{
  ℕ, ◌≤◌, ◌≡◌, refl, sym, subst, ◌∙◌, List, [], ◌∷◌, length, take, drop, arith, take-append-drop,
  length-drop, ok,
}
use proto_test.Wire.{Frame, frame_bytes, encode}
use proto_test.Wire.Prefix.{encode-ok}
use proto_test.Transport.Stream.{Chunk, bytes, contents}
use proto_test.Transport.Stream.Laws.{Reads}
use proto_test.Transport.Stream.Writes.{
  Write, wrote, refused, sent, MakesProgress, Puts, piece-Puts,
}
use proto_test.Transport.Kernel.Channel.{send_loop, recv_frame}
use proto_test.Transport.Kernel.Channel.Recv.{recv_frame-frame_bytes}

pub send_loop-Puts : (p : List ℕ) (ws : List Write) → Puts p (send_loop p ws)
unfolding send_loop contents
send_loop-Puts [] ws = (tt, refl)
send_loop-Puts (b ∷ bs) [] = (tt, (b ∷ bs, refl))
send_loop-Puts (b ∷ bs) (wrote n ∷ ws) =
    piece-Puts n (b ∷ bs) (send_loop (drop n (b ∷ bs)) ws) (send_loop-Puts (drop n (b ∷ bs)) ws)
send_loop-Puts (b ∷ bs) (refused n e ∷ ws) =
    (tt, (drop n (b ∷ bs), append_assoc (take n (b ∷ bs)) [] _ ∙ take-append-drop n (b ∷ bs)))

pub send_loop_ends :
    (p : List ℕ) (ws : List Write)
    → MakesProgress ws
    → length p ≤ length ws
    → (ps : List Chunk) × (left : List Write) × (send_loop p ws ≡ sent ps left)
unfolding send_loop
send_loop_ends [] ws m h = ([], ws, refl)
send_loop_ends (b ∷ bs) [] m h = absurd (omega arith)
send_loop_ends (b ∷ bs) (refused n e ∷ ws) m h = absurd m
send_loop_ends (b ∷ bs) (wrote n ∷ ws) m h =
    let (ps, left, e) =
      send_loop_ends (drop n (b ∷ bs)) ws m.1 (omega (arith, m, length-drop n (b ∷ bs))) in
    (bytes (take n (b ∷ bs)) ∷ ps, left, rw e)

-- A frame sent over the kernel transport arrives whole: where every write takes at least one byte,
-- and there are as many answers as bytes, `Send` of an encoded frame succeeds; and `Recv` on the
-- pieces that it wrote returns the same bytes and leaves nothing.
pub recv_frame-send_loop :
    (f : Frame) (buf : List ℕ) (ws : List Write)
    → encode f ≡ ok buf
    → MakesProgress ws
    → length buf ≤ length ws
    → (ps : List Chunk) × (left : List Write) × (send_loop buf ws ≡ sent ps left)
      × Reads (recv_frame ps) buf []
recv_frame-send_loop f buf ws e m h =
    let (small, same) = encode-ok f e in
    let (ps, left, r) = send_loop_ends buf ws m h in
    let (nf, c) = subst (Puts buf) r (send_loop-Puts buf ws) in
    (
      ps,
      left,
      r,
      subst (λ b. Reads (recv_frame ps) b []) (sym same)
          (recv_frame-frame_bytes f [] ps small nf (c ∙ same ∙ sym (append-nil (frame_bytes f)))),
    )
