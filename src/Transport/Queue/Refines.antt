-- ===== src/Transport/Queue/Refines.antt =====
-- A channel is a queue: a client cannot tell them apart.
use mathlib.Core.List.{append_assoc, append-nil}
use proto_test.Base.{
  ℕ, ◌≡◌, refl, sym, ap, ap₂, ◌∙◌, Bool, true, false, List, [], ◌∷◌, ◌++◌, map, All,
}
use proto_test.Transport.Stream.{Chunk, bytes, fail, contents, NoFailure}
use proto_test.Transport.Stream.Writes.{Sent, sent, broke, waiting, Puts}
use proto_test.Transport.Queue.{
  Channel, Op, put, get, Seen, taken, nothing, got, after_put, channel_run, QueueOp, enqueue,
  dequeue, queue_run,
}

contents-append : (s t : List Chunk) → contents (s ++ t) ≡ contents s ++ contents t
unfolding contents
contents-append [] t = refl
contents-append (bytes b ∷ s) t =
    ap (λ r. b ++ r) (contents-append s t) ∙ sym (append_assoc b (contents s) (contents t))
contents-append (fail e ∷ s) t = contents-append s t

NoFailure-append : (s t : List Chunk) → NoFailure s → NoFailure t → NoFailure (s ++ t)
NoFailure-append [] t hs ht = ht
NoFailure-append (bytes b ∷ s) t hs ht = NoFailure-append s t hs ht
NoFailure-append (fail e ∷ s) t hs ht = absurd hs

abbrev pub is_sent : Sent → Bool
is_sent (sent ps ws) = true
is_sent (broke e ps) = false
is_sent (waiting ps) = false

module _ (ch : Channel) where
  -- The bytes of these messages, one after the other.
  abbrev wires : List (List ℕ) → List ℕ
  wires [] = []
  wires (m ∷ q) = ch.wire m ++ wires q

  wires-append : (q : List (List ℕ)) (p : List ℕ) → wires (q ++ (p ∷ [])) ≡ wires q ++ ch.wire p
  wires-append [] p = append-nil (ch.wire p)
  wires-append (m ∷ q) p =
      ap (λ r. ch.wire m ++ r) (wires-append q p)
      ∙ sym (append_assoc (ch.wire m) (wires q) (ch.wire p))

  -- The pieces on the connection hold exactly the messages of the queue.
  record InFlight (q : List (List ℕ)) (s : List Chunk) : Type 0 where
    carried : All ch.Carries q
    no_failure : NoFailure s
    holds : contents s ≡ wires q

  -- The call on the queue that stands for a call on the channel.
  abbrev pub queue_op : Op → QueueOp
  queue_op (put p ws) = enqueue p (is_sent (ch.send p ws))
  queue_op get = dequeue

  abbrev pub IsCarried : Op → Type 0
  IsCarried (put p ws) = ch.Carries p
  IsCarried get = Unit {0}

  All-append_one :
      (q : List (List ℕ)) (p : List ℕ)
      → All ch.Carries q
      → ch.Carries p
      → All ch.Carries (q ++ (p ∷ []))
  All-append_one [] p h k = (k, tt)
  All-append_one (m ∷ q) p h k = (h.0, All-append_one q p h.1 k)

  InFlight-put :
      (q : List (List ℕ)) (s ps : List Chunk) (p : List ℕ)
      → InFlight q s
      → ch.Carries p
      → NoFailure ps
      → contents ps ≡ ch.wire p
      → InFlight (q ++ (p ∷ [])) (s ++ ps)
  InFlight-put q s ps p h k nf e = record {
    carried = All-append_one q p h.carried k;
    no_failure = NoFailure-append s ps h.no_failure nf;
    holds = contents-append s ps ∙ ap₂ (λ x y. x ++ y) h.holds e ∙ sym (wires-append q p);
  }

  put_seen :
      (r : Sent) (p : List ℕ) (q : List (List ℕ)) (more : List Chunk → List Seen)
      (ops : List QueueOp)
      → Puts (ch.wire p) r
      → ((ps : List Chunk)
          → NoFailure ps
          → contents ps ≡ ch.wire p
          → more ps ≡ queue_run ops (q ++ (p ∷ [])))
      → after_put ch r more ≡ queue_run (enqueue p (is_sent r) ∷ ops) q
  unfolding queue_run
  put_seen (sent ps ws) p q more ops h k = ap (λ r. taken ∷ r) (k ps h.0 h.1)
  put_seen (broke e ps) p q more ops h k = refl
  put_seen (waiting ps) p q more ops h k = refl

  -- From messages in flight, the calls on the channel and those on the queue are seen alike.
  run-queue_run :
      (ops : List Op) (q : List (List ℕ)) (s : List Chunk)
      → All IsCarried ops
      → InFlight q s
      → channel_run ch ops s ≡ queue_run (map queue_op ops) q
  unfolding channel_run queue_run
  run-queue_run [] q s k h = refl
  run-queue_run (put p ws ∷ ops) q s k h =
      put_seen (ch.send p ws) p q (λ ps. channel_run ch ops (s ++ ps)) (map queue_op ops)
        (ch.send-Puts p ws k.0)
        (λ ps nf e.
          run-queue_run ops (q ++ (p ∷ [])) (s ++ ps) k.1 (InFlight-put q s ps p h k.0 nf e))
  run-queue_run (get ∷ ops) [] s k h =
      rw (ch.recv-blocked s h.no_failure h.holds)
        (ap (λ r. nothing ∷ r) (run-queue_run ops [] s k.1 h))
  run-queue_run (get ∷ ops) (m ∷ q) s k h =
      let r = ch.recv-Reads m (wires q) s h.carried.0 h.no_failure h.holds in
      rw r.result (
        ap (λ x. got m ∷ x)
          (run-queue_run ops q r.stream k.1
            (record { carried = h.carried.1; no_failure = r.no_failure; holds = r.remains })))

  -- From an empty connection.
  pub runs_alike :
      (ops : List Op) → All IsCarried ops → channel_run ch ops [] ≡ queue_run (map queue_op ops) []
  runs_alike ops k =
      run-queue_run ops [] [] k (record { carried = tt; no_failure = tt; holds = empty })
    where
      empty : contents [] ≡ []
      empty = unfold contents in refl
