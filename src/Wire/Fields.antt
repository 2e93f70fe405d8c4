-- ===== src/Wire/Fields.antt =====
-- The fields of a frame at their offsets in its bytes.
use native.Mathlib.Nat.{mod-eq_of_lt}
use mathlib.Core.List.{append_assoc}
use proto_test.Base.{
  ℕ, ◌+◌, ◌%◌, ◌^◌, ◌≤◌, ◌<◌, ◌≡◌, refl, ap, ◌∙◌, List, ◌∷◌, ◌++◌, length, section, get_or, to_u64,
  to_i64, put_be, get_be, arith, take-append_length, get_be-put_be_mod, to_i64-to_u64, to_u64-IsU64,
}
use proto_test.Wire.{Frame, IsFrame, frame_bytes, magic, version, decoded}

pub length-frame_bytes : (f : Frame) → length (frame_bytes f) ≡ 26 + length f.payload
unfolding frame_bytes put_be
length-frame_bytes f = omega arith

-- The bytes of a frame with others behind them, bracketed to the right.
pub frame_bytes_append :
    (f : Frame) (rest : List ℕ)
    → frame_bytes f ++ rest
      ≡ put_be 4 magic
        ++ (version
            ∷ f.msg_type
            ∷ (put_be 8 f.seq_id
                ++ (put_be 8 (to_u64 f.send_ts_ns)
                    ++ (put_be 2 f.channel_id
                        ++ (put_be 2 (length f.payload % 2 ^ 16) ++ (f.payload ++ rest))))))
unfolding frame_bytes
frame_bytes_append f rest = simp append_assoc

get_be-put_be : (k v : ℕ) → v < 256 ^ k → get_be (put_be k v) ≡ v
get_be-put_be k v h = get_be-put_be_mod k v ∙ mod-eq_of_lt h

module _ (f : Frame) (rest : List ℕ) where
  pub magic_field : get_be (section 0 4 (frame_bytes f ++ rest)) ≡ magic
  unfolding frame_bytes put_be
  magic_field = get_be-put_be 4 magic (omega arith)

  pub version_field : get_or (frame_bytes f ++ rest) 4 0 ≡ version
  unfolding frame_bytes put_be
  version_field = refl

  pub size_field :
      length f.payload ≤ 0xFFFF → get_be (section 24 2 (frame_bytes f ++ rest)) ≡ length f.payload
  unfolding frame_bytes put_be
  size_field h = get_be-put_be 2 (length f.payload % 2 ^ 16) (omega arith) ∙ omega arith

  seq_field : IsFrame f → get_be (section 6 8 (frame_bytes f ++ rest)) ≡ f.seq_id
  unfolding frame_bytes put_be
  seq_field v = get_be-put_be 8 f.seq_id (omega (arith, v.seq_fits))

  ts_field : IsFrame f → to_i64 (get_be (section 14 8 (frame_bytes f ++ rest))) ≡ f.send_ts_ns
  unfolding frame_bytes put_be
  ts_field v =
      ap to_i64 (get_be-put_be 8 (to_u64 f.send_ts_ns) (omega (arith, to_u64-IsU64 f.send_ts_ns)))
      ∙ to_i64-to_u64 f.send_ts_ns v.ts_fits

  channel_field : IsFrame f → get_be (section 22 2 (frame_bytes f ++ rest)) ≡ f.channel_id
  unfolding frame_bytes put_be
  channel_field v = get_be-put_be 2 f.channel_id (omega (arith, v.channel_fits))

  payload_field :
      length f.payload ≤ 0xFFFF
      → section 26 (get_be (section 24 2 (frame_bytes f ++ rest))) (frame_bytes f ++ rest)
        ≡ f.payload
  unfolding frame_bytes put_be
  payload_field h =
      ap (λ n. section 26 n (frame_bytes f ++ rest)) (size_field h)
      ∙ take-append_length f.payload rest

  -- The fields that `decode` reads from the bytes of a frame are the fields of the frame.
  pub decoded-frame_bytes :
      IsFrame f → length f.payload ≤ 0xFFFF → decoded (frame_bytes f ++ rest) ≡ f
  unfolding decoded
  decoded-frame_bytes v h = λ i. record {
    msg_type = type_field i;
    seq_id = seq_field v i;
    send_ts_ns = ts_field v i;
    channel_id = channel_field v i;
    payload = payload_field h i;
  }
    where
      type_field : get_or (frame_bytes f ++ rest) 5 0 ≡ f.msg_type
      type_field = unfold frame_bytes put_be in refl
