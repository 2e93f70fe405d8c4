-- ===== src/Nas/Template.antt =====
-- What a template read from a file is.
use Prim.Native.String.{String}
use mathlib.Core.List.{reverse, reverse-append, reverse-cons, reverse-reverse, append-nil}
use proto_test.Base.{
  ℕ, ◌≡◌, ◌≤◌, ◌↔◌, ap₂, length-append, refl, ◌∙◌, sym, ap, subst, inl, inr, true, false, List, [],
  ◌∷◌, ◌++◌, length, All, arith, Result, ok, err,
}
use proto_test.Nas.{
  spaces, spaces_reversed, trim_with, trim_space, compact, hex_decode, invalid_template,
  template_of_file, load_template,
}
use proto_test.Nas.Hex.{Spells-hex_decode, hex_decode-Spells}
use proto_test.Nas.Spelled.{IsSpelled, Spells-IsSpelled, IsSpelled-Spells}
use proto_test.Nas.Space.{
  flatten, IsSpaceText, IsBlankText, IsReversed, spaces-IsSpaceText, spaces_reversed-IsReversed,
  strip_any_space, strip_any_reversed, reverse-flatten, turned,
}
use proto_test.Nas.Peel.{trim_with-append, trim_with-IsLeft}
use proto_test.Nas.Trim.{IsPlain, Spells-IsPlain, compact-reverse, all_reverse}

-- White space, then text that spells the bytes, then white space.
abbrev pub IsTemplate : (raw bs : List ℕ) → Type 0
IsTemplate raw bs =
    (front : List ℕ) × (mid : List ℕ) × (back : List ℕ) × (raw ≡ front ++ (mid ++ back))
    × IsBlankText front
    × IsBlankText back
    × IsSpelled mid bs

invalid_ok : (r : Result (List ℕ)) (bs : List ℕ) → invalid_template r ≡ ok bs → r ≡ ok bs
invalid_ok (ok b) bs h = h
invalid_ok (err e) bs h = absurd (cc h)

length-reverse : (s : List ℕ) → length (reverse s) ≡ length s
length-reverse [] = refl
length-reverse (c ∷ s) =
    rw (reverse-cons c s) (omega (arith, length-append (reverse s) (c ∷ []), length-reverse s))

-- What trimming leaves, between the white space that it takes away.
trim_space-between :
    (raw : List ℕ)
    → (front : List ℕ) × (back : List ℕ) × (raw ≡ front ++ (trim_space raw ++ back))
      × IsBlankText front
      × IsBlankText back
unfolding trim_space
trim_space-between raw =
    let t = trim_with (length raw) spaces raw in
    let u = trim_with (length t) spaces_reversed (reverse t) in
    let (ps, front, split) =
      trim_with-append IsSpaceText (length raw) spaces raw spaces-IsSpaceText in
    let (qs, behind, split_back) =
      trim_with-append IsReversed (length t) spaces_reversed (reverse t)
        spaces_reversed-IsReversed in
    let (rs, back, turned_back) = reverse-flatten IsReversed IsSpaceText (λ p h. h) qs behind in
    let whole : t ≡ reverse u ++ reverse (flatten qs) =
      sym (reverse-reverse t) ∙ (ap reverse split_back ∙ reverse-append (flatten qs) u) in
    (
      flatten ps,
      reverse (flatten qs),
      split ∙ ap (λ z. flatten ps ++ z) whole,
      (ps, front, refl),
      (rs, back, turned_back),
    )

-- The same from the back, where nothing is left in front.
back_kept :
    (t m : List ℕ) (rs : List (List ℕ))
    → All IsPlain m
    → All IsReversed rs
    → reverse t ≡ flatten rs ++ (reverse m ++ [])
    → compact (reverse (trim_with (length t) spaces_reversed (reverse t))) ≡ compact m
back_kept t m rs plain back e =
    let enough : length (flatten rs ++ (reverse m ++ [])) ≤ length t =
      subst (λ z. length z ≤ length t) e (omega (arith, length-reverse t)) in
    let (m', left, same, is) =
      trim_with-IsLeft IsReversed spaces_reversed (omega arith) (omega arith) strip_any_reversed
        (length t) rs (reverse m) [] back (all_reverse IsPlain m plain) tt enough in
    let rest : trim_with (length t) spaces_reversed (reverse t) ≡ m' =
      ap (trim_with (length t) spaces_reversed) e
      ∙ elim is [ inl h ↦ h ∙ append-nil m' | inr h ↦ h ] in
    rw (rest, compact-reverse m', same, compact-reverse m) (reverse-reverse (compact m))

-- Trimming white space around plain text keeps the digits of the text.
trim_space-keeps :
    (ps qs : List (List ℕ)) (mid : List ℕ)
    → All IsSpaceText ps
    → All IsPlain mid
    → All IsSpaceText qs
    → compact (trim_space (flatten ps ++ (mid ++ flatten qs))) ≡ compact mid
unfolding trim_space
trim_space-keeps ps qs mid p plain q =
    let raw = flatten ps ++ (mid ++ flatten qs) in
    let t = trim_with (length raw) spaces raw in
    let (m, left, same, is) =
      trim_with-IsLeft IsSpaceText spaces (omega arith) (omega arith) strip_any_space (length raw)
        ps mid qs p plain q (omega arith) in
    let (rs, back, turned_back) = reverse-flatten IsSpaceText IsReversed turned qs q in
    let kept = back_kept t m in
    let turn = reverse-append m (flatten qs) in
    elim is [
      | inl e ↦
          kept rs left back (
            ap reverse e
            ∙ (turn
                ∙ (ap (λ z. z ++ reverse m) turned_back
                    ∙ ap (λ z. flatten rs ++ z) (sym (append-nil (reverse m))))))
          ∙ same
      | inr e ↦ kept [] left tt (ap reverse e ∙ sym (append-nil (reverse m))) ∙ same
    ]

module _ (read_file : String → Result (List ℕ)) (path : String) (raw : List ℕ)
    (read : read_file path ≡ ok raw) where
  as_hex :
      load_template read_file path true ≡ invalid_template (hex_decode (compact (trim_space raw)))
  unfolding load_template template_of_file
  as_hex = rw (read, load_template) refl

  as_it_is : load_template read_file path false ≡ ok raw
  unfolding load_template template_of_file
  as_it_is = rw (read, load_template) refl

  spelled : (bs : List ℕ) → IsTemplate raw bs → load_template read_file path true ≡ ok bs
  spelled bs (front, mid, back, split, (ps, p, front_is), (qs, q, back_is), h) =
      let digits = IsSpelled-Spells mid bs h in
      let whole : raw ≡ flatten ps ++ (mid ++ flatten qs) =
        split ∙ ap₂ (λ a b. a ++ (mid ++ b)) front_is back_is in
      let same : compact (trim_space raw) ≡ compact mid =
        ap (λ s. compact (trim_space s)) whole
        ∙ trim_space-keeps ps qs mid p (Spells-IsPlain mid bs digits) q in
      rw (as_hex, same, hex_decode-Spells (compact mid) bs digits) refl

  between : (bs : List ℕ) → load_template read_file path true ≡ ok bs → IsTemplate raw bs
  between bs h =
      let (front, back, split, front_is, back_is) = trim_space-between raw in
      let decoded = invalid_ok (hex_decode (compact (trim_space raw))) bs (sym as_hex ∙ h) in
      (
        front,
        trim_space raw,
        back,
        split,
        front_is,
        back_is,
        Spells-IsSpelled (trim_space raw) bs
            (Spells-hex_decode (compact (trim_space raw)) bs decoded),
      )

  -- Of a file that can be read, `LoadTemplate` returns the bytes as they are where they are not
  -- hexadecimal. Where they are, it returns bytes exactly if the file has, between white space of
  -- Unicode in front and behind, the hexadecimal digits of these bytes, two for each, the high one
  -- first, in lower or upper case, with any blanks and line ends (10) among them and nothing else.
  pub load_template-Spells :
      (load_template read_file path false ≡ ok raw)
      × ((bs : List ℕ) → (load_template read_file path true ≡ ok bs) ↔ IsTemplate raw bs)
  load_template-Spells = (as_it_is, λ bs. (between bs, spelled bs))
