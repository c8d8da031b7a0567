-- ===== src/Fragmenter/Unit.antt =====
-- The first delivery of a NAL unit: the whole unit, or its first fragment.
use dorsvr.Common.{
  ℕ, zero, suc, ◌+◌, ◌-◌, ◌^◌, ◌≤◌, ◌<◌, ◌≡◌, refl, ap, ◌∙◌, true, false, List, [], ◌∷◌, ◌++◌, some,
  length, copy, take, drop, length-append, length-drop, take-append, slice?, slice?-in, arith,
  le→leb, lt→leb, ◌+u◌, ◌-u◌,
}
use dorsvr.Fragmenter.{Fragmenter, deliver_whole, deliver_first, deliver_from}
use dorsvr.Fragmenter.Spec.{fu_indicator, nal_type}
use dorsvr.Fragmenter.Buffer.{indicator_lem, first_header_lem}
use dorsvr.Fragmenter.Rounds.{Sending}

-- The unit of header `h` and bytes `body` is in the buffer, and nothing of it is sent.
pub record Loaded (f : Fragmenter) (x h : ℕ) (body tail : List ℕ) : Type 0 where
  pub buffer : f.input_buffer ≡ x ∷ h ∷ body ++ tail
  pub valid : f.num_valid_data_bytes ≡ length body + 2
  pub cursor : f.cur_data_offset ≡ 1
  pub small : length (body ++ tail) + 4 < 2 ^ 64
  pub byte : h < 256

abbrev pub whole_sent : Fragmenter → ℕ → List ℕ → Fragmenter
whole_sent f h body = record f {
  framed = record f.framed { buff_to = copy f.buff_to (h ∷ body); frame_size = length body + 1 };
  cur_data_offset = f.num_valid_data_bytes;
  last_fragment_completed_nal_unit = true;
}

abbrev pub first_bytes : ℕ → ℕ → List ℕ → List ℕ
first_bytes size h body = fu_indicator h ∷ (128 + nal_type h) ∷ take (size - 2) body

abbrev pub first_sent : Fragmenter → ℕ → List ℕ → List ℕ → Fragmenter
first_sent f h body tail = record f {
  framed = record f.framed {
    buff_to = copy f.buff_to (first_bytes f.max_size h body);
    frame_size = f.max_size;
  };
  input_buffer = fu_indicator h ∷ (128 + nal_type h) ∷ body ++ tail;
  cur_data_offset = f.max_size;
  last_fragment_completed_nal_unit = false;
}

take_prefix {ℓ} : {A : Type ℓ} (n : ℕ) (xs ys : List A) → n ≡ length xs → take n (xs ++ ys) ≡ xs
take_prefix n xs ys e = ap (λ k. take k (xs ++ ys)) e ∙ take-append xs ys

take_before {ℓ} :
    {A : Type ℓ} (n : ℕ) (xs ys : List A) → n ≤ length xs → take n (xs ++ ys) ≡ take n xs
take_before zero xs ys le = refl
take_before (suc n) [] ys le = absurd (omega arith)
take_before (suc n) (x ∷ xs) ys le = ap (λ r. x ∷ r) (take_before n xs ys (omega arith))

drop_before {ℓ} :
    {A : Type ℓ} (n : ℕ) (xs ys : List A) → n ≤ length xs → drop n (xs ++ ys) ≡ drop n xs ++ ys
drop_before zero xs ys le = refl
drop_before (suc n) [] ys le = absurd (omega arith)
drop_before (suc n) (x ∷ xs) ys le = drop_before n xs ys (omega arith)

drop_two {ℓ} :
    {A : Type ℓ} (n : ℕ) (a b : A) (xs ys : List A)
    → 2 ≤ n
    → n ≤ length xs + 2
    → drop n (a ∷ b ∷ xs ++ ys) ≡ drop (n - 2) xs ++ ys
drop_two n a b xs ys two le =
    ap (λ k. drop k (a ∷ b ∷ xs ++ ys)) {x = n} {y = suc (suc (n - 2))} (omega arith)
    ∙ drop_before (n - 2) xs ys (omega arith)

take_two {ℓ} :
    {A : Type ℓ} (n : ℕ) (a b : A) (xs ys : List A)
    → 2 ≤ n
    → n ≤ length xs + 2
    → take n (a ∷ b ∷ xs ++ ys) ≡ a ∷ b ∷ take (n - 2) xs
take_two n a b xs ys two le =
    ap (λ k. take k (a ∷ b ∷ xs ++ ys)) {x = n} {y = suc (suc (n - 2))} (omega arith)
    ∙ ap (λ r. a ∷ b ∷ r) (take_before (n - 2) xs ys (omega arith))

module _ (f : Fragmenter) {x h : ℕ} {body tail : List ℕ} (l : Loaded f x h body tail) where
  pub deliver_from-whole :
      length body + 1 ≤ f.max_size → deliver_from f ≡ some (whole_sent f h body)
  unfolding deliver_from deliver_whole
  deliver_from-whole le =
      rw (l.cursor, l.valid, l.buffer, size, le→leb (length body + 1) f.max_size le, slice) refl
    where
      size : length body + 2 -u 1 ≡ length body + 1
      size = omega (arith, l.small, length-append body tail)

      slice : slice? (x ∷ h ∷ body ++ tail) 1 (length body + 2) ≡ some (h ∷ body)
      slice =
          slice?-in (x ∷ h ∷ body ++ tail) 1 (length body + 2) (omega arith)
            (omega (arith, length-append body tail))
          ∙ ap some (take_prefix (length body + 2 - 1) (h ∷ body) tail (omega arith))

  pub deliver_from-first :
      2 ≤ f.max_size
      → f.max_size < length body + 1
      → deliver_from f ≡ some (first_sent f h body tail)
  unfolding deliver_from deliver_first
  deliver_from-first two lt =
      rw
        (
          l.cursor,
          l.valid,
          l.buffer,
          size,
          lt→leb f.max_size (length body + 1) lt,
          indicator_lem h l.byte,
          first_header_lem h l.byte,
          slice,
          cursor,
        )
        refl
    where
      size : length body + 2 -u 1 ≡ length body + 1
      size = omega (arith, l.small, length-append body tail)

      slice :
          slice? (fu_indicator h ∷ (128 + nal_type h) ∷ body ++ tail) 0 f.max_size
          ≡ some (first_bytes f.max_size h body)
      slice =
          slice?-in (fu_indicator h ∷ (128 + nal_type h) ∷ body ++ tail) 0 f.max_size (omega arith)
            (omega (arith, length-append body tail))
          ∙ ap (λ n. some (take n (fu_indicator h ∷ (128 + nal_type h) ∷ body ++ tail)))
              {x = f.max_size - 0} {y = f.max_size} (omega arith)
          ∙ ap some
              (take_two f.max_size (fu_indicator h) (128 + nal_type h) body tail two (omega arith))

      cursor : 1 +u (f.max_size -u 1) ≡ f.max_size
      cursor = omega (arith, l.small, length-append body tail)

  -- After the first fragment the rest of the body is still to be sent.
  pub first_sent-Sending :
      4 ≤ f.max_size
      → f.max_size < length body + 1
      → Sending
          (first_sent f h body tail)
          (fu_indicator h)
          (nal_type h)
          (drop (f.max_size - 2) body)
  first_sent-Sending four lt = record {
    cur_ge = four;
    cur_lt = omega (arith, l.valid);
    fits = omega (arith, l.valid, length-append body tail);
    small = omega (arith, l.small);
    at0 = refl;
    at1 = refl;
    t_lt = omega arith;
    rest_at =
        ap (λ n. take n (drop f.max_size (fu_indicator h ∷ (128 + nal_type h) ∷ body ++ tail)))
          {x = f.num_valid_data_bytes - f.max_size} {y = length body - (f.max_size - 2)}
          (omega (arith, l.valid))
        ∙ ap (take (length body - (f.max_size - 2))) (
            drop_two f.max_size (fu_indicator h) (128 + nal_type h) body tail (omega arith)
              (omega arith))
        ∙ take_prefix (length body - (f.max_size - 2)) (drop (f.max_size - 2) body) tail
            (omega (arith, length-drop (f.max_size - 2) body));
  }
