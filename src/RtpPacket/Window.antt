-- ===== src/RtpPacket/Window.antt =====
-- The bytes of a packet as the checks move over them.
use dorsvr.Common.{
  ℕ, zero, suc, ◌+◌, ◌-◌, ◌^◌, ◌≤◌, ◌<◌, ◌≡◌, refl, sym, ap, ◌∙◌, List, [], ◌∷◌, ◌++◌, some, length,
  take, drop, get_elem?, length-append, take-append, drop-append, drop-drop, drop-take, take-take,
  get_elem?-middle, le→ltb, arith, ◌+w◌, ◌-w◌,
}
use dorsvr.Binary.{big_endian_uint32, put_uint32}
use dorsvr.Binary.RoundTrip.{put_uint32-big_endian}
use dorsvr.RtpPacket.{
  BufferedPacket, packet_data, data_size, skip, remove_padding, ntohl, value_or_zero,
}
use dorsvr.RtpPacket.Spec.{Holds}

get_elem?-take {ℓ} :
    {A : Type ℓ} (n i : ℕ) (xs : List A) → i < n → get_elem? (take n xs) i ≡ get_elem? xs i
get_elem?-take zero i xs lt = absurd (omega arith)
get_elem?-take (suc n) i [] lt = refl
get_elem?-take (suc n) zero (x ∷ xs) lt = refl
get_elem?-take (suc n) (suc i) (x ∷ xs) lt = get_elem?-take n i xs (omega arith)

big_endian_uint32-take :
    (n : ℕ) (xs : List ℕ)
    → big_endian_uint32 (take (suc (suc (suc (suc n)))) xs) ≡ big_endian_uint32 xs
unfolding big_endian_uint32
big_endian_uint32-take n [] = refl
big_endian_uint32-take n (a ∷ []) = refl
big_endian_uint32-take n (a ∷ b ∷ []) = refl
big_endian_uint32-take n (a ∷ b ∷ c ∷ []) = refl
big_endian_uint32-take n (a ∷ b ∷ c ∷ d ∷ xs) = refl

big_endian_uint32-append :
    (w : ℕ) (ys : List ℕ)
    → big_endian_uint32 (put_uint32 w ++ ys) ≡ big_endian_uint32 (put_uint32 w)
unfolding big_endian_uint32 put_uint32
big_endian_uint32-append w ys = refl

pub length-put_uint32 : (w : ℕ) → length (put_uint32 w) ≡ 4
unfolding put_uint32
length-put_uint32 w = refl

module _ (p : BufferedPacket) where
  -- A word at the head is read.
  pub ntohl-eq :
      (w : ℕ) (ys : List ℕ) → Holds p (put_uint32 w ++ ys) → w < 2 ^ 32 → ntohl (packet_data p) ≡ w
  unfolding ntohl packet_data
  ntohl-eq w ys h lt = ap value_or_zero word
    where
      word : big_endian_uint32 (drop p.head p.buffer) ≡ some w
      word =
          sym (big_endian_uint32-take (length ys) (drop p.head p.buffer))
          ∙ ap (λ n. big_endian_uint32 (take n (drop p.head p.buffer)))
              {x = suc (suc (suc (suc (length ys))))} {y = length (put_uint32 w ++ ys)}
              (omega (arith, length-append (put_uint32 w) ys, length-put_uint32 w))
          ∙ ap big_endian_uint32 h.window
          ∙ big_endian_uint32-append w ys
          ∙ put_uint32-big_endian w lt

  -- The last byte is read.
  pub last_byte :
      (xs : List ℕ) (k : ℕ)
      → Holds p (xs ++ (k ∷ []))
      → get_elem? (packet_data p) (length (xs ++ (k ∷ [])) - 1) ≡ some k
  unfolding packet_data
  last_byte xs k h =
      ap (get_elem? (drop p.head p.buffer)) {y = length xs}
        (omega (arith, length-append xs (k ∷ [])))
      ∙ sym (
          get_elem?-take (length (xs ++ (k ∷ []))) (length xs) (drop p.head p.buffer)
            (omega (arith, length-append xs (k ∷ []))))
      ∙ ap (λ ys. get_elem? ys (length xs)) h.window
      ∙ get_elem?-middle xs k []

  pub data_size-eq : {bytes : List ℕ} → Holds p bytes → data_size p ≡ length bytes
  unfolding data_size
  data_size-eq h = omega (arith, h.span, h.within, h.bounded)

  pub skip-eq :
      (n : ℕ) {bytes : List ℕ}
      → Holds p bytes
      → n ≤ length bytes
      → skip p n ≡ record p { head = p.head + n }
  unfolding skip
  skip-eq n h le = rw (up, le→ltb (p.head + n) p.tail (omega (arith, h.span))) refl
    where
      up : p.head +w n ≡ p.head + n
      up = omega (arith, h.span, h.within, h.bounded)

  -- Bytes skipped at the head.
  pub skip-Holds :
      (n : ℕ) (xs ys : List ℕ)
      → Holds p (xs ++ ys)
      → n ≡ length xs
      → Holds (record p { head = p.head + n }) ys
  skip-Holds n xs ys h e = record {
    window =
        ap (take (length ys)) (sym (drop-drop p.head n p.buffer))
        ∙ sym (drop-take n (length ys) (drop p.head p.buffer))
        ∙ ap (λ k. drop n (take k (drop p.head p.buffer))) {x = n + length ys}
            {y = length (xs ++ ys)} (omega (arith, length-append xs ys))
        ∙ ap (drop n) h.window
        ∙ ap (λ k. drop k (xs ++ ys)) e
        ∙ drop-append xs ys;
    span = omega (arith, h.span, length-append xs ys);
    within = h.within;
    bounded = h.bounded;
  }

  pub remove_padding-eq :
      (n : ℕ) {bytes : List ℕ}
      → Holds p bytes
      → n ≤ length bytes
      → remove_padding p n ≡ record p { tail = p.tail - n }
  unfolding remove_padding
  remove_padding-eq n h le =
      rw (le→ltb n (p.tail -w p.head) (omega (arith, h.span, h.within, h.bounded)), down) refl
    where
      down : p.tail -w n ≡ p.tail - n
      down = omega (arith, h.span, h.within, h.bounded)

  -- Bytes removed at the tail.
  pub remove_padding-Holds :
      (n : ℕ) (xs ys : List ℕ)
      → Holds p (xs ++ ys)
      → n ≡ length ys
      → Holds (record p { tail = p.tail - n }) xs
  remove_padding-Holds n xs ys h e = record {
    window =
        sym (
          take-take (length xs) (length (xs ++ ys)) (drop p.head p.buffer)
            (omega (arith, length-append xs ys)))
        ∙ ap (take (length xs)) h.window
        ∙ take-append xs ys;
    span = omega (arith, h.span, length-append xs ys);
    within = omega (arith, h.within);
    bounded = h.bounded;
  }
