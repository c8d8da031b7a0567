-- ===== src/OutPacketBuffer/Words.antt =====
-- Words written into a packet are read back, and the words beside them stay.
use dorsvr.Common.{
  ℕ, ◌+◌, ◌-◌, ◌^◌, ◌≤◌, ◌<◌, ◌≡◌, refl, sym, ap, ◌∙◌, ◌⊎◌, inl, inr, List, [], ◌∷◌, some, length,
  take, drop, copy, copy_at, replicate, length-copy_at, length-take, length-drop, slice?-in, ltb,
  if◌then◌else◌, le→ltb, arith, ◌+u◌,
}
use dorsvr.Binary.{put_uint32, big_endian_uint32}
use dorsvr.Binary.RoundTrip.{put_uint32-big_endian}
use dorsvr.OutPacketBuffer.{
  OutPacketBuffer, enqueue_word, insert, insert_fitting, insert_word, extract, extract_word,
}
use dorsvr.OutPacketBuffer.Spec.{IsValid, bytes_at}
use dorsvr.OutPacketBuffer.Bytes.{copied_at, copied_behind, copied_after}
use dorsvr.OutPacketBuffer.Valid.{enqueued, enqueue-eq, enqueued-IsValid, cut_to_available-fits}

copy-same {ℓ} : {A : Type ℓ} (dst src : List A) → length src ≡ length dst → copy dst src ≡ src
copy-same [] [] e = refl
copy-same [] (x ∷ src) e = absurd (omega arith)
copy-same (d ∷ dst) [] e = absurd (omega arith)
copy-same (d ∷ dst) (x ∷ src) e = ap (λ r. x ∷ r) (copy-same dst src (omega arith))

length-put_uint32 : (w : ℕ) → length (put_uint32 w) ≡ 4
unfolding put_uint32
length-put_uint32 w = refl

-- A word of a sound buffer is four bytes of it.
extract_word-eq :
    (b : OutPacketBuffer) (p : ℕ)
    → IsValid b
    → b.packet_start + p + 4 ≤ b.limit
    → extract_word b p ≡ big_endian_uint32 (bytes_at b p 4)
unfolding extract_word extract
extract_word-eq b p v h =
    rw
      (
        at,
        to,
        le→ltb (b.packet_start + p + 4) b.limit h,
        slice?-in b.buff (b.packet_start + p) (b.packet_start + p + 4) (omega arith)
            (omega (arith, v.sized)),
        size,
        copy-same (replicate 4 0) (bytes_at b p 4) (
            omega (
              arith,
              v.sized,
              length-take 4 (drop (b.packet_start + p) b.buff),
              length-drop (b.packet_start + p) b.buff,
            )),
      )
      refl
  where
    at : b.packet_start +u p ≡ b.packet_start + p
    at = omega (arith, v.bounded)

    to : (b.packet_start + p) +u 4 ≡ b.packet_start + p + 4
    to = omega (arith, v.bounded)

    size : b.packet_start + p + 4 - (b.packet_start + p) ≡ 4
    size = omega arith

-- The word that lies at the position of a copied one, and those before and behind it.
module _ (b b' : OutPacketBuffer) (p w : ℕ) (v : IsValid b) (v' : IsValid b')
    (h : b.packet_start + p + 4 ≤ b.limit) (start : b'.packet_start ≡ b.packet_start)
    (top : b'.limit ≡ b.limit)
    (bytes : b'.buff ≡ copy_at b.buff (b.packet_start + p) (put_uint32 w)) where
  word_there : w < 2 ^ 32 → extract_word b' p ≡ some w
  unfolding put_uint32
  word_there lt =
      extract_word-eq b' p v' (omega arith)
      ∙ ap big_endian_uint32 (
          rw (bytes, start)
            (copied_at b.buff (b.packet_start + p) (put_uint32 w)
              (omega (arith, length-put_uint32 w, v.sized))))
      ∙ put_uint32-big_endian w lt

  words_beside :
      (q : ℕ)
      → (q + 4 ≤ p) ⊎ (p + 4 ≤ q)
      → b.packet_start + q + 4 ≤ b.limit
      → extract_word b' q ≡ extract_word b q
  words_beside q side k =
      extract_word-eq b' q v' (omega arith)
      ∙ ap big_endian_uint32 (rw (bytes, start) (same side))
      ∙ sym (extract_word-eq b q v k)
    where
      same :
          (q + 4 ≤ p) ⊎ (p + 4 ≤ q)
          → take 4 (drop (b.packet_start + q) (copy_at b.buff (b.packet_start + p) (put_uint32 w)))
            ≡ take 4 (drop (b.packet_start + q) b.buff)
      same (inl le) =
          copied_behind b.buff (b.packet_start + p) (put_uint32 w) (b.packet_start + q) 4
            (omega arith)
      same (inr le) = ap (take 4) (
          copied_after b.buff (b.packet_start + p) (put_uint32 w) (b.packet_start + q)
            (omega (arith, length-put_uint32 w)))

-- A word enqueued on a sound buffer with room for it is read back at the offset where it was put; the
-- offset moves by four, the packet's start stays, the buffer stays sound, and every word in front of it stays.
pub enqueue_word-extract_word :
    (b : OutPacketBuffer) (w : ℕ)
    → IsValid b
    → b.packet_start + b.cur_offset + 4 ≤ b.limit
    → w < 2 ^ 32
    → (b' : OutPacketBuffer) × (enqueue_word b w ≡ some b')
      × IsValid b'
      × (b'.packet_start ≡ b.packet_start)
      × (b'.limit ≡ b.limit)
      × (b'.cur_offset ≡ b.cur_offset + 4)
      × (extract_word b' b.cur_offset ≡ some w)
      × ((q : ℕ) → q + 4 ≤ b.cur_offset → extract_word b' q ≡ extract_word b q)
unfolding enqueue_word
enqueue_word-extract_word b w v h lt = (
  b',
  enqueue-eq b (put_uint32 w) 4 v,
  v',
  refl,
  refl,
  ap (λ n. b.cur_offset + n) (cut_to_available-fits b 4 v h),
  word_there b b' b.cur_offset w v v' h refl refl refl lt,
  λ q le. words_beside b b' b.cur_offset w v v' h refl refl refl q (inl le) (omega arith),
)
  where
    b' : OutPacketBuffer
    b' = enqueued b (put_uint32 w) 4

    v' : IsValid b'
    v' = enqueued-IsValid b (put_uint32 w) 4 v

abbrev inserted : OutPacketBuffer → ℕ → ℕ → OutPacketBuffer
inserted b w p = record b {
  buff = copy_at b.buff (b.packet_start + p) (put_uint32 w);
  cur_offset = (if ltb b.cur_offset (p + 4) then p + 4 else b.cur_offset);
}

insert_word-eq :
    (b : OutPacketBuffer) (w p : ℕ)
    → IsValid b
    → b.packet_start + p + 4 ≤ b.limit
    → insert_word b w p ≡ some (inserted b w p)
unfolding insert_word insert insert_fitting put_uint32
insert_word-eq b w p v h =
    rw
      (
        at,
        to,
        le→ltb (b.packet_start + p + 4) b.limit h,
        slice?-in b.buff (b.packet_start + p) (length b.buff) (omega (arith, v.sized))
            (omega arith),
        ofs,
      )
      refl
  where
    at : b.packet_start +u p ≡ b.packet_start + p
    at = omega (arith, v.bounded)

    to : (b.packet_start + p) +u 4 ≡ b.packet_start + p + 4
    to = omega (arith, v.bounded)

    ofs : p +u 4 ≡ p + 4
    ofs = omega (arith, v.bounded)

inserted-IsValid :
    (b : OutPacketBuffer) (w p : ℕ)
    → IsValid b
    → b.packet_start + p + 4 ≤ b.limit
    → IsValid (inserted b w p)
inserted-IsValid b w p v h = record {
  sized = length-copy_at b.buff (b.packet_start + p) (put_uint32 w) ∙ v.sized;
  bounded = v.bounded;
  within = ground (arith, v.within);
  overflow_within = v.overflow_within;
}

-- A word below 2^32 inserted in a sound buffer, at a position with room for it, is read back there; the
-- buffer stays sound, the packet's start and the words before and behind it stay, and the offset, which
-- never gets lower, is at least the end of the word.
pub insert_word-extract_word :
    (b : OutPacketBuffer) (w p : ℕ)
    → IsValid b
    → b.packet_start + p + 4 ≤ b.limit
    → w < 2 ^ 32
    → (b' : OutPacketBuffer) × (insert_word b w p ≡ some b')
      × IsValid b'
      × (b'.packet_start ≡ b.packet_start)
      × (b'.limit ≡ b.limit)
      × (p + 4 ≤ b'.cur_offset)
      × (b.cur_offset ≤ b'.cur_offset)
      × (extract_word b' p ≡ some w)
      × ((q : ℕ)
          → (q + 4 ≤ p) ⊎ (p + 4 ≤ q)
          → b.packet_start + q + 4 ≤ b.limit
          → extract_word b' q ≡ extract_word b q)
unfolding insert_word
insert_word-extract_word b w p v h lt = (
  inserted b w p,
  insert_word-eq b w p v h,
  v',
  refl,
  refl,
  ground arith,
  ground arith,
  word_there b (inserted b w p) p w v v' h refl refl refl lt,
  λ q side k. words_beside b (inserted b w p) p w v v' h refl refl refl q side k,
)
  where
    v' : IsValid (inserted b w p)
    v' = inserted-IsValid b w p v h
