-- ===== src/Fragmenter/Later.antt =====
-- The client's pulls behind the first fragment: they bring the later fragments.
use dorsvr.Common.{
  ℕ, zero, suc, ◌+◌, ◌-◌, ◌≤◌, ◌<◌, ◌≡◌, ◌≢◌, refl, ap, ap₂, ◌∙◌, true, false, List, ◌∷◌, some,
  length, take, drop, length-take, length-drop, take-copy, arith, leb, le→leb, lt→leb, dec_le, inl,
  inr, Bool-cases,
}
use dorsvr.Fragmenter.{Fragmenter, deliver_from}
use dorsvr.Fragmenter.Spec.{later_fragments}
use dorsvr.Fragmenter.Rounds.{
  Sending, after_round, sent_bytes, sent_size, is_last_round, sent_size-le, length-next_buffer,
  next_buffer, sent_last, sent_more, after_round-Sending, rest_length,
}
use dorsvr.Fragmenter.Client.{
  frame_of, pull_all, is_nil, marked, IsReady, requested, in_next, in_next-Sending, called_back,
  called_back-Sending, deliver_from-next, pull_all-done, pull_all-more,
}

pub later_fragments-not_nil :
    (n chunk i h : ℕ) (rest : List ℕ) → 1 ≤ n → is_nil (later_fragments n chunk i h rest) ≡ false
unfolding later_fragments
later_fragments-not_nil zero chunk i h rest le = absurd (omega arith)
later_fragments-not_nil (suc n) chunk i h rest le = elim (Bool-cases (leb (length rest) chunk)) [
  | inl e ↦ rw e refl
  | inr e ↦ rw e refl
]

-- What the client finds in its buffer is what was sent.
frame_of-after_round :
    (f : Fragmenter) (indicator t : ℕ) {rest : List ℕ}
    → Sending f indicator t rest
    → 2 ≤ f.max_size
    → f.max_size ≤ length f.buff_to
    → frame_of (after_round f indicator t) ≡ (sent_bytes f indicator t, is_last_round f)
frame_of-after_round f indicator t s hm room =
    ap (λ b. (b, is_last_round f))
      (take-copy (sent_size f) f.buff_to (sent_bytes f indicator t) len
        (omega (arith, sent_size-le f indicator t s)))
  where
    len : length (sent_bytes f indicator t) ≡ sent_size f
    len = omega (
      arith,
      sent_size-le f indicator t s,
      length-take (sent_size f) (drop (f.cur_data_offset - 2) (next_buffer f indicator t)),
      length-drop (f.cur_data_offset - 2) (next_buffer f indicator t),
      length-next_buffer f indicator t s,
      s.fits,
      s.cur_ge,
    )

module _ (f : Fragmenter) (indicator t : ℕ) {rest : List ℕ} (s : Sending f indicator t rest)
    (hm : 4 ≤ f.max_size) (room : f.max_size ≤ length f.buff_to) where
  last_frame :
      length rest ≤ f.max_size - 2
      → (frame_of (after_round f indicator t) ≡ (indicator ∷ (t + 64) ∷ rest, true))
        × (f.num_valid_data_bytes ≤ (after_round f indicator t).cur_data_offset)
  last_frame h =
      let (last, sent) = sent_last f indicator t s (omega arith) h in
      (
        frame_of-after_round f indicator t s (omega arith) room ∙ ap₂ (λ a b. (a, b)) sent last,
        used,
      )
    where
      last : is_last_round f ≡ true
      last = (sent_last f indicator t s (omega arith) h).0

      size : sent_size f ≡ 2 + f.num_valid_data_bytes - f.cur_data_offset
      size = rw last refl

      used : f.num_valid_data_bytes ≤ f.cur_data_offset + (sent_size f - 2)
      used = omega (arith, size, s.cur_lt)

  more_frame :
      f.max_size - 2 < length rest
      → (frame_of (after_round f indicator t) ≡ (indicator ∷ t ∷ take (f.max_size - 2) rest, false))
        × ((after_round f indicator t).cur_data_offset < f.num_valid_data_bytes)
  more_frame h =
      let (more, sent) = sent_more f indicator t s (omega arith) h in
      (
        frame_of-after_round f indicator t s (omega arith) room ∙ ap₂ (λ a b. (a, b)) sent more,
        (after_round-Sending f indicator t s hm h).cur_lt,
      )

-- The pulls until the next unit is asked for are the rounds of the rest.
pub pull_all-later :
    (n : ℕ) (f : Fragmenter) (buff : List ℕ) (max : ℕ) {indicator t : ℕ} {rest : List ℕ}
    → IsReady f buff max
    → Sending f indicator t rest
    → length rest ≤ n
    → pull_all (suc (suc n)) f buff max
      ≡ some (marked (later_fragments n (f.max_output_packet_size - 2) indicator t rest))
unfolding later_fragments
pull_all-later zero f buff max {indicator} {t} r s le =
    absurd (omega (arith, rest_length f indicator t s, s.cur_lt))
pull_all-later (suc n) f buff max {indicator} {t} {rest} r s le = elim (dec_le (length rest) m) [
  | yes fits ↦
      let (frame, used) = last_frame f' indicator t s' r.min_size room fits in
      pull_all-done f buff max r (suc n) g ne next used
        (record { idle = refl; min_size = r.min_size; room = r.room; in_buff = r.in_buff })
      ∙ rw (frame, le→leb (length rest) m fits) refl
  | no over ↦
      let (frame, left) = more_frame f' indicator t s' r.min_size room (omega arith) in
      pull_all-more f buff max r (suc (suc n)) g ne next left (
        pull_all-later n (called_back g) buff max
          (record { idle = refl; min_size = r.min_size; room = r.room; in_buff = r.in_buff })
          (called_back-Sending g (after_round-Sending f' indicator t s' r.min_size (omega arith)))
          (omega (arith, length-drop m rest, r.min_size)))
      ∙ rw
          (
            frame,
            lt→leb m (length rest) (omega arith),
            later_fragments-not_nil n m indicator t (drop m rest)
                (omega (arith, length-drop m rest, r.min_size)),
          )
          refl
]
  where
    m : ℕ
    m = f.max_output_packet_size - 2

    f' : Fragmenter
    f' = in_next f buff

    s' : Sending (in_next f buff) indicator t rest
    s' = in_next-Sending buff s

    g : Fragmenter
    g = after_round (in_next f buff) indicator t

    ne : f.num_valid_data_bytes ≢ 1
    ne = omega (arith, s.cur_ge, s.cur_lt)

    next : deliver_from (requested f buff) ≡ some g
    next = deliver_from-next f buff max r s

    room : f.max_output_packet_size ≤ length buff
    room = omega (arith, r.room, r.in_buff)
