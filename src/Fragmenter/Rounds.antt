-- ===== src/Fragmenter/Rounds.antt =====
-- One delivery of a later fragment: what goes out, and what is left.
use dorsvr.Common.{
  ℕ, suc, ◌+◌, ◌-◌, ◌^◌, ◌≤◌, ◌<◌, ◌≡◌, refl, sym, ap, ap₂, ◌∙◌, Bool, true, false, List, ◌∷◌, some,
  length, copy, get_or, set, take, drop, length-set, length-take, length-drop, slice?-in, drop-drop,
  drop-take, take-take, drop-set_before, get_or-set_ne, drop-set_pair, arith, leb, if◌then◌else◌,
  ◌+u◌, ◌-u◌,
}
use dorsvr.Fragmenter.{Fragmenter, write_fu_header, deliver_next}
use dorsvr.Fragmenter.Buffer.{with_header, fu_header, write_fu_header_lem}

-- The fragmenter is in the middle of a unit: `rest` is still to be sent.
pub record Sending (f : Fragmenter) (indicator t : ℕ) (rest : List ℕ) : Type 0 where
  pub cur_ge : 4 ≤ f.cur_data_offset
  pub cur_lt : f.cur_data_offset < f.num_valid_data_bytes
  pub fits : f.num_valid_data_bytes ≤ length f.input_buffer
  pub small : length f.input_buffer + 2 < 2 ^ 64
  pub at0 : get_or f.input_buffer 0 0 ≡ indicator
  pub at1 : get_or f.input_buffer 1 0 ≡ 128 + t
  pub t_lt : t < 32
  pub rest_at :
      take (f.num_valid_data_bytes - f.cur_data_offset) (drop f.cur_data_offset f.input_buffer)
      ≡ rest

abbrev pub is_last_round : Fragmenter → Bool
is_last_round f = leb (2 + f.num_valid_data_bytes - f.cur_data_offset) f.max_size

abbrev pub sent_size : Fragmenter → ℕ
sent_size f = if is_last_round f then 2 + f.num_valid_data_bytes - f.cur_data_offset else f.max_size

abbrev pub next_buffer : Fragmenter → ℕ → ℕ → List ℕ
next_buffer f indicator t =
    with_header f.input_buffer (f.cur_data_offset - 2) indicator (fu_header t (is_last_round f))

abbrev pub sent_bytes : Fragmenter → ℕ → ℕ → List ℕ
sent_bytes f indicator t =
    take (sent_size f) (drop (f.cur_data_offset - 2) (next_buffer f indicator t))

abbrev pub after_round : Fragmenter → ℕ → ℕ → Fragmenter
after_round f indicator t = record f {
  framed = record f.framed {
    buff_to = copy f.buff_to (sent_bytes f indicator t);
    frame_size = sent_size f;
    num_truncated_bytes =
        (if is_last_round f then f.save_num_truncated_bytes else f.num_truncated_bytes);
  };
  input_buffer = next_buffer f indicator t;
  cur_data_offset = f.cur_data_offset + (sent_size f - 2);
  last_fragment_completed_nal_unit = is_last_round f;
}

module _ (f : Fragmenter) (indicator t : ℕ) {rest : List ℕ} (s : Sending f indicator t rest) where
  pub sent_size-le :
      (sent_size f ≤ 2 + f.num_valid_data_bytes - f.cur_data_offset) × (sent_size f ≤ f.max_size)
  sent_size-le = ground arith

  header_written :
      write_fu_header f.input_buffer f.cur_data_offset (is_last_round f)
      ≡ some (next_buffer f indicator t)
  header_written =
      ap (λ c. write_fu_header f.input_buffer c (is_last_round f)) (omega arith)
      ∙ write_fu_header_lem f.input_buffer (f.cur_data_offset - 2) indicator t (is_last_round f)
          (omega arith) (omega arith) (omega arith) s.at0 s.at1 s.t_lt

  pub length-next_buffer : length (next_buffer f indicator t) ≡ length f.input_buffer
  length-next_buffer =
      length-set (set f.input_buffer (f.cur_data_offset - 2) indicator) (f.cur_data_offset - 2 + 1)
        _
      ∙ length-set f.input_buffer (f.cur_data_offset - 2) indicator

  pub deliver_next-eq : 2 ≤ f.max_size → deliver_next f ≡ some (after_round f indicator t)
  unfolding deliver_next
  deliver_next-eq hm = rw (
    remaining,
    header_written,
    from,
    to,
    slice?-in (next_buffer f indicator t) (f.cur_data_offset - 2)
        (f.cur_data_offset - 2 + sent_size f) (omega arith)
        (omega (arith, length-next_buffer, sent_size-le)),
    size,
    cursor,
  )
    where
      remaining :
          2 +u f.num_valid_data_bytes -u f.cur_data_offset
          ≡ 2 + f.num_valid_data_bytes - f.cur_data_offset
      remaining = omega arith

      from : f.cur_data_offset -u 2 ≡ f.cur_data_offset - 2
      from = omega arith

      to : (f.cur_data_offset - 2) +u sent_size f ≡ f.cur_data_offset - 2 + sent_size f
      to = omega (arith, sent_size-le)

      size : f.cur_data_offset - 2 + sent_size f - (f.cur_data_offset - 2) ≡ sent_size f
      size = omega arith

      ground_size : 2 ≤ sent_size f
      ground_size = ground arith

      cursor : f.cur_data_offset +u (sent_size f -u 2) ≡ f.cur_data_offset + (sent_size f - 2)
      cursor = omega (arith, sent_size-le, ground_size)

  -- What goes out: the two header bytes, and data from the cursor on.
  sent_bytes-eq :
      2 ≤ f.max_size
      → sent_bytes f indicator t
        ≡ indicator
          ∷ fu_header t (is_last_round f)
          ∷ take (sent_size f - 2) (drop f.cur_data_offset f.input_buffer)
  sent_bytes-eq hm =
      ap₂ (λ n xs. take n xs) two_more
        (drop-set_pair (f.cur_data_offset - 2) f.input_buffer indicator
            (fu_header t (is_last_round f)) (omega arith)
          ∙ ap (λ n. indicator ∷ fu_header t (is_last_round f) ∷ drop n f.input_buffer)
              (omega arith))
    where
      two_more : sent_size f ≡ suc (suc (sent_size f - 2))
      two_more = ground arith

  pub rest_length : length rest ≡ f.num_valid_data_bytes - f.cur_data_offset
  rest_length = omega (
    arith,
    ap (λ r. length r) s.rest_at,
    length-take (f.num_valid_data_bytes - f.cur_data_offset)
        (drop f.cur_data_offset f.input_buffer),
    length-drop f.cur_data_offset f.input_buffer,
  )

  -- The last round sends all the rest.
  pub sent_last :
      2 ≤ f.max_size
      → length rest ≤ f.max_size - 2
      → (is_last_round f ≡ true) × (sent_bytes f indicator t ≡ indicator ∷ (t + 64) ∷ rest)
  sent_last hm h = (
    last,
    sent_bytes-eq hm
        ∙ ap₂ (λ a r. indicator ∷ a ∷ r) (ap (fu_header t) last)
            (ap (λ n. take n (drop f.cur_data_offset f.input_buffer)) size ∙ s.rest_at),
  )
    where
      last : is_last_round f ≡ true
      last = ground (arith, rest_length)

      size : sent_size f - 2 ≡ f.num_valid_data_bytes - f.cur_data_offset
      size = rw last (omega arith)

  -- Any other round sends as much as fits.
  pub sent_more :
      2 ≤ f.max_size
      → f.max_size - 2 < length rest
      → (is_last_round f ≡ false)
        × (sent_bytes f indicator t ≡ indicator ∷ t ∷ take (f.max_size - 2) rest)
  sent_more hm h = (
    more,
    sent_bytes-eq hm
        ∙ ap₂ (λ a r. indicator ∷ a ∷ r) (ap (fu_header t) more)
            (ap (λ n. take n (drop f.cur_data_offset f.input_buffer)) size
              ∙ sym (
                  take-take (f.max_size - 2) (f.num_valid_data_bytes - f.cur_data_offset)
                    (drop f.cur_data_offset f.input_buffer) (omega (arith, rest_length)))
              ∙ ap (take (f.max_size - 2)) s.rest_at),
  )
    where
      more : is_last_round f ≡ false
      more = ground (arith, rest_length)

      size : sent_size f - 2 ≡ f.max_size - 2
      size = rw more refl

  -- After such a round the fragmenter is still sending, what is left of the rest.
  pub after_round-Sending :
      4 ≤ f.max_size
      → f.max_size - 2 < length rest
      → Sending (after_round f indicator t) indicator t (drop (f.max_size - 2) rest)
  after_round-Sending hm h = record {
    cur_ge = omega (arith, cursor, s.cur_ge);
    cur_lt = omega (arith, cursor, rest_length, s.cur_lt);
    fits = omega (arith, length-next_buffer, s.fits);
    small = omega (arith, length-next_buffer, s.small);
    at0 = header_before 0 (omega (arith, s.cur_ge)) ∙ s.at0;
    at1 = header_before 1 (omega (arith, s.cur_ge)) ∙ s.at1;
    t_lt = s.t_lt;
    rest_at =
        ap₂ (λ n c. take n (drop c (next_buffer f indicator t))) left cursor
        ∙ ap (take (nv - (cur + m))) behind
        ∙ sym (drop-take m (nv - (cur + m)) (drop cur f.input_buffer))
        ∙ ap (λ n. drop m (take n (drop cur f.input_buffer))) (omega (arith, rest_length))
        ∙ ap (drop m) s.rest_at;
  }
    where
      m : ℕ
      m = f.max_size - 2

      nv : ℕ
      nv = f.num_valid_data_bytes

      cur : ℕ
      cur = f.cur_data_offset

      header : ℕ
      header = fu_header t (is_last_round f)

      cursor : cur + (sent_size f - 2) ≡ cur + m
      cursor = rw (sent_more (omega arith) h).0 refl

      left : nv - (cur + (sent_size f - 2)) ≡ nv - (cur + m)
      left = ap (λ c. nv - c) cursor

      header_before :
          (i : ℕ) → i < cur - 2 → get_or (next_buffer f indicator t) i 0 ≡ get_or f.input_buffer i 0
      header_before i lt =
          get_or-set_ne (set f.input_buffer (cur - 2) indicator) (cur - 2 + 1) i header 0
            (omega arith)
          ∙ get_or-set_ne f.input_buffer (cur - 2) i indicator 0 (omega arith)

      behind : drop (cur + m) (next_buffer f indicator t) ≡ drop m (drop cur f.input_buffer)
      behind =
          drop-set_before (cur + m) (cur - 2 + 1) (set f.input_buffer (cur - 2) indicator) header
            (omega arith)
          ∙ drop-set_before (cur + m) (cur - 2) f.input_buffer indicator (omega arith)
          ∙ sym (drop-drop cur m f.input_buffer)
