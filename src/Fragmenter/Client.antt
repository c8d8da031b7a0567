-- ===== src/Fragmenter/Client.antt =====
-- The client of the fragmenter: it pulls until the fragmenter asks its own source for a NAL unit.
use dorsvr.Common.{
  ℕ, zero, suc, ◌≤◌, ◌<◌, ◌≡◌, ◌≢◌, refl, ap, ◌∙◌, Bool, true, false, List, [], ◌∷◌, Option, none,
  some, ◌>>=◌, length, take, arith, le→leb, lt→leb, le→ltb, ne→==,
}
use dorsvr.FramedSource.{get_next_frame, after_getting}
use dorsvr.Fragmenter.{
  Fragmenter, Outcome, ask_input, delivered, deliver_from, cut_max_size, reset_when_done,
  finish_delivery, do_get_next_frame, pull,
}
use dorsvr.Fragmenter.Rounds.{Sending, after_round, deliver_next-eq}

-- A delivered frame, and whether it completes its NAL unit.
abbrev pub Frame : Type 0
Frame = List ℕ × Bool

abbrev pub frame_of : Fragmenter → Frame
frame_of g = (take g.frame_size g.buff_to, g.last_fragment_completed_nal_unit)

-- The client: it pulls into `buff`, with room for `max`, until the source is asked for a new unit.
unfoldable pub pull_all : ℕ → Fragmenter → List ℕ → ℕ → Option (List Frame)
pull_all zero f buff max = none
pull_all (suc fuel) f buff max = pull f buff max none none >>= elim [
  | ask_input _ _ ↦ some []
  | delivered g _ ↦ pull_all fuel g buff max >>= λ frames. some (frame_of g ∷ frames)
]

abbrev pub is_nil {ℓ} : {A : Type ℓ} → List A → Bool
is_nil [] = true
is_nil (_ ∷ _) = false

-- Only the last frame completes the unit.
abbrev pub marked : List (List ℕ) → List Frame
marked [] = []
marked (x ∷ xs) = (x, is_nil xs) ∷ marked xs

-- Nothing is being requested, and a request brings enough room for a packet.
pub record IsReady (f : Fragmenter) (buff : List ℕ) (max : ℕ) : Type 0 where
  pub idle : f.is_currently_awaiting_data ≡ false
  pub min_size : 4 ≤ f.max_output_packet_size
  pub room : f.max_output_packet_size ≤ max
  pub in_buff : max ≤ length buff

-- The fragmenter as `deliver_from` finds it.
abbrev pub requested : Fragmenter → List ℕ → Fragmenter
requested f buff = record f {
  framed = record f.framed {
    buff_to = buff;
    max_size = f.max_output_packet_size;
    on_close_func = none;
    after_getting_func = none;
    is_currently_awaiting_data = true;
  };
}

pull-eq :
    (f : Fragmenter) (buff : List ℕ) (max : ℕ)
    → IsReady f buff max
    → f.num_valid_data_bytes ≢ 1
    → pull f buff max none none
      ≡ (deliver_from (requested f buff) >>= λ g. some (finish_delivery g))
unfolding pull get_next_frame do_get_next_frame cut_max_size
pull-eq f buff max r ne =
    rw (r.idle, ne→== f.num_valid_data_bytes 1 ne, le→ltb f.max_output_packet_size max r.room)

-- What the client does with the outcome of a pull.
abbrev pub then_pull : ℕ → List ℕ → ℕ → Outcome → Option (List Frame)
then_pull fuel buff max o = elim o [
  | ask_input _ _ ↦ some []
  | delivered g _ ↦ pull_all fuel g buff max >>= λ frames. some (frame_of g ∷ frames)
]

pull_all-step :
    (n : ℕ) (f : Fragmenter) (buff : List ℕ) (max : ℕ)
    → pull_all (suc n) f buff max ≡ (pull f buff max none none >>= then_pull n buff max)
unfolding pull_all
pull_all-step n f buff max = refl

pub pull_done :
    (n : ℕ) (f : Fragmenter) (buff : List ℕ) (max : ℕ)
    → IsReady f buff max
    → f.num_valid_data_bytes ≡ 1
    → pull_all (suc n) f buff max ≡ some []
unfolding pull get_next_frame do_get_next_frame
pull_done n f buff max r e = pull_all-step n f buff max ∙ rw (r.idle, e) refl

-- The fragmenter in `deliver_next`.
abbrev pub in_next : Fragmenter → List ℕ → Fragmenter
in_next f buff = record (requested f buff) { last_fragment_completed_nal_unit = true }

pub in_next-Sending :
    {f : Fragmenter} {indicator t : ℕ} {rest : List ℕ} (buff : List ℕ)
    → Sending f indicator t rest
    → Sending (in_next f buff) indicator t rest
in_next-Sending buff s = record {
  cur_ge = s.cur_ge;
  cur_lt = s.cur_lt;
  fits = s.fits;
  small = s.small;
  at0 = s.at0;
  at1 = s.at1;
  t_lt = s.t_lt;
  rest_at = s.rest_at;
}

-- The fragmenter as the callback finds it, where the cursor is reset and where it is not.
abbrev pub called_back : Fragmenter → Fragmenter
called_back g = record g { framed = record g.framed { is_currently_awaiting_data = false } }

abbrev pub restarted : Fragmenter → Fragmenter
restarted g = record (called_back g) { num_valid_data_bytes = 1; cur_data_offset = 1 }

pub called_back-Sending :
    {indicator t : ℕ} {rest : List ℕ} (g : Fragmenter)
    → Sending g indicator t rest
    → Sending (called_back g) indicator t rest
called_back-Sending g s = record {
  cur_ge = s.cur_ge;
  cur_lt = s.cur_lt;
  fits = s.fits;
  small = s.small;
  at0 = s.at0;
  at1 = s.at1;
  t_lt = s.t_lt;
  rest_at = s.rest_at;
}

module _ (g : Fragmenter) where
  pub finish_delivery-done :
      g.num_valid_data_bytes ≤ g.cur_data_offset
      → finish_delivery g ≡ delivered (restarted g) (after_getting g.framed).1
  unfolding finish_delivery reset_when_done after_getting
  finish_delivery-done le = rw (le→leb g.num_valid_data_bytes g.cur_data_offset le) refl

  pub finish_delivery-more :
      g.cur_data_offset < g.num_valid_data_bytes
      → finish_delivery g ≡ delivered (called_back g) (after_getting g.framed).1
  unfolding finish_delivery reset_when_done after_getting
  finish_delivery-more lt = rw (lt→leb g.cur_data_offset g.num_valid_data_bytes lt) refl

-- What the client makes of a delivery `g` that uses the data up, and of one that does not.
module _ (buff : List ℕ) (max : ℕ) (g : Fragmenter) where
  pub then_pull-done :
      (n : ℕ)
      → g.num_valid_data_bytes ≤ g.cur_data_offset
      → IsReady (restarted g) buff max
      → then_pull (suc n) buff max (finish_delivery g) ≡ some (frame_of g ∷ [])
  then_pull-done n le r =
      ap (then_pull (suc n) buff max) (finish_delivery-done g le)
      ∙ ap (λ o. o >>= λ frames. some (frame_of g ∷ frames))
          (pull_done n (restarted g) buff max r refl)

  pub then_pull-more :
      (n : ℕ) {frames : List Frame}
      → g.cur_data_offset < g.num_valid_data_bytes
      → pull_all n (called_back g) buff max ≡ some frames
      → then_pull n buff max (finish_delivery g) ≡ some (frame_of g ∷ frames)
  then_pull-more n lt rest =
      ap (then_pull n buff max) (finish_delivery-more g lt)
      ∙ ap (λ o. o >>= λ frames. some (frame_of g ∷ frames)) rest

module _ (f : Fragmenter) (buff : List ℕ) (max : ℕ) (r : IsReady f buff max) where
  pub deliver_from-next :
      {indicator t : ℕ} {rest : List ℕ}
      → Sending f indicator t rest
      → deliver_from (requested f buff) ≡ some (after_round (in_next f buff) indicator t)
  unfolding deliver_from
  deliver_from-next {indicator} {t} s = rw (ne→== f.cur_data_offset 1 (omega (arith, s.cur_ge))) (
      deliver_next-eq (in_next f buff) indicator t (in_next-Sending buff s)
        (omega (arith, r.min_size)))

  pull_all-delivered :
      (n : ℕ) (g : Fragmenter)
      → f.num_valid_data_bytes ≢ 1
      → deliver_from (requested f buff) ≡ some g
      → pull_all (suc n) f buff max ≡ then_pull n buff max (finish_delivery g)
  pull_all-delivered n g ne e =
      pull_all-step n f buff max
      ∙ ap (λ o. o >>= then_pull n buff max) {y = some (finish_delivery g)}
          (pull-eq f buff max r ne ∙ rw e refl)

  pub pull_all-done :
      (n : ℕ) (g : Fragmenter)
      → f.num_valid_data_bytes ≢ 1
      → deliver_from (requested f buff) ≡ some g
      → g.num_valid_data_bytes ≤ g.cur_data_offset
      → IsReady (restarted g) buff max
      → pull_all (suc (suc n)) f buff max ≡ some (frame_of g ∷ [])
  pull_all-done n g ne e le r' =
      pull_all-delivered (suc n) g ne e ∙ then_pull-done buff max g n le r'

  pub pull_all-more :
      (n : ℕ) (g : Fragmenter) {frames : List Frame}
      → f.num_valid_data_bytes ≢ 1
      → deliver_from (requested f buff) ≡ some g
      → g.cur_data_offset < g.num_valid_data_bytes
      → pull_all n (called_back g) buff max ≡ some frames
      → pull_all (suc n) f buff max ≡ some (frame_of g ∷ frames)
  pull_all-more n g ne e lt rest = pull_all-delivered n g ne e ∙ then_pull-more buff max g n lt rest
