-- ===== src/H264Framer/SamePicture.antt =====
-- livemedia/h264_video_stream_framer_linux_amd64.go: when two slices, one behind the other, are of one picture.
use dorsvr.Common.{
  ℕ, zero, suc, ◌/◌, ◌^◌, ◌<◌, Bool, true, false, not, ◌&&◌, ◌||◌, List, some, ◌==◌, ◌>>=◌,
  if◌then◌else◌, ◌*u◌, ◌≡◌, ◌≢◌, ◌↔◌, ◌⊎◌, refl, sym, ap, ◌∙◌, leb, Bool-cases, inl, inr, arith,
  eq→==, ==→eq, ne→==,
}
use dorsvr.Common.Bits.{bit_and_low, bit_and_field}
use dorsvr.BitVector.{BitVector}
use dorsvr.H264Framer.{H264VideoStreamParser}
use dorsvr.H264Framer.Headers.{SliceHeader, analyze_slice_header}
use dorsvr.H264Framer.AccessUnit.{
  nal_ref_idc, nal_unit_type, is_vcl, has_slice_header, differs, slices_differ, first_bytes_differ,
  ends_access_unit,
}

-- Two slices, by their first bytes and their headers, that the standard's tests take for one picture.
pub record SamePicture (this next : ℕ) (t n : SliceHeader) : Type 0 where
  pub frame_num_eq : n.frame_num ≡ t.frame_num
  pub parameter_set_eq : n.pic_parameter_set_id ≡ t.pic_parameter_set_id
  pub field_pic_eq : n.field_pic_flag ≡ t.field_pic_flag
  pub bottom_field_eq : n.bottom_field_flag ≡ t.bottom_field_flag
  pub both_references :
      (nal_ref_idc next ≡ nal_ref_idc this) ⊎ ((nal_ref_idc next ≢ 0) × (nal_ref_idc this ≢ 0))
  pub both_idr : (nal_unit_type next ≡ 5) ↔ (nal_unit_type this ≡ 5)
  pub idr_pic_eq : nal_unit_type next ≡ 5 → n.idr_pic_id ≡ t.idr_pic_id

neither : {a b : Bool} → (a || b) ≡ false → (a ≡ false) × (b ≡ false)
neither {a = true} e = cc
neither {a = false} e = (refl, e)

both_false : {a b : Bool} → a ≡ false → b ≡ false → (a || b) ≡ false
both_false {a = true} e f = e
both_false {a = false} e f = f

eq_of : (m n : ℕ) → not (m == n) ≡ false → m ≡ n
eq_of m n e = ground arith

of_eq : (m n : ℕ) → m ≡ n → not (m == n) ≡ false
of_eq m n e = ground arith

differs-eq : (a b : Bool) → differs a b ≡ false → a ≡ b
differs-eq true true e = refl
differs-eq true false e = e
differs-eq false b e = sym e

eq-differs : (a b : Bool) → a ≡ b → differs a b ≡ false
eq-differs true b e = ap not (sym e)
eq-differs false b e = sym e

small_ref : (b : ℕ) → nal_ref_idc b < 4
unfolding nal_ref_idc
small_ref b = rw (bit_and_field 5 b 3, bit_and_low 2 (b / 2 ^ 5)) (omega arith)

product_zero : (a b : ℕ) → (a ≡ 0) ⊎ (b ≡ 0) → (a *u b == 0) ≡ true
product_zero a b (inl e) = eq→== (a *u b) 0 (rw e (omega arith))
product_zero a b (inr e) = eq→== (a *u b) 0 (rw e (omega arith))

up_to_three : (a : ℕ) → a < 4 → a ≢ 0 → (a ≡ 1) ⊎ (a ≡ 2) ⊎ (a ≡ 3)
up_to_three zero lt ne = absurd (ne refl)
up_to_three (suc zero) lt ne = inl refl
up_to_three (suc (suc zero)) lt ne = inr (inl refl)
up_to_three (suc (suc (suc zero))) lt ne = inr (inr refl)
up_to_three (suc (suc (suc (suc a)))) lt ne = absurd (omega arith)

product_nonzero : (a b : ℕ) → a < 4 → b < 4 → a ≢ 0 → b ≢ 0 → (a *u b == 0) ≡ false
product_nonzero a b lt lt' ne ne' = ne→== (a *u b) 0 λ e. elim (up_to_three a lt ne) [
  | inl one ↦ ne' (omega (arith, rw one at e))
  | inr (inl two) ↦ ne' (omega (arith, rw two at e))
  | inr (inr three) ↦ ne' (omega (arith, rw three at e))
]

same_references :
    (a b : ℕ)
    → a < 4
    → b < 4
    → (not (a == b) && a *u b == 0) ≡ false
    → (a ≡ b) ⊎ ((a ≢ 0) × (b ≢ 0))
same_references a b lt lt' e = elim (Bool-cases (a == b)) [
  | inl same ↦ inl (==→eq a b same)
  | inr other ↦ inr (
    (λ z. absurd_true (sym (rw (other, product_zero a b (inl z)) at e))),
    (λ z. absurd_true (sym (rw (other, product_zero a b (inr z)) at e))),
  )
]
  where
    absurd_true : {A : Type 0} → false ≡ true → A
    absurd_true e = cc

references_same :
    (a b : ℕ)
    → a < 4
    → b < 4
    → (a ≡ b) ⊎ ((a ≢ 0) × (b ≢ 0))
    → (not (a == b) && a *u b == 0) ≡ false
references_same a b lt lt' (inl e) = rw (eq→== a b e) refl
references_same a b lt lt' (inr (ne, ne')) = elim (Bool-cases (a == b)) [
  | inl same ↦ rw same refl
  | inr other ↦ rw (other, product_nonzero a b lt lt' ne ne') refl
]

iff_of : (a b : ℕ) → (a == 5) ≡ (b == 5) → (a ≡ 5) ↔ (b ≡ 5)
iff_of a b e = (λ h. ==→eq b 5 (sym e ∙ eq→== a 5 h), λ h. ==→eq a 5 (e ∙ eq→== b 5 h))

of_iff : (a b : ℕ) → (a ≡ 5) ↔ (b ≡ 5) → (a == 5) ≡ (b == 5)
of_iff a b (to, from) = elim (Bool-cases (a == 5)) [
  | inl e ↦ e ∙ sym (eq→== b 5 (to (==→eq a 5 e)))
  | inr e ↦ e ∙ sym (ne→== b 5 λ h. absurd_true (sym e ∙ eq→== a 5 (from h)))
]
  where
    absurd_true : {A : Type 0} → false ≡ true → A
    absurd_true e = cc

module _ (this next : ℕ) (t n : SliceHeader)
    (slice : has_slice_header (nal_unit_type next) ≡ true) where
  abbrev tests : Bool
  tests = first_bytes_differ this next || slices_differ n t (nal_unit_type next == 5)

  slice_type : leb 6 (nal_unit_type next) ≡ false
  slice_type = below (nal_unit_type next) slice
    where
      below : (k : ℕ) → has_slice_header k ≡ true → leb 6 k ≡ false
      below k h = ground arith

  idr_test :
      (nal_unit_type next ≡ 5 → n.idr_pic_id ≡ t.idr_pic_id)
      → ((nal_unit_type next == 5) && not (n.idr_pic_id == t.idr_pic_id)) ≡ false
  idr_test h = elim (Bool-cases (nal_unit_type next == 5)) [
    | inl idr ↦ rw idr (of_eq n.idr_pic_id t.idr_pic_id (h (==→eq (nal_unit_type next) 5 idr)))
    | inr other ↦ rw other refl
  ]

  same_pic :
      ((nal_unit_type next == 5) && not (n.idr_pic_id == t.idr_pic_id)) ≡ false
      → nal_unit_type next ≡ 5
      → n.idr_pic_id ≡ t.idr_pic_id
  same_pic e idr = eq_of n.idr_pic_id t.idr_pic_id (rw (eq→== (nal_unit_type next) 5 idr) at e)

  tests-SamePicture : tests ≡ false → SamePicture this next t n
  unfolding first_bytes_differ slices_differ
  tests-SamePicture e =
      let (first, slices) = neither e in
      let (level_types, refs) = neither first in
      let (_, types) = neither level_types in
      let (e3, idr) = neither slices in
      let (e2, bottom) = neither e3 in
      let (e1, field) = neither e2 in
      let (frame, parameter) = neither e1 in
      record {
        frame_num_eq = eq_of n.frame_num t.frame_num frame;
        parameter_set_eq = eq_of n.pic_parameter_set_id t.pic_parameter_set_id parameter;
        field_pic_eq = differs-eq n.field_pic_flag t.field_pic_flag field;
        bottom_field_eq = differs-eq n.bottom_field_flag t.bottom_field_flag bottom;
        both_references =
            same_references (nal_ref_idc next) (nal_ref_idc this) (small_ref next) (small_ref this)
              refs;
        both_idr = iff_of (nal_unit_type next) (nal_unit_type this) (differs-eq _ _ types);
        idr_pic_eq = same_pic idr;
      }

  SamePicture-tests : SamePicture this next t n → tests ≡ false
  unfolding first_bytes_differ slices_differ
  SamePicture-tests same =
      both_false
        (both_false
          (both_false slice_type
            (eq-differs _ _ (of_iff (nal_unit_type next) (nal_unit_type this) same.both_idr)))
          (references_same (nal_ref_idc next) (nal_ref_idc this) (small_ref next) (small_ref this)
            same.both_references))
        (both_false
          (both_false
            (both_false
              (both_false (of_eq n.frame_num t.frame_num same.frame_num_eq)
                (of_eq n.pic_parameter_set_id t.pic_parameter_set_id same.parameter_set_eq))
              (eq-differs n.field_pic_flag t.field_pic_flag same.field_pic_eq))
            (eq-differs n.bottom_field_flag t.bottom_field_flag same.bottom_field_eq))
          (idr_test same.idr_pic_eq))

-- Two slices, one behind the other, whose headers can be read: while the end of the stream has not been seen, the first
-- one does not end the access unit exactly when both are of one picture, which is so when their frame numbers, parameter
-- sets and field flags are equal, their reference numbers are equal or both not zero, both or none are IDR slices, and, as
-- such, have one picture ID.
pub ends_access_unit-SamePicture :
    (p : H264VideoStreamParser) (this next : ℕ) (unit next_bytes : List ℕ) (t n : SliceHeader)
    (v v' : BitVector)
    → p.video.stream.have_seen_eof ≡ false
    → has_slice_header (nal_unit_type this) ≡ true
    → has_slice_header (nal_unit_type next) ≡ true
    → analyze_slice_header p unit (nal_unit_type this) ≡ some (t, v)
    → analyze_slice_header p next_bytes (nal_unit_type next) ≡ some (n, v')
    → (ends_access_unit p this unit next next_bytes ≡ some false) ↔ SamePicture this next t n
unfolding ends_access_unit
ends_access_unit-SamePicture p this next unit next_bytes t n v v' running slice slice' e e' = (
  λ h. tests-SamePicture this next t n slice' (some_inj (sym answer ∙ h)),
  λ same. answer ∙ ap (λ b. some b) (SamePicture-tests this next t n slice' same),
)
  where
    vcl_of : (k : ℕ) → has_slice_header k ≡ true → is_vcl k ≡ true
    vcl_of k h = ground arith

    some_inj : {a b : Bool} → some a ≡ some b → a ≡ b
    some_inj h = cc

    after_first :
        (b : Bool)
        → (if b
            then some true
            else (analyze_slice_header p unit (nal_unit_type this) >>= λ t'.
                analyze_slice_header p next_bytes (nal_unit_type next) >>= λ n'.
                some (slices_differ n'.0 t'.0 (nal_unit_type next == 5))))
          ≡ some (b || slices_differ n t (nal_unit_type next == 5))
    after_first true = refl
    after_first false = rw (e, e') refl

    answer : ends_access_unit p this unit next next_bytes ≡ some (tests this next t n slice')
    answer =
        rw (running, vcl_of (nal_unit_type this) slice, slice, slice')
          (after_first (first_bytes_differ this next))
