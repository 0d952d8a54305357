-- ===== src/RequestHandler/Groups.antt =====
-- `GetTarget` of src/request_handler.cc: the mask of the samples that have a target of every group.
use native.Mathlib.Nat.{zero-add}
use high_dimensional_flow_re.Base.{
  ℕ, ◌-◌, ◌*◌, ◌/◌, ◌%◌, ◌≤◌, ◌<◌, ◌≡◌, ◌≢◌, inl, inr, refl, ◌∙◌, Bool, true, ◌&&◌, Option, some,
  List, [], ◌∷◌, arith, if◌then◌else◌, ◌>>=◌, length, get_or, All, all_below, all_lists_below,
}
use high_dimensional_flow_re.Base.Bits.{bit_ones}
use high_dimensional_flow_re.Base.Bytes.{IsByte}
use high_dimensional_flow_re.Bitmap.{Bitmap, row, at}
use high_dimensional_flow_re.Bitmap.Mask.{mask_bit}
use high_dimensional_flow_re.Bitmap.Valid.{IsValid}
use high_dimensional_flow_re.RequestHandler.{
  compute_buffer_size, ptr1, ptr2, first_group, and_group, more_groups, get_target, memset, fill,
}
use high_dimensional_flow_re.RequestHandler.Fill.{length-fill, All-fill, fill-inside}
use high_dimensional_flow_re.RequestHandler.Target.{
  has, has_any, has_each, Writes, row-Shows, or-Writes, and-Writes, or_rows-Writes,
}

-- `GetTarget`, or a part of it, has returned with a mask of the columns of `f` at the front of the
-- buffer.
pub record Selects (b : Bitmap) (f : ℕ → Bool) (buf : List ℕ) (result : Option (List ℕ))
    : Type 0 where
  pub out : List ℕ
  pub returns : result ≡ some out
  pub same_length : length out ≡ length buf
  pub bytes : All IsByte out
  pub selected : (c : ℕ) → c < 8 * b.width → mask_bit out c ≡ (if f c then 1 else 0)

-- The compute buffer: two halves, each with room for a row.
pub record IsBuffer (b : Bitmap) (buf : List ℕ) : Type 0 where
  pub halves : length buf ≡ compute_buffer_size * 2
  pub row_fits : b.width ≤ compute_buffer_size
  pub bytes : All IsByte buf

-- Every group has a target, and every target is a row of the bitmap.
abbrev pub NoneEmpty : List (List ℕ) → Type 0
NoneEmpty [] = Unit {0}
NoneEmpty (g ∷ gs) = (g ≢ []) × NoneEmpty gs

Writes-Selects :
    {b : Bitmap} {f : ℕ → Bool} {buf : List ℕ} {result : Option (List ℕ)}
    → Writes b ptr1 f buf result
    → Selects b f buf result
Writes-Selects w = record {
  out = w.out;
  returns = w.returns;
  same_length = w.same_length;
  bytes = w.bytes;
  selected = λ c hc. rw zero-add at (w.shows c hc);
}

Selects_ext :
    {b : Bitmap} {f g : ℕ → Bool} {buf : List ℕ} {result : Option (List ℕ)}
    → ((c : ℕ) → f c ≡ g c)
    → Selects b f buf result
    → Selects b g buf result
Selects_ext e s = record {
  out = s.out;
  returns = s.returns;
  same_length = s.same_length;
  bytes = s.bytes;
  selected = λ c hc. rw (← e c) (s.selected c hc);
}

Selects-seq :
    {b : Bitmap} {f g h : ℕ → Bool} {buf : List ℕ} {m : Option (List ℕ)}
    (k : List ℕ → Option (List ℕ)) (first : Selects b f buf m)
    → Selects b g first.out (k first.out)
    → ((c : ℕ) → g c ≡ h c)
    → Selects b h buf (m >>= k)
Selects-seq k first rest e = record {
  out = rest.out;
  returns = rw first.returns rest.returns;
  same_length = rest.same_length ∙ first.same_length;
  bytes = rest.bytes;
  selected = λ c hc. rw (← e c) (rest.selected c hc);
}

pub IsBuffer-same :
    {b : Bitmap} {buf out : List ℕ}
    → length out ≡ length buf
    → All IsByte out
    → IsBuffer b buf
    → IsBuffer b out
IsBuffer-same e bytes room = record {
  halves = e ∙ room.halves;
  row_fits = room.row_fits;
  bytes = bytes;
}

module _ {b : Bitmap} (v : IsValid b) where
  pub first_group-Selects :
      (g buf : List ℕ)
      → g ≢ []
      → all_below b.height g ≡ true
      → IsBuffer b buf
      → Selects b (has_any b g) buf (first_group b g buf)
  unfolding first_group
  first_group-Selects [] buf some_target below room = absurd (some_target refl)
  first_group-Selects (t ∷ []) buf some_target below room =
      let w =
        or-Writes v (row t) (row t) ptr1 buf (has b t) (has b t) tt tt (ground arith) (ground arith)
          (omega arith) room.bytes (row-Shows b buf t) (row-Shows b buf t) in
      Selects_ext (λ c. ground arith) (Writes-Selects w)
  first_group-Selects (t ∷ u ∷ ts) buf some_target below room =
      Writes-Selects (or_rows-Writes v ptr1 t u ts buf below (omega arith) room.bytes)

  and_group-Selects :
      (g buf : List ℕ) (f : ℕ → Bool)
      → g ≢ []
      → all_below b.height g ≡ true
      → IsBuffer b buf
      → ((c : ℕ) → c < 8 * b.width → mask_bit buf c ≡ (if f c then 1 else 0))
      → Selects b (λ c. f c && has_any b g c) buf (and_group b g buf)
  unfolding and_group
  and_group-Selects [] buf f some_target below room selected = absurd (some_target refl)
  and_group-Selects (t ∷ []) buf f some_target below room selected =
      let w =
        and-Writes v (row t) (at ptr1) ptr1 buf (has b t) f tt (inl refl) (ground arith)
          (omega arith) (omega arith) room.bytes (row-Shows b buf t)
          (λ c hc. rw zero-add (selected c hc)) in
      Selects_ext (λ c. ground arith) (Writes-Selects w)
  and_group-Selects (t ∷ u ∷ ts) buf f some_target below room selected =
      let w = or_rows-Writes v ptr2 t u ts buf below (omega arith) room.bytes in
      let both =
        and-Writes v (at ptr1) (at ptr2) ptr1 w.out f (has_any b (t ∷ u ∷ ts)) (inl refl)
          (inr (inr (omega arith))) (omega (arith, w.same_length)) (omega (arith, w.same_length))
          (omega (arith, w.same_length)) w.bytes
          (w.keeps ptr1 f (inl (omega arith)) (λ c hc. rw zero-add (selected c hc))) w.shows in
      let done = Writes-Selects both in
      record {
        out = done.out;
        returns = rw w.returns done.returns;
        same_length = done.same_length ∙ w.same_length;
        bytes = done.bytes;
        selected = done.selected;
      }

  more_groups-Selects :
      (gs : List (List ℕ)) (buf : List ℕ) (f : ℕ → Bool)
      → NoneEmpty gs
      → all_lists_below b.height gs ≡ true
      → IsBuffer b buf
      → ((c : ℕ) → c < 8 * b.width → mask_bit buf c ≡ (if f c then 1 else 0))
      → Selects b (λ c. f c && has_each b gs c) buf (more_groups b gs buf)
  unfolding more_groups
  more_groups-Selects [] buf f filled below room selected = record {
    out = buf;
    returns = refl;
    same_length = refl;
    bytes = room.bytes;
    selected = λ c hc. ground (arith, selected c hc);
  }
  more_groups-Selects (g ∷ gs) buf f filled below room selected =
      let here = and_group-Selects g buf f filled.0 (ground arith) room selected in
      Selects-seq (more_groups b gs) here
        (more_groups-Selects gs here.out (λ c. f c && has_any b g c) filled.1 (ground arith)
          (IsBuffer-same here.same_length here.bytes room) here.selected)
        (λ c. ground arith)

  -- With no group every column is selected, those behind the samples too.
  memset-Selects :
      (buf : List ℕ) → IsBuffer b buf → Selects b (λ c. true) buf (memset 0xff b.width buf)
  unfolding memset
  memset-Selects buf room = record {
    out = fill 0xff 0 b.width buf;
    returns = ground (arith, room.halves, room.row_fits);
    same_length = length-fill 0xff 0 b.width buf;
    bytes = All-fill 0xff 0 b.width buf (omega arith) room.bytes;
    selected = λ c hc.
        let filled : get_or (fill 0xff 0 b.width buf) (c / 8) 0 ≡ 0xff =
          fill-inside 0xff 0 b.width buf (c / 8) (omega arith) (omega arith)
            (omega (arith, room.halves, room.row_fits)) in
        rw filled (bit_ones 8 (7 - c % 8) (omega arith));
  }

  -- On a valid bitmap, `GetTarget` returns, and leaves at the front of the compute buffer the mask
  -- of the columns that have a target of every group. The groups hold rows of the bitmap and none
  -- is empty, and the buffer has its full length and room for a row in each half.
  pub get_target-Selects :
      (groups : List (List ℕ)) (buf : List ℕ)
      → NoneEmpty groups
      → all_lists_below b.height groups ≡ true
      → IsBuffer b buf
      → Selects b (has_each b groups) buf (get_target b groups buf)
  unfolding get_target
  get_target-Selects [] buf filled below room = memset-Selects buf room
  get_target-Selects (g ∷ gs) buf filled below room =
      let first = first_group-Selects g buf filled.0 (ground arith) room in
      Selects-seq (more_groups b gs) first
        (more_groups-Selects gs first.out (has_any b g) filled.1 (ground arith)
          (IsBuffer-same first.same_length first.bytes room) first.selected)
        (λ c. refl)
