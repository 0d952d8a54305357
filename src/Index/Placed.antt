-- ===== src/Index/Placed.antt =====
-- Where the loops of `Dump` of src/index.cc place the bitmaps of one map.
use mathlib.Core.Option.{some-injective, none-ne-some}
use high_dimensional_flow_re.Base.{
  ℕ, ◌+◌, ◌^◌, ◌<◌, ◌≡◌, refl, ap, sym, ◌∙◌, true, Option, none, some, List, [], ◌∷◌, ◌++◌,
  append_assoc, arith, length, length-append, All, Bool-cases, inl, inr,
}
use high_dimensional_flow_re.Base.Maps.{Map, find, same}
use high_dimensional_flow_re.Base.Files.{drop, drop-append}
use high_dimensional_flow_re.Base.Seek.{drop-drop}
use high_dimensional_flow_re.Index.Files.{put_sorted}
use high_dimensional_flow_re.Index.Offsets.{find-put_sorted, All-put_sorted}
use high_dimensional_flow_re.Base.Entries.{IsEntry}
use high_dimensional_flow_re.Index.Stored.{Stored, images, offsets_from, IsFound}

module _ {B : Type 0} (st : Stored B) where
  -- At the offset of a psid lies the image of its bitmap.
  unfoldable pub IsPlaced : Map (Option B) → List ℕ → List ℕ × ℕ → Type 0
  IsPlaced all file (psid, offset) =
      (b : B) × (rest : List ℕ) × st.Fits b
      × (find all psid ≡ some (some b))
      × (drop offset file ≡ st.image b ++ rest)
      × (offset < 2 ^ 63)

  pub offsets_from-IsPlaced :
      (all entries : Map (Option B)) (file tail : List ℕ) (offset : ℕ) (m : Map ℕ)
      → All (IsFound st all) entries
      → drop offset file ≡ images st entries ++ tail
      → offset + length (images st entries) < 2 ^ 63
      → All (IsPlaced all file) m
      → All (IsPlaced all file) (offsets_from st entries offset m)
  unfolding IsPlaced
  offsets_from-IsPlaced all [] file tail offset m h e small placed = placed
  offsets_from-IsPlaced all ((psid, none) ∷ entries) file tail offset m h e small placed =
      offsets_from-IsPlaced all entries file tail offset m h.1 e small placed
  offsets_from-IsPlaced all ((psid, some b) ∷ entries) file tail offset m h e small placed =
      let n = length (st.image b) in
      let rest = images st entries ++ tail in
      let whole = length-append (st.image b) (images st entries) in
      let here = e ∙ append_assoc (st.image b) (images st entries) tail in
      offsets_from-IsPlaced all entries file tail (offset + n) (put_sorted m psid offset) h.1
        (sym (drop-drop file offset n) ∙ ap (drop n) here ∙ drop-append n (st.image b) rest refl)
        (omega (arith, small, whole))
        (All-put_sorted (IsPlaced all file) m psid offset placed
          (b, rest, h.0.0, h.0.1, here, omega (arith, small, whole)))

  -- A psid that has an offset keeps one, and one with a bitmap gets one.
  offsets_from-keeps :
      (entries : Map (Option B)) (offset : ℕ) (m : Map ℕ) (psid : List ℕ) (o : ℕ)
      → find m psid ≡ some o
      → (o' : ℕ) × (find (offsets_from st entries offset m) psid ≡ some o')
  offsets_from-keeps [] offset m psid o e = (o, e)
  offsets_from-keeps ((k, none) ∷ entries) offset m psid o e =
      offsets_from-keeps entries offset m psid o e
  offsets_from-keeps ((k, some b) ∷ entries) offset m psid o e =
      let put = find-put_sorted m k psid offset in
      elim (Bool-cases (same k psid)) [
        | inl here ↦
            offsets_from-keeps entries (offset + length (st.image b)) (put_sorted m k offset) psid
              offset (put ∙ rw here refl)
        | inr away ↦
            offsets_from-keeps entries (offset + length (st.image b)) (put_sorted m k offset) psid o
              (put ∙ rw away e)
      ]

  offsets_from-first :
      (entries : Map (Option B)) (offset : ℕ) (m : Map ℕ) (psid k : List ℕ) (v : Option B) (b : B)
      → same k psid ≡ true
      → v ≡ some b
      → (o : ℕ) × (find (offsets_from st ((k, v) ∷ entries) offset m) psid ≡ some o)
  offsets_from-first entries offset m psid k none b here e = absurd (none-ne-some b e)
  offsets_from-first entries offset m psid k (some c) b here e =
      offsets_from-keeps entries (offset + length (st.image c)) (put_sorted m k offset) psid offset
        (find-put_sorted m k psid offset ∙ rw here refl)

  offsets_from-later :
      (entries : Map (Option B)) (offset : ℕ) (m : Map ℕ) (psid k : List ℕ) (v : Option B) (b : B)
      → find entries psid ≡ some (some b)
      → ((offset' : ℕ) (m' : Map ℕ)
          → (o : ℕ) × (find (offsets_from st entries offset' m') psid ≡ some o))
      → (o : ℕ) × (find (offsets_from st ((k, v) ∷ entries) offset m) psid ≡ some o)
  offsets_from-later entries offset m psid k none b e on = on offset m
  offsets_from-later entries offset m psid k (some c) b e on =
      on (offset + length (st.image c)) (put_sorted m k offset)

  pub offsets_from-find :
      (entries : Map (Option B)) (offset : ℕ) (m : Map ℕ) (psid : List ℕ) (b : B)
      → find entries psid ≡ some (some b)
      → (o : ℕ) × (find (offsets_from st entries offset m) psid ≡ some o)
  offsets_from-find [] offset m psid b e = absurd (none-ne-some (some b) e)
  offsets_from-find ((k, v) ∷ entries) offset m psid b e = elim (Bool-cases (same k psid)) [
    | inl here ↦
        let found : find ((k, v) ∷ entries) psid ≡ some v = rw (find, here) refl in
        offsets_from-first entries offset m psid k v b here
          (some-injective v (some b) (sym found ∙ e))
    | inr away ↦
        let passed : find ((k, v) ∷ entries) psid ≡ find entries psid = rw (find, away) refl in
        offsets_from-later entries offset m psid k v b (sym passed ∙ e)
          (λ offset' m'. offsets_from-find entries offset' m' psid b (sym passed ∙ e))
  ]

  -- The key of an entry: fewer than 2^32 bytes.
  abbrev pub IsKey : List ℕ × Option B → Type 0
  IsKey (psid, v) = (length psid < 2 ^ 32) × All (λ c. c < 256) psid

  pub offsets_from-IsEntry :
      (entries : Map (Option B)) (offset : ℕ) (m : Map ℕ)
      → All IsKey entries
      → offset + length (images st entries) < 2 ^ 63
      → All (IsEntry 8) m
      → All (IsEntry 8) (offsets_from st entries offset m)
  offsets_from-IsEntry [] offset m keys small h = h
  offsets_from-IsEntry ((psid, none) ∷ entries) offset m keys small h =
      offsets_from-IsEntry entries offset m keys.1 small h
  offsets_from-IsEntry ((psid, some b) ∷ entries) offset m keys small h =
      let whole = length-append (st.image b) (images st entries) in
      offsets_from-IsEntry entries (offset + length (st.image b)) (put_sorted m psid offset) keys.1
        (omega (arith, small, whole))
        (All-put_sorted (IsEntry 8) m psid offset h
          (keys.0.0, keys.0.1, omega (arith, small, whole)))
