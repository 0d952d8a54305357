-- ===== src/Index/Stored.antt =====
-- The loops of `Dump` of src/index.cc over the bitmaps of one map: what they write.
use mathlib.Core.Path.{ap₂}
use high_dimensional_flow_re.Base.{
  ℕ, ◌+◌, ◌%◌, ◌^◌, ◌<◌, ◌≡◌, ap, sym, ◌∙◌, Option, none, some, List, [], ◌∷◌, ◌++◌, append_assoc,
  append-nil, arith, ◌>>=◌, u64, length, length-append, All,
}
use high_dimensional_flow_re.Base.Ints.{ℤ, pos}
use high_dimensional_flow_re.Base.Maps.{Map, find}
use high_dimensional_flow_re.Base.Files.{Loaded}
use high_dimensional_flow_re.Index.Files.{dumped, put_sorted, dump_each}

-- A kind of bitmap with its files: what `Dump` appends, what is loaded of it, and which objects fit.
pub record Stored (B : Type 0) : Type 1 where
  pub dump : B → Option (List ℕ) → Option (ℤ × Option (List ℕ))
  pub load : List ℕ → Loaded B
  pub image : B → List ℕ
  pub loaded : B → B
  pub Fits : B → Type 0
  pub dumps :
      (b : B) (out : List ℕ)
      → Fits b
      → dump b (some out) ≡ some (pos (length (image b)), some (out ++ image b))
  pub loads : (b : B) (rest : List ℕ) → Fits b → load (image b ++ rest) ≡ (pos 0, loaded b, rest)

module _ {B : Type 0} (st : Stored B) where
  abbrev pub images : Map (Option B) → List ℕ
  images [] = []
  images ((psid, none) ∷ entries) = images entries
  images ((psid, some b) ∷ entries) = st.image b ++ images entries

  abbrev pub offsets_from : Map (Option B) → ℕ → Map ℕ → Map ℕ
  offsets_from [] offset m = m
  offsets_from ((psid, none) ∷ entries) offset m = offsets_from entries offset m
  offsets_from ((psid, some b) ∷ entries) offset m =
      offsets_from entries (offset + length (st.image b)) (put_sorted m psid offset)

  -- The bitmap of an entry fits, and its psid finds it in all the entries.
  abbrev pub IsFound : Map (Option B) → List ℕ × Option B → Type 0
  IsFound all (psid, none) = Unit {0}
  IsFound all (psid, some b) = st.Fits b × (find all psid ≡ some (some b))

  grow : (offset n : ℕ) → offset + n < 2 ^ 63 → u64 (offset + n % 2 ^ 64) ≡ offset + n
  grow offset n h = ground arith

  pub dump_each-images :
      (all entries : Map (Option B)) (offset : ℕ) (m : Map ℕ) (out : List ℕ)
      → All (IsFound all) entries
      → offset + length (images entries) < 2 ^ 63
      → dump_each st.dump entries (record { offset = offset; offset_map = m; out = some out })
        ≡ some (record {
          offset = offset + length (images entries);
          offset_map = offsets_from entries offset m;
          out = some (out ++ images entries);
        })
  unfolding dump_each
  dump_each-images all [] offset m out h small =
      ap₂ (λ n o. some (record { offset = n; offset_map = m; out = some o })) (omega arith)
        (sym (append-nil out))
  dump_each-images all ((psid, none) ∷ entries) offset m out h small =
      dump_each-images all entries offset m out h.1 small
  dump_each-images all ((psid, some b) ∷ entries) offset m out h small =
      let n = length (st.image b) in
      let rest = images entries in
      let whole = length-append (st.image b) rest in
      ap
        (λ o. o >>= λ written.
          dump_each st.dump entries
            (dumped (record { offset = offset; offset_map = m; out = some out }) psid written))
        (st.dumps b out h.0.0)
      ∙ ap
          (λ k. dump_each st.dump entries (record {
            offset = k;
            offset_map = put_sorted m psid offset;
            out = some (out ++ st.image b);
          }))
          (grow offset n (omega (arith, small, whole)))
      ∙ dump_each-images all entries (offset + n) (put_sorted m psid offset) (out ++ st.image b) h.1
          (omega (arith, small, whole))
      ∙ ap₂
          (λ k o. some (record {
            offset = k;
            offset_map = offsets_from entries (offset + n) (put_sorted m psid offset);
            out = some o;
          }))
          (omega (arith, whole)) (append_assoc out (st.image b) rest)
