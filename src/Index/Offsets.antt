-- ===== src/Index/Offsets.antt =====
-- The maps of offsets of src/index.cc: what `LoadOffsetMap` reads of what `DumpOffsetMap` writes.
use native.Mathlib.Nat.{mod-eq_of_lt}
use high_dimensional_flow_re.Base.{
  ℕ, ◌+◌, ◌^◌, ◌≤◌, ◌<◌, ◌≡◌, ap, ◌∙◌, Option, none, some, List, [], ◌∷◌, ◌++◌, append_assoc, arith,
  if◌then◌else◌, u32, length, length-append, All, Bool-cases, inl, inr,
}
use high_dimensional_flow_re.Base.Ints.{pos, add_size, add_size-pos}
use high_dimensional_flow_re.Base.Maps.{Map, find, same, same_sound, insert_new, insert_found}
use high_dimensional_flow_re.Base.Files.{encode, read_word-encode, length-encode}
use high_dimensional_flow_re.Base.Entries.{
  encode_entry, encode_entries, IsEntry, insert_all, last_key, read_entries-Reads, find-insert_all,
  length-encode_entry,
}
use high_dimensional_flow_re.Index.Files.{
  before, put_sorted, offset_bytes, entries_size, load_counted, load_offset_map,
}

pub find-put_sorted :
    (m : Map ℕ) (key other : List ℕ) (v : ℕ)
    → find (put_sorted m key v) other ≡ (if same key other then some v else find m other)
unfolding put_sorted
find-put_sorted [] key other v = ground arith
find-put_sorted ((k, w) ∷ m) key other v = elim (Bool-cases (same k key)) [
  | inl here ↦ rw (← same_sound k key here) (ground (arith, here, same_sound k key here))
  | inr away ↦ elim (Bool-cases (same key other)) [
    | inl found ↦
        rw (← same_sound key other found)
          (ground (arith, away, find-put_sorted m key key v, same_sound key other found))
    | inr missing ↦ ground (arith, away, missing, find-put_sorted m key other v)
  ]
]

module _ (P : List ℕ × ℕ → Type 0) where
  pub All-put_sorted :
      (m : Map ℕ) (key : List ℕ) (v : ℕ) → All P m → P (key, v) → All P (put_sorted m key v)
  unfolding put_sorted
  All-put_sorted [] key v h p = (p, tt)
  All-put_sorted ((k, w) ∷ m) key v h p = elim (Bool-cases (same k key)) [
    | inl here ↦ rw (put_sorted, here) (rw (same_sound k key here) (p, h.1))
    | inr away ↦ elim (Bool-cases (before key k)) [
      | inl early ↦ rw (put_sorted, away, early) (p, h)
      | inr late ↦ rw (put_sorted, away, late) (h.0, All-put_sorted m key v h.1 p)
    ]
  ]

  All-push : (m : Map ℕ) (e : List ℕ × ℕ) → All P m → P e → All P (m ++ (e ∷ []))
  All-push [] e h p = (p, tt)
  All-push (x ∷ m) e h p = (h.0, All-push m e h.1 p)

  All-insert_found :
      (m : Map ℕ) (key : List ℕ) (v : ℕ) (o : Option ℕ)
      → All P m
      → P (key, v)
      → All P (insert_found m key v o)
  All-insert_found m key v none h p = All-push m (key, v) h p
  All-insert_found m key v (some w) h p = h

  pub All-insert_all : (m more : Map ℕ) → All P m → All P more → All P (insert_all 8 m more)
  All-insert_all m [] h h' = h
  All-insert_all m ((key, v) ∷ more) h h' =
      All-insert_all (insert_new m key v) more (All-insert_found m key v (find m key) h h'.0) h'.1

-- The map that is read back from the bytes of a map.
abbrev pub reread : Map ℕ → Map ℕ
reread m = insert_all 8 [] m

pub find-reread : (m : Map ℕ) (key : List ℕ) → find (reread m) key ≡ find m key
find-reread m key = find-insert_all 8 [] m key

pub load_offset_map-offset_bytes :
    (m : Map ℕ) (rest : List ℕ)
    → length m < 2 ^ 32
    → All (IsEntry 8) m
    → load_offset_map (offset_bytes m ++ rest)
      ≡ (pos 0, record { key = last_key 8 [] m; entries = reread m }, rest)
unfolding load_offset_map offset_bytes
load_offset_map-offset_bytes m rest few fits =
    let short : u32 (length m) ≡ length m = mod-eq_of_lt few in
    let next = encode_entries 8 m ++ rest in
    ap (λ n. load_offset_map (encode 4 n ++ encode_entries 8 m ++ rest)) short
    ∙ ap load_offset_map (append_assoc (encode 4 (length m)) (encode_entries 8 m) rest)
    ∙ ap load_counted (read_word-encode 4 0 (length m) next few)
    ∙ read_entries-Reads 8 m (record { key = []; entries = [] }) fits rest

pub length-offset_bytes : (m : Map ℕ) → length (offset_bytes m) ≡ 4 + length (encode_entries 8 m)
unfolding offset_bytes
length-offset_bytes m = omega (
  arith,
  length-append (encode 4 (u32 (length m))) (encode_entries 8 m),
  length-encode 4 (u32 (length m)),
)

-- An entry takes a byte at least.
pub entries-few : (m : Map ℕ) → All (IsEntry 8) m → length m ≤ length (encode_entries 8 m)
unfolding encode_entries
entries-few [] fits = omega arith
entries-few ((key, offset) ∷ m) fits = omega (
  arith,
  length-encode_entry 8 key offset fits.0.0,
  length-append (encode_entry 8 key offset) (encode_entries 8 m),
  entries-few m fits.1,
)

-- The size that is returned is that of the bytes, where it does not wrap.
pub entries_size-length :
    (m : Map ℕ) (n : ℕ)
    → All (IsEntry 8) m
    → n + length (encode_entries 8 m) < 2 ^ 63
    → entries_size (pos n) m ≡ pos (n + length (encode_entries 8 m))
unfolding entries_size encode_entries
entries_size-length [] n fits small = ap pos (omega arith)
entries_size-length ((key, offset) ∷ m) n fits small =
    let more = encode_entries 8 m in
    let size = length-encode_entry 8 key offset fits.0.0 in
    let whole = length-append (encode_entry 8 key offset) more in
    let short : u32 (length key) ≡ length key = mod-eq_of_lt fits.0.0 in
    let added : add_size (pos n) (4 + u32 (length key) + 8) ≡ pos (n + (4 + length key + 8)) =
      rw short (add_size-pos n (4 + length key + 8) (omega (arith, small, size, whole))) in
    ap (λ s. entries_size s m) added
    ∙ entries_size-length m (n + (4 + length key + 8)) fits.1 (omega (arith, small, size, whole))
    ∙ ap pos (omega (arith, size, whole))
