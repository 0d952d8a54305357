-- ===== src/UvMergeBitmap/Files.antt =====
-- `Load` and `Dump` of src/uv_merge_bitmap.cc.
use native.Mathlib.Nat.{mod-eq_of_lt}
use mathlib.Core.Path.{ap₂}
use high_dimensional_flow_re.Base.{
  ℕ, ◌+◌, ◌*◌, ◌^◌, ◌<◌, ◌≡◌, refl, ap, sym, ◌∙◌, Option, none, some, List, [], ◌∷◌, ◌++◌,
  append_assoc, append-nil, arith, ◌>>=◌, u32, length, length-append, All,
}
use high_dimensional_flow_re.Base.Ints.{ℤ, pos, negsuc, add_size, add_size-pos}
use high_dimensional_flow_re.Base.Maps.{Dict, find}
use high_dimensional_flow_re.Base.Files.{
  Loaded, and_then, within, append, push_back, push_all, encode_each, read_each, length-encode_each,
}
use high_dimensional_flow_re.Base.Entries.{
  read_entries, encode_entry, encode_entries, IsEntry, insert_all, read_entries-Reads,
  find-insert_all, length-encode_entry,
}
use high_dimensional_flow_re.Base.Reads.{Reads, Reads-and_then, Reads-each}
use high_dimensional_flow_re.Bitmap
use high_dimensional_flow_re.Bitmap.Files.{IsHeader, image, load-image, dump-image}
use high_dimensional_flow_re.Bitmap.Valid.{IsValid}
use high_dimensional_flow_re.BidBitmap.Files.{load_code}
use high_dimensional_flow_re.UvMergeBitmap.{UvMergeBitmap, clear}

-- The base class, as a part of the whole object.
abbrev pub load_base : (ℕ → List ℕ) → UvMergeBitmap → List ℕ → Loaded UvMergeBitmap
load_base fresh b file =
    within (λ m. record b { bitmap = m }) (Bitmap.Files.load fresh b.bitmap (some file))

abbrev pub push_uv : UvMergeBitmap → ℕ → UvMergeBitmap
push_uv b w = record b { sample_uv = push_back b.sample_uv w }

-- The two loops over the rows.
abbrev pub load_uvs : UvMergeBitmap → List ℕ → Loaded UvMergeBitmap
load_uvs b = read_each 4 push_uv b.height b

abbrev pub load_dict : UvMergeBitmap → List ℕ → Loaded UvMergeBitmap
load_dict b file =
    within (λ r. record b { psid_dict = r.entries })
      (read_entries 4 b.height (record { key = []; entries = b.psid_dict }) file)

-- `fresh n` is what an array of `n` bytes holds before it is written.
pub load : (ℕ → List ℕ) → UvMergeBitmap → Option (List ℕ) → Loaded UvMergeBitmap
load fresh b none = (negsuc 0, clear b, [])
load fresh b (some file) =
    and_then (load_base fresh (clear b) file) (λ b₁ f₁. and_then (load_uvs b₁ f₁) load_dict)

-- The loop over the dictionary.
pub dump_entries : Dict → ℤ × Option (List ℕ) → ℤ × Option (List ℕ)
dump_entries [] written = written
dump_entries ((psid, row) ∷ dict) (file_size, out) =
    dump_entries dict
      (add_size file_size (4 + 4 + u32 (length psid)), append (encode_entry 4 psid row) out)

pub dump_members : UvMergeBitmap → Dict → ℤ × Option (List ℕ) → ℤ × Option (List ℕ)
dump_members b entries (negsuc n, out) = (negsuc n, out)
dump_members b entries (pos n, out) =
    dump_entries entries
      (add_size (pos n) (4 * length b.sample_uv), append (encode_each 4 b.sample_uv) out)

-- `entries` is the dictionary in the order in which its container is passed through.
pub dump : UvMergeBitmap → Dict → Option (List ℕ) → Option (ℤ × Option (List ℕ))
dump b entries out =
    Bitmap.Files.dump b.bitmap out >>= λ written. some (dump_members b entries written)

pub merge_image : UvMergeBitmap → Dict → List ℕ
merge_image b entries = image b.bitmap ++ (encode_each 4 b.sample_uv ++ encode_entries 4 entries)

-- What a file can hold: a valid bitmap with a cell, a number of visitors and an entry for each row,
-- in the order `entries`, which fit their types; the bytes are so few that their count does not
-- wrap.
pub record IsStorable (b : UvMergeBitmap) (entries : Dict) : Type 0 where
  pub valid : IsValid b.bitmap
  pub header_fits : IsHeader b.header
  pub some_cells : 0 < length b.cells
  pub each_row : length b.sample_uv ≡ b.height
  pub uvs_fit : All (λ w. w < 256 ^ 4) b.sample_uv
  pub each_entry : length entries ≡ b.height
  pub entries_fit : All (IsEntry 4) entries
  pub same_entries : (psid : List ℕ) → find entries psid ≡ find b.psid_dict psid
  pub small : length (merge_image b entries) < 2 ^ 63

pub length-merge_image :
    (b : UvMergeBitmap) (entries : Dict)
    → length (merge_image b entries)
      ≡ length (image b.bitmap) + 4 * length b.sample_uv + length (encode_entries 4 entries)
unfolding merge_image
length-merge_image b entries =
    let uvs = encode_each 4 b.sample_uv in
    let dict = encode_entries 4 entries in
    omega (
      arith,
      length-append (image b.bitmap) (uvs ++ dict),
      length-append uvs dict,
      length-encode_each 4 b.sample_uv,
    )

dump_entries-append :
    (entries : Dict) (m : ℕ) (out : List ℕ)
    → All (IsEntry 4) entries
    → m + length (encode_entries 4 entries) < 2 ^ 63
    → dump_entries entries (pos m, some out)
      ≡ (pos (m + length (encode_entries 4 entries)), some (out ++ encode_entries 4 entries))
unfolding dump_entries encode_entries
dump_entries-append [] m out h small =
    ap₂ (λ n o. (pos n, some o)) (omega arith) (sym (append-nil out))
dump_entries-append ((psid, row) ∷ entries) m out h small =
    let more = encode_entries 4 entries in
    let size = length-encode_entry 4 psid row h.0.0 in
    let whole = length-append (encode_entry 4 psid row) more in
    let short : u32 (length psid) ≡ length psid = mod-eq_of_lt h.0.0 in
    let grown : m + (4 + 4 + length psid) + length more
        ≡ m + length (encode_entry 4 psid row ++ more) =
      omega (arith, size, whole) in
    let added : add_size (pos m) (4 + 4 + u32 (length psid)) ≡ pos (m + (4 + 4 + length psid)) =
      rw short (add_size-pos m (4 + 4 + length psid) (omega (arith, small, size, whole))) in
    ap (λ n. dump_entries entries (n, some (out ++ encode_entry 4 psid row))) added
    ∙ dump_entries-append entries (m + (4 + 4 + length psid)) (out ++ encode_entry 4 psid row) h.1
        (omega (arith, small, size, whole))
    ∙ ap₂ (λ n o. (pos n, some o)) grown (append_assoc out (encode_entry 4 psid row) more)

pub dump-merge_image :
    (b : UvMergeBitmap) (entries : Dict) (out : List ℕ)
    → IsStorable b entries
    → dump b entries (some out)
      ≡ some (pos (length (merge_image b entries)), some (out ++ merge_image b entries))
unfolding dump dump_members merge_image
dump-merge_image b entries out s =
    let head = image b.bitmap in
    let uvs = encode_each 4 b.sample_uv in
    let dict = encode_entries 4 entries in
    let long = length-append head (uvs ++ dict) in
    let tail = length-append uvs dict in
    let each = length-encode_each 4 b.sample_uv in
    let added : add_size (pos (length head)) (4 * length b.sample_uv)
        ≡ pos (length head + 4 * length b.sample_uv) =
      add_size-pos (length head) (4 * length b.sample_uv)
        (omega (arith, s.small, long, tail, each)) in
    ap (λ o. o >>= λ written. some (dump_members b entries written))
      (dump-image b.bitmap out s.valid)
    ∙ ap (λ n. some (dump_entries entries (n, some (out ++ head ++ uvs)))) added
    ∙ ap some (
        dump_entries-append entries (length head + 4 * length b.sample_uv) (out ++ head ++ uvs)
          s.entries_fit (omega (arith, s.small, long, tail, each)))
    ∙ ap₂ (λ n o. some (pos n, some o)) (omega (arith, long, tail, each))
        (append_assoc (out ++ head) uvs dict ∙ append_assoc out head (uvs ++ dict))

-- What `Load` makes of it, with the number of threads of another.
abbrev pub reloaded : UvMergeBitmap → Dict → UvMergeBitmap → UvMergeBitmap
reloaded b entries b' = record {
  bitmap = record b.bitmap { threads = b'.threads };
  sample_uv = b.sample_uv;
  psid_dict = insert_all 4 [] entries;
}

pushed :
    (b : UvMergeBitmap) (ws : List ℕ)
    → push_all push_uv b ws ≡ record b { sample_uv = b.sample_uv ++ ws }
pushed b [] = ap (λ xs. record b { sample_uv = xs }) (sym (append-nil b.sample_uv))
pushed b (w ∷ ws) =
    pushed (push_uv b w) ws
    ∙ ap (λ xs. record b { sample_uv = xs }) (append_assoc b.sample_uv (w ∷ []) ws)

module _ (fresh : ℕ → List ℕ) (fresh_length : (n : ℕ) → length (fresh n) ≡ n) where
  pub load-merge_image :
      (b b' : UvMergeBitmap) (entries : Dict)
      → IsStorable b entries
      → Reads
          (λ c file. load fresh c (some file))
          b'
          (merge_image b entries)
          (reloaded b entries b')
  unfolding load merge_image
  load-merge_image b b' entries s =
      let start = clear b' in
      let based = record start { bitmap = record b.bitmap { threads = b'.threads } } in
      let counted = record based { sample_uv = b.sample_uv } in
      let base : Reads (load_base fresh) start (image b.bitmap) based = λ r.
        ap (within (λ m. record start { bitmap = m })) (
          load-image fresh fresh_length b.bitmap start.bitmap r s.valid s.header_fits
          ∙ ap (λ code. (code, based.bitmap, r)) (load_code s.some_cells)) in
      let uvs : Reads load_uvs based (encode_each 4 b.sample_uv) counted = λ r.
        Reads-each 4 push_uv based b.sample_uv b.height s.each_row s.uvs_fit r
        ∙ ap (λ c. (pos 0, c, r)) (pushed based b.sample_uv) in
      let dict : Reads load_dict counted (encode_entries 4 entries) (reloaded b entries b') = λ r.
        ap
          (λ n.
            within (λ t. record counted { psid_dict = t.entries })
              (read_entries 4 n (record { key = []; entries = [] })
                (encode_entries 4 entries ++ r)))
          (sym s.each_entry)
        ∙ ap (within (λ t. record counted { psid_dict = t.entries }))
            (read_entries-Reads 4 entries (record { key = []; entries = [] }) s.entries_fit r) in
      Reads-and_then (load_base fresh) (λ b₁ f₁. and_then (load_uvs b₁ f₁) load_dict)
        (image b.bitmap) (encode_each 4 b.sample_uv ++ encode_entries 4 entries) base
        (Reads-and_then load_uvs load_dict (encode_each 4 b.sample_uv) (encode_entries 4 entries)
          uvs dict)

-- What `Dump` appends of an object, and whose size it returns, `Load` reads back, and leaves the
-- bytes behind it: the bitmap but for its number of threads, the numbers of visitors, and a
-- dictionary that finds the same, in whatever order it was written. The object has a valid bitmap of
-- a cell, a number and an entry for each row, and fits the file.
pub load-dump_merge :
    (fresh : ℕ → List ℕ)
    → ((n : ℕ) → length (fresh n) ≡ n)
    → (b b' : UvMergeBitmap) (entries : Dict) (out rest : List ℕ) → IsStorable b entries
    → (bytes : List ℕ) × (loaded : UvMergeBitmap) × (dump b entries (some out)
        ≡ some (pos (length bytes), some (out ++ bytes)))
      × (load fresh b' (some (bytes ++ rest)) ≡ (pos 0, loaded, rest))
      × (loaded.bitmap ≡ record b.bitmap { threads = b'.threads })
      × (loaded.sample_uv ≡ b.sample_uv)
      × ((psid : List ℕ) → find loaded.psid_dict psid ≡ find b.psid_dict psid)
load-dump_merge fresh fresh_length b b' entries out rest s = (
  merge_image b entries,
  reloaded b entries b',
  dump-merge_image b entries out s,
  load-merge_image fresh fresh_length b b' entries s rest,
  refl,
  refl,
  λ psid. find-insert_all 4 [] entries psid ∙ s.same_entries psid,
)
