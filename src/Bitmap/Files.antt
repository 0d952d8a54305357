-- ===== src/Bitmap/Files.antt =====
-- `Load` and `Dump` of common/bitmap.hpp. A file is the list of its bytes: those ahead where it is
-- read, those so far where it is written; `none` is a null `FILE*`.
use native.Mathlib.Nat.{mod-eq_of_lt}
use high_dimensional_flow_re.Base.{
  ℕ, ◌+◌, ◌*◌, ◌^◌, ◌<◌, ◌≡◌, refl, ap, sym, ◌∙◌, Option, none, some, List, [], ◌++◌, append_assoc,
  arith, leb, ◌==◌, if◌then◌else◌, u32, u64, length, length-append,
}
use high_dimensional_flow_re.Base.Ints.{ℤ, pos, negsuc, int64}
use high_dimensional_flow_re.Base.Files.{
  encode, decode, take, drop, read_bytes, Loaded, length-encode, decode-encode, read_bytes-append,
  take-append, take-all, drop-append,
}
use high_dimensional_flow_re.Bitmap.{Header, Bitmap, clear}
use high_dimensional_flow_re.Bitmap.Valid.{IsValid}

-- The bytes of the struct: three unsigned numbers of 32 bits.
pub encode_header : Header → List ℕ
encode_header h = encode 4 h.width ++ (encode 4 h.size ++ encode 4 h.height)

pub decode_header : List ℕ → Header
decode_header buf = record {
  width = decode (take 4 buf);
  size = decode (take 4 (drop 4 buf));
  height = decode (take 4 (drop 4 (drop 4 buf)));
}

-- After the `fread` of the cells.
pub store_cells : Bitmap → ℕ × List ℕ × List ℕ → Loaded Bitmap
store_cells b (count, cells, rest) =
    (if count == 0 then pos 1 else pos 0, record b { cells = cells }, rest)

-- After the `fread` of the header. `fresh n` is what an array of `n` bytes holds before it is
-- written.
pub store_header : (ℕ → List ℕ) → Bitmap → ℕ × List ℕ × List ℕ → Loaded Bitmap
store_header fresh b (got, buf, rest) =
    let b' = record b { header = decode_header buf } in
    if got == 12
    then store_cells b' (read_bytes (fresh (u32 (b'.width * b'.height))) rest)
    else (pos 1, b', rest)

pub load : (ℕ → List ℕ) → Bitmap → Option (List ℕ) → Loaded Bitmap
load fresh b none = (negsuc 0, clear b, [])
load fresh b (some file) =
    store_header fresh (clear b) (read_bytes (encode_header (clear b).header) file)

-- The size in bytes, and the file. `none` of the result is a read outside the cells.
pub dump : Bitmap → Option (List ℕ) → Option (ℤ × Option (List ℕ))
dump b none = some (negsuc 0, none)
dump b (some out) =
    let size = u32 (b.width * b.height) in
    if leb size (length b.cells)
    then some (
      int64 (u64 (12 + b.width * b.height)),
      some (out ++ (encode_header b.header ++ take size b.cells)),
    )
    else none

-- A bitmap on disk: its header, and its cells.
pub image : Bitmap → List ℕ
image b = encode_header b.header ++ b.cells

length-encode_header : (h : Header) → length (encode_header h) ≡ 12
unfolding encode_header
length-encode_header h = omega (
  arith,
  length-append (encode 4 h.width) (encode 4 h.size ++ encode 4 h.height),
  length-append (encode 4 h.size) (encode 4 h.height),
  length-encode 4 h.width,
  length-encode 4 h.size,
  length-encode 4 h.height,
)

-- The numbers of a header fit 32 bits.
pub record IsHeader (h : Header) : Type 0 where
  pub width_fits : h.width < 2 ^ 32
  pub size_fits : h.size < 2 ^ 32
  pub height_fits : h.height < 2 ^ 32

take_word : (w : ℕ) (rest : List ℕ) → w < 2 ^ 32 → decode (take 4 (encode 4 w ++ rest)) ≡ w
take_word w rest h =
    ap decode (take-append 4 (encode 4 w) rest (length-encode 4 w)) ∙ decode-encode 4 w h

decode_header-encode_header : (h : Header) → IsHeader h → decode_header (encode_header h) ≡ h
unfolding decode_header encode_header
decode_header-encode_header h v =
    let size_on = encode 4 h.size ++ encode 4 h.height in
    let from_size : drop 4 (encode 4 h.width ++ size_on) ≡ size_on =
      drop-append 4 (encode 4 h.width) size_on (length-encode 4 h.width) in
    let from_height : drop 4 size_on ≡ encode 4 h.height =
      drop-append 4 (encode 4 h.size) (encode 4 h.height) (length-encode 4 h.size) in
    let width_is = take_word h.width size_on v.width_fits in
    let size_is = take_word h.size (encode 4 h.height) v.size_fits in
    let height_is =
      ap decode (take-all 4 (encode 4 h.height) (length-encode 4 h.height))
      ∙ decode-encode 4 h.height v.height_fits in
    rw (from_size, from_height, width_is, size_is, height_is) refl

module _ (fresh : ℕ → List ℕ) (fresh_length : (n : ℕ) → length (fresh n) ≡ n) where
  stored :
      (c : Bitmap) (h : Header) (cells rest : List ℕ)
      → IsHeader h
      → length cells ≡ u32 (h.width * h.height)
      → store_header fresh c (12, encode_header h, cells ++ rest)
        ≡ (if length cells == 0 then pos 1 else pos 0, record c { header = h; cells = cells }, rest)
  unfolding store_header store_cells
  stored c h cells rest v filled =
      let read =
        read_bytes-append (fresh (u32 (h.width * h.height))) cells rest
          (fresh_length (u32 (h.width * h.height)) ∙ sym filled) in
      rw (decode_header-encode_header h v) (ap (store_cells (record c { header = h })) read)

  -- `Load` reads back the header and the cells of a valid bitmap that were written, and leaves the
  -- bytes behind them; it returns 0, but 1 for a bitmap without cells. An array of `n` bytes has
  -- `n` bytes, and the numbers of the header fit 32 bits.
  pub load-image :
      (b b' : Bitmap) (rest : List ℕ)
      → IsValid b
      → IsHeader b.header
      → load fresh b' (some (image b ++ rest)) ≡ (
        if length b.cells == 0 then pos 1 else pos 0,
        record b' { header = b.header; cells = b.cells },
        rest,
      )
  unfolding load image
  load-image b b' rest v h =
      ap (λ file. store_header fresh (clear b') (read_bytes (encode_header (clear b').header) file))
        (append_assoc (encode_header b.header) b.cells rest)
      ∙ ap (store_header fresh (clear b')) (
          read_bytes-append (encode_header (clear b').header) (encode_header b.header)
            (b.cells ++ rest)
            (length-encode_header (clear b').header ∙ sym (length-encode_header b.header)))
      ∙ ap (λ n. store_header fresh (clear b') (n, encode_header b.header, b.cells ++ rest))
          (length-encode_header b.header)
      ∙ stored (clear b') b.header b.cells rest h (v.filled ∙ sym (mod-eq_of_lt v.offsets))

pub length-image : (b : Bitmap) → length (image b) ≡ 12 + length b.cells
unfolding image
length-image b =
    omega (arith, length-append (encode_header b.header) b.cells, length-encode_header b.header)

-- `Dump` of a valid bitmap appends its header and its cells to the file, and returns their size.
pub dump-image :
    (b : Bitmap) (out : List ℕ)
    → IsValid b
    → dump b (some out) ≡ some (pos (length (image b)), some (out ++ image b))
unfolding dump image
dump-image b out v =
    let no_wrap : u32 (b.width * b.height) ≡ length b.cells =
      mod-eq_of_lt v.offsets ∙ sym v.filled in
    let whole = take-all (length b.cells) b.cells refl in
    let size = length-append (encode_header b.header) b.cells in
    let head = length-encode_header b.header in
    rw (no_wrap, whole, size, head) (ground (arith, v.filled, v.offsets))

-- What `Dump` appends of a valid bitmap, whose size it returns, `Load` reads back, and leaves the
-- bytes behind it; `Load` returns 0, but 1 for a bitmap without cells. An array of `n` bytes has `n`
-- bytes, and the numbers of the header fit 32 bits.
pub load-dump_cells :
    (fresh : ℕ → List ℕ)
    → ((n : ℕ) → length (fresh n) ≡ n)
    → (b b' : Bitmap) (out rest : List ℕ) → IsValid b
    → IsHeader b.header
    → (bytes : List ℕ) × (dump b (some out) ≡ some (pos (length bytes), some (out ++ bytes)))
      × (load fresh b' (some (bytes ++ rest)) ≡ (
        if length b.cells == 0 then pos 1 else pos 0,
        record b' { header = b.header; cells = b.cells },
        rest,
      ))
load-dump_cells fresh fresh_length b b' out rest v h =
    (image b, dump-image b out v, load-image fresh fresh_length b b' rest v h)
