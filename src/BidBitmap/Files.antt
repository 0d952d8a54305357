-- ===== src/BidBitmap/Files.antt =====
-- `Load` and `Dump` of include/bid_bitmap.hpp.
use high_dimensional_flow_re.Base.{
  ℕ, ◌+◌, ◌*◌, ◌^◌, ◌<◌, ◌≡◌, ap, sym, ◌∙◌, Option, some, List, [], ◌∷◌, ◌++◌, append_assoc,
  append-nil, arith, ◌==◌, if◌then◌else◌, ◌>>=◌, length, length-append, All,
}
use high_dimensional_flow_re.Base.Ints.{ℤ, pos, negsuc, add_size, add_size-pos}
use high_dimensional_flow_re.Base.Files.{
  Loaded, and_then, within, append, read_each, push_back, push_all, encode_each,
  read_each-encode_each, length-encode_each,
}
use high_dimensional_flow_re.Bitmap.Valid.{IsValid}
use high_dimensional_flow_re.Bitmap.Files
use high_dimensional_flow_re.BidBitmap.{BidBitmap, clear}

pub push_bid : BidBitmap → ℕ → BidBitmap
push_bid b bid = record b { bids = push_back b.bids bid }

pub load : (ℕ → List ℕ) → BidBitmap → Option (List ℕ) → Loaded BidBitmap
load fresh b file =
    and_then
      (within (λ m. record (clear b) { bitmap = m }) (Files.load fresh (clear b).bitmap file))
      (λ b' rest. read_each 2 push_bid b'.size b' rest)

-- What follows the base class in `Dump`.
pub dump_bids : BidBitmap → ℤ × Option (List ℕ) → ℤ × Option (List ℕ)
dump_bids b (negsuc n, out) = (negsuc n, out)
dump_bids b (pos n, out) = (add_size (pos n) (2 * length b.bids), append (encode_each 2 b.bids) out)

pub dump : BidBitmap → Option (List ℕ) → Option (ℤ × Option (List ℕ))
dump b out = Files.dump b.bitmap out >>= λ written. some (dump_bids b written)

-- A bitmap with bids on disk.
pub bid_image : BidBitmap → List ℕ
bid_image b = Files.image b.bitmap ++ encode_each 2 b.bids

-- What a file can hold: a valid bitmap with a cell, and a bid of 16 bits for each sample.
pub record IsStorable (b : BidBitmap) : Type 0 where
  pub valid : IsValid b.bitmap
  pub header_fits : Files.IsHeader b.header
  pub some_cells : 0 < length b.cells
  pub one_each : length b.bids ≡ b.size
  pub short : All (λ p. p < 2 ^ 16) b.bids

pushed : (b : BidBitmap) (ws : List ℕ) → push_all push_bid b ws ≡ record b { bids = b.bids ++ ws }
unfolding push_bid
pushed b [] = ap (λ xs. record b { bids = xs }) (sym (append-nil b.bids))
pushed b (w ∷ ws) =
    pushed (push_bid b w) ws ∙ ap (λ xs. record b { bids = xs }) (append_assoc b.bids (w ∷ []) ws)

pub load_code : {n : ℕ} → 0 < n → (if n == 0 then pos 1 else pos 0) ≡ pos 0
load_code h = ground arith

module _ (fresh : ℕ → List ℕ) (fresh_length : (n : ℕ) → length (fresh n) ≡ n) where
  -- The base class is read back, and the bids are ahead.
  base :
      (b b' : BidBitmap) (rest : List ℕ)
      → IsStorable b
      → Files.load fresh (clear b').bitmap (some (bid_image b ++ rest))
        ≡ (pos 0, record b.bitmap { threads = b'.threads }, encode_each 2 b.bids ++ rest)
  unfolding bid_image
  base b b' rest s =
      ap (λ file. Files.load fresh (clear b').bitmap (some file))
        (append_assoc (Files.image b.bitmap) (encode_each 2 b.bids) rest)
      ∙ Files.load-image fresh fresh_length b.bitmap (clear b').bitmap
          (encode_each 2 b.bids ++ rest) s.valid s.header_fits
      ∙ ap (λ code. (code, record b.bitmap { threads = b'.threads }, encode_each 2 b.bids ++ rest))
          (load_code s.some_cells)

  -- `Load` reads back what was written of a valid bitmap with a cell and with a bid of 16 bits for
  -- each sample, and leaves the bytes behind it; only the number of threads stays its own. An array
  -- of `n` bytes has `n` bytes, and the numbers of the header fit 32 bits.
  pub load-bid_image :
      (b b' : BidBitmap) (rest : List ℕ)
      → IsStorable b
      → load fresh b' (some (bid_image b ++ rest))
        ≡ (pos 0, record b { bitmap = record b.bitmap { threads = b'.threads } }, rest)
  unfolding load
  load-bid_image b b' rest s =
      let m = record b.bitmap { threads = b'.threads } in
      ap
        (λ l.
          and_then (within (λ m. record (clear b') { bitmap = m }) l)
            (λ b'' rest'. read_each 2 push_bid b''.size b'' rest'))
        (base b b' rest s)
      ∙ ap
          (λ n.
            read_each 2 push_bid n (record { bitmap = m; bids = [] })
              (encode_each 2 b.bids ++ rest))
          (sym s.one_each)
      ∙ read_each-encode_each 2 push_bid (record { bitmap = m; bids = [] }) b.bids rest s.short
      ∙ ap (λ b''. (pos 0, b'', rest)) (pushed (record { bitmap = m; bids = [] }) b.bids)

pub length-bid_image :
    (b : BidBitmap) → length (bid_image b) ≡ 12 + length b.cells + 2 * length b.bids
unfolding bid_image
length-bid_image b = omega (
  arith,
  Files.length-image b.bitmap,
  length-encode_each 2 b.bids,
  length-append (Files.image b.bitmap) (encode_each 2 b.bids),
)

-- The sizes of a file's parts do not wrap.
pub bid_image-short : {b : BidBitmap} → IsStorable b → length (bid_image b) < 2 ^ 40
bid_image-short {b} s = omega (
  arith,
  length-bid_image b,
  s.one_each,
  s.valid.filled,
  s.valid.offsets,
  s.header_fits.size_fits,
)

-- `Dump` appends the bitmap and its bids to the file, and returns their size.
pub dump-bid_image :
    (b : BidBitmap) (out : List ℕ)
    → IsStorable b
    → dump b (some out) ≡ some (pos (length (bid_image b)), some (out ++ bid_image b))
unfolding dump dump_bids bid_image
dump-bid_image b out s =
    let head = Files.length-image b.bitmap in
    let tail = length-encode_each 2 b.bids in
    let whole = length-append (Files.image b.bitmap) (encode_each 2 b.bids) in
    let size : add_size (pos (length (Files.image b.bitmap))) (2 * length b.bids)
        ≡ pos (length (Files.image b.bitmap ++ encode_each 2 b.bids)) =
      add_size-pos (length (Files.image b.bitmap)) (2 * length b.bids)
        (omega (arith, head, s.one_each, s.valid.filled, s.valid.offsets, s.header_fits.size_fits))
      ∙ ap pos (omega (arith, whole, tail)) in
    ap (λ o. o >>= λ written. some (dump_bids b written)) (Files.dump-image b.bitmap out s.valid)
    ∙ ap (λ n. some (n, some (out ++ Files.image b.bitmap ++ encode_each 2 b.bids))) size
    ∙ ap (λ file. some (pos (length (Files.image b.bitmap ++ encode_each 2 b.bids)), some file))
        (append_assoc out (Files.image b.bitmap) (encode_each 2 b.bids))

-- What `Dump` appends of a valid bitmap with a cell and with a bid of 16 bits for each
-- sample, and whose size it returns, `Load` reads back, and
-- leaves the bytes behind it; only the number of threads stays its own. An array of `n` bytes has
-- `n` bytes, and the numbers of the header fit 32 bits.
pub load-dump_bids :
    (fresh : ℕ → List ℕ)
    → ((n : ℕ) → length (fresh n) ≡ n)
    → (b b' : BidBitmap) (out rest : List ℕ) → IsStorable b
    → (bytes : List ℕ) × (dump b (some out) ≡ some (pos (length bytes), some (out ++ bytes)))
      × (load fresh b' (some (bytes ++ rest))
          ≡ (pos 0, record b { bitmap = record b.bitmap { threads = b'.threads } }, rest))
load-dump_bids fresh fresh_length b b' out rest s =
    (bid_image b, dump-bid_image b out s, load-bid_image fresh fresh_length b b' rest s)
