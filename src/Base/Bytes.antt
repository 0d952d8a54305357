-- ===== src/Base/Bytes.antt =====
-- Little-endian words in byte arrays: what the casts of a byte pointer to `uint64_t*` read and
-- write, and how `fread` and `fwrite` lay out an integer.
use Prim.Native.Nat.{ℕ, zero, suc, ◌+◌, ◌*◌, ◌/◌, ◌%◌, ◌≤◌, ◌<◌}
use mathlib.Core.Path.{◌≡◌, refl, ◌∙◌}
use mathlib.Core.Logic.{◌⊎◌}
use mathlib.Core.List.{List}
use native.Mathlib.Omega.{arith}
use high_dimensional_flow_re.Base.Lists.{
  length, get_or, set, length-set, get_or-set_self, get_or-set_ne, All, All-set,
}
use high_dimensional_flow_re.Base.Bits.{byte}

abbrev pub IsByte : ℕ → Type 0
IsByte x = x < 256

-- The word whose `n` bytes stand at `off`.
pub load_word : ℕ → List ℕ → ℕ → ℕ
load_word zero buf off = 0
load_word (suc n) buf off = get_or buf off 0 + 256 * load_word n buf (off + 1)

-- The array with the `n` low bytes of a word written at `off`.
pub store_word : ℕ → List ℕ → ℕ → ℕ → List ℕ
store_word zero buf off w = buf
store_word (suc n) buf off w = store_word n (set buf off (w % 256)) (off + 1) (w / 256)

pub byte-lt : (k w : ℕ) → byte k w < 256
byte-lt zero w = omega arith
byte-lt (suc k) w = byte-lt k (w / 256)

pub length-store_word :
    (n : ℕ) (buf : List ℕ) (off w : ℕ) → length (store_word n buf off w) ≡ length buf
unfolding store_word
length-store_word zero buf off w = refl
length-store_word (suc n) buf off w =
    length-store_word n (set buf off (w % 256)) (off + 1) (w / 256) ∙ length-set buf off (w % 256)

pub All-store_word :
    (n : ℕ) (buf : List ℕ) (off w : ℕ) → All IsByte buf → All IsByte (store_word n buf off w)
unfolding store_word
All-store_word zero buf off w h = h
All-store_word (suc n) buf off w h =
    All-store_word n (set buf off (w % 256)) (off + 1) (w / 256)
      (All-set IsByte buf off (w % 256) h (omega arith))

pub store_word-outside :
    (n : ℕ) (buf : List ℕ) (off w j : ℕ)
    → (j < off) ⊎ (off + n ≤ j)
    → get_or (store_word n buf off w) j 0 ≡ get_or buf j 0
unfolding store_word
store_word-outside zero buf off w j h = refl
store_word-outside (suc n) buf off w j h =
    store_word-outside n (set buf off (w % 256)) (off + 1) (w / 256) j (omega arith)
    ∙ get_or-set_ne buf off j (w % 256) 0 (omega arith)

pub store_word-inside :
    (n : ℕ) (buf : List ℕ) (off w k : ℕ)
    → k < n
    → off + n ≤ length buf
    → get_or (store_word n buf off w) (off + k) 0 ≡ byte k w
unfolding store_word
store_word-inside zero buf off w k h fits = absurd (omega arith)
store_word-inside (suc n) buf off w zero h fits = ground (
  arith,
  store_word-outside n (set buf off (w % 256)) (off + 1) (w / 256) (off + 0),
  get_or-set_self buf off (w % 256) 0,
)
store_word-inside (suc n) buf off w (suc k) h fits = ground (
  arith,
  store_word-inside n (set buf off (w % 256)) (off + 1) (w / 256) k,
  length-set buf off (w % 256),
)

pub byte-load_word :
    (n : ℕ) (buf : List ℕ) (off k : ℕ)
    → ((j : ℕ) → get_or buf j 0 < 256)
    → k < n
    → byte k (load_word n buf off) ≡ get_or buf (off + k) 0
unfolding load_word
byte-load_word zero buf off k bytes h = absurd (omega arith)
byte-load_word (suc n) buf off zero bytes h = ground (arith, bytes off)
byte-load_word (suc n) buf off (suc k) bytes h =
    let high : (get_or buf off 0 + 256 * load_word n buf (off + 1)) / 256
        ≡ load_word n buf (off + 1) =
      omega (arith, bytes off) in
    let shift : off + suc k ≡ off + 1 + k = omega arith in
    rw (high, shift) (byte-load_word n buf (off + 1) k bytes (omega arith))
