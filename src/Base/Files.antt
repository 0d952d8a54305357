-- ===== src/Base/Files.antt =====
-- Files as the bytes ahead, with `fread` and `fwrite`. A short `fread` leaves the bytes that it got
-- at the front of its object.
use Prim.Native.Nat.{ℕ, zero, suc, ◌+◌, ◌*◌, ◌/◌, ◌%◌, ◌^◌, ◌<◌}
use native.Mathlib.Nat.{pow-suc}
use mathlib.Core.Path.{◌≡◌, refl, ap, sym, ◌∙◌}
use mathlib.Core.Bool.{Bool, true, false}
use mathlib.Core.List.{List, [], ◌∷◌, ◌++◌, append_assoc, append-nil}
use mathlib.Core.Option.{Option, none, some}
use native.Mathlib.Omega.{arith}
use high_dimensional_flow_re.Base.Tests.{◌==◌}
use high_dimensional_flow_re.Base.Lists.{length, length-append, All}
use high_dimensional_flow_re.Base.Ints.{ℤ, pos, negsuc}

-- The bytes of an object in memory, the lowest first.
pub encode : ℕ → ℕ → List ℕ
encode zero w = []
encode (suc n) w = w % 256 ∷ encode n (w / 256)

pub decode : List ℕ → ℕ
decode [] = 0
decode (x ∷ xs) = x + 256 * decode xs

abbrev pub take : ℕ → List ℕ → List ℕ
take zero xs = []
take (suc n) [] = []
take (suc n) (x ∷ xs) = x ∷ take n xs

abbrev pub drop : ℕ → List ℕ → List ℕ
drop zero xs = xs
drop (suc n) [] = []
drop (suc n) (x ∷ xs) = drop n xs

-- `fread` over an object: the number of bytes got, the object after it, the bytes ahead.
pub read_bytes : List ℕ → List ℕ → ℕ × List ℕ × List ℕ
read_bytes [] file = (0, [], file)
read_bytes (y ∷ ys) [] = (0, y ∷ ys, [])
read_bytes (y ∷ ys) (x ∷ file) = let (n, buf, rest) = read_bytes ys file in (suc n, x ∷ buf, rest)

-- `fread` of one number of `n` bytes: whether it came whole, its value, the bytes ahead.
pub read_word : ℕ → ℕ → List ℕ → Bool × ℕ × List ℕ
read_word n old file =
    let (got, buf, rest) = read_bytes (encode n old) file in (got == n, decode buf, rest)

-- What a loading function returns and leaves: its code, the object, the bytes ahead.
abbrev pub Loaded {ℓ} : Type ℓ → Type ℓ
Loaded S = ℤ × S × List ℕ

module _ {ℓ} {S : Type ℓ} where
  -- Go on unless an earlier step has returned its code.
  abbrev pub and_then : Loaded S → (S → List ℕ → Loaded S) → Loaded S
  and_then (pos zero, s, file) k = k s file
  and_then (pos (suc n), s, file) k = (pos (suc n), s, file)
  and_then (negsuc n, s, file) k = (negsuc n, s, file)

  -- `if (fread(&member, n, 1, in) == 0) return 1;`
  pub store_member : (S → ℕ → S) → S → Bool × ℕ × List ℕ → Loaded S
  store_member put s (true, w, rest) = (pos 0, put s w, rest)
  store_member put s (false, w, rest) = (pos 1, put s w, rest)

  abbrev pub read_member : ℕ → (S → ℕ) → (S → ℕ → S) → S → List ℕ → Loaded S
  read_member n get put s file = store_member put s (read_word n (get s) file)

  -- One round of a loop that pushes numbers, once `fread` has returned; `k` is the further rounds.
  pub push_word : (S → ℕ → S) → (S → List ℕ → Loaded S) → S → Bool × ℕ × List ℕ → Loaded S
  push_word push k s (true, w, rest) = k (push s w) rest
  push_word push k s (false, w, rest) = (pos 1, s, rest)

  -- The loop that reads numbers of `n` bytes one by one, and pushes each.
  pub read_each : ℕ → (S → ℕ → S) → ℕ → S → List ℕ → Loaded S
  read_each n push zero s file = (pos 0, s, file)
  read_each n push (suc count) s file =
      push_word push (read_each n push count) s (read_word n 0 file)

-- A member's loading function, as one of the whole object.
abbrev pub within {ℓ κ} : {S : Type ℓ} {T : Type κ} → (S → T) → Loaded S → Loaded T
within put (code, s, file) = (code, put s, file)

-- `fwrite`, where the file is open.
abbrev pub append : List ℕ → Option (List ℕ) → Option (List ℕ)
append bytes none = none
append bytes (some out) = some (out ++ bytes)

abbrev pub push_back : List ℕ → ℕ → List ℕ
push_back xs x = xs ++ (x ∷ [])

module _ {ℓ} {S : Type ℓ} (put : S → List ℕ → S) (s : S) where
  -- What follows the loop over the characters: they are stored when all are read.
  pub store_string : Loaded (List ℕ) → Loaded S
  store_string (pos zero, chars, file) = (pos 0, put s chars, file)
  store_string (pos (suc n), chars, file) = (pos (suc n), s, file)
  store_string (negsuc n, chars, file) = (negsuc n, s, file)

  -- What follows the `fread` of the length.
  pub read_chars : Bool × ℕ × List ℕ → Loaded S
  read_chars (true, size, rest) = store_string (read_each 1 push_back size [] rest)
  read_chars (false, size, rest) = (pos 1, s, rest)

  -- A string: its length in four bytes, and its characters.
  pub read_string : List ℕ → Loaded S
  read_string file = read_chars (read_word 4 0 file)

-- The bytes that the writing loops append.
pub encode_each : ℕ → List ℕ → List ℕ
encode_each n [] = []
encode_each n (w ∷ ws) = encode n w ++ encode_each n ws

unfoldable pub encode_string : List ℕ → List ℕ
encode_string chars = encode 4 (length chars) ++ encode_each 1 chars

pub length-encode : (n w : ℕ) → length (encode n w) ≡ n
unfolding encode
length-encode zero w = refl
length-encode (suc n) w = ap suc (length-encode n (w / 256))

pub decode-encode : (n w : ℕ) → w < 256 ^ n → decode (encode n w) ≡ w
unfolding encode decode
decode-encode zero w h = omega arith
decode-encode (suc n) w h =
    rw (decode-encode n (w / 256) (omega (arith, pow-suc 256 n))) (omega arith)

pub read_bytes-append :
    (old xs rest : List ℕ)
    → length old ≡ length xs
    → read_bytes old (xs ++ rest) ≡ (length xs, xs, rest)
unfolding read_bytes
read_bytes-append [] [] rest e = refl
read_bytes-append [] (x ∷ xs) rest e = absurd (omega arith)
read_bytes-append (y ∷ ys) [] rest e = absurd (omega arith)
read_bytes-append (y ∷ ys) (x ∷ xs) rest e = rw (read_bytes-append ys xs rest (omega arith))

-- A number that was written is read.
pub read_word-encode :
    (n old w : ℕ) (rest : List ℕ)
    → w < 256 ^ n
    → read_word n old (encode n w ++ rest) ≡ (true, w, rest)
unfolding read_word
read_word-encode n old w rest h =
    rw
      (
        read_bytes-append (encode n old) (encode n w) rest
            (length-encode n old ∙ sym (length-encode n w)),
        length-encode n w,
        decode-encode n w h,
      )
      (ground arith)

-- Pushing numbers one after the other.
abbrev pub push_all {ℓ} : {S : Type ℓ} → (S → ℕ → S) → S → List ℕ → S
push_all push s [] = s
push_all push s (w ∷ ws) = push_all push (push s w) ws

-- One round, once its number has come whole.
read_each-suc {ℓ} :
    {S : Type ℓ} (n : ℕ) (push : S → ℕ → S) (count : ℕ) (s : S) (file : List ℕ) {w : ℕ}
    {rest : List ℕ}
    → read_word n 0 file ≡ (true, w, rest)
    → read_each n push (suc count) s file ≡ read_each n push count (push s w) rest
unfolding read_each push_word
read_each-suc n push count s file e = ap (push_word push (read_each n push count) s) e

-- Numbers that were written are read and pushed.
pub read_each-encode_each {ℓ} :
    {S : Type ℓ} (n : ℕ) (push : S → ℕ → S) (s : S) (ws rest : List ℕ)
    → All (λ w. w < 256 ^ n) ws
    → read_each n push (length ws) s (encode_each n ws ++ rest) ≡ (pos 0, push_all push s ws, rest)
unfolding encode_each
read_each-encode_each n push s [] rest h = unfold read_each in refl
read_each-encode_each n push s (w ∷ ws) rest h =
    let next = encode_each n ws ++ rest in
    ap (read_each n push (suc (length ws)) s) (append_assoc (encode n w) (encode_each n ws) rest)
    ∙ read_each-suc n push (length ws) s (encode n w ++ next) (read_word-encode n 0 w next h.0)
    ∙ read_each-encode_each n push (push s w) ws rest h.1

push_all-push_back : (xs ws : List ℕ) → push_all push_back xs ws ≡ xs ++ ws
push_all-push_back xs [] = sym (append-nil xs)
push_all-push_back xs (w ∷ ws) =
    push_all-push_back (push_back xs w) ws ∙ append_assoc xs (w ∷ []) ws

read_string_lem {ℓ} :
    {S : Type ℓ} (put : S → List ℕ → S) (s : S) (file : List ℕ) {size : ℕ}
    {chars rest ahead : List ℕ}
    → read_word 4 0 file ≡ (true, size, rest)
    → read_each 1 push_back size [] rest ≡ (pos 0, chars, ahead)
    → read_string put s file ≡ (pos 0, put s chars, ahead)
unfolding read_string read_chars store_string
read_string_lem put s file e e' = ap (read_chars put s) e ∙ ap (store_string put s) e'

-- A string that was written is read.
pub read_string-encode_string {ℓ} :
    {S : Type ℓ} (put : S → List ℕ → S) (s : S) (chars rest : List ℕ)
    → length chars < 2 ^ 32
    → All (λ w. w < 256) chars
    → read_string put s (encode_string chars ++ rest) ≡ (pos 0, put s chars, rest)
unfolding encode_string
read_string-encode_string put s chars rest short bytes =
    let next = encode_each 1 chars ++ rest in
    ap (read_string put s) (append_assoc (encode 4 (length chars)) (encode_each 1 chars) rest)
    ∙ read_string_lem put s (encode 4 (length chars) ++ next)
        (read_word-encode 4 0 (length chars) next short)
        (read_each-encode_each 1 push_back [] chars rest bytes
          ∙ ap (λ cs. (pos 0, cs, rest)) (push_all-push_back [] chars))

pub take-append : (n : ℕ) (xs ys : List ℕ) → length xs ≡ n → take n (xs ++ ys) ≡ xs
take-append zero [] ys e = refl
take-append zero (x ∷ xs) ys e = absurd (omega arith)
take-append (suc n) [] ys e = absurd (omega arith)
take-append (suc n) (x ∷ xs) ys e = ap (◌∷◌ x) (take-append n xs ys (omega arith))

pub drop-append : (n : ℕ) (xs ys : List ℕ) → length xs ≡ n → drop n (xs ++ ys) ≡ ys
drop-append zero [] ys e = refl
drop-append zero (x ∷ xs) ys e = absurd (omega arith)
drop-append (suc n) [] ys e = absurd (omega arith)
drop-append (suc n) (x ∷ xs) ys e = drop-append n xs ys (omega arith)

pub take-all : (n : ℕ) (xs : List ℕ) → length xs ≡ n → take n xs ≡ xs
take-all zero [] e = refl
take-all zero (x ∷ xs) e = absurd (omega arith)
take-all (suc n) [] e = absurd (omega arith)
take-all (suc n) (x ∷ xs) e = ap (◌∷◌ x) (take-all n xs (omega arith))

pub length-encode_each : (n : ℕ) (ws : List ℕ) → length (encode_each n ws) ≡ n * length ws
unfolding encode_each
length-encode_each n [] = omega arith
length-encode_each n (w ∷ ws) =
    rw (length-append (encode n w) (encode_each n ws), length-encode n w, length-encode_each n ws)
      (grind arith)

pub store_member-true {ℓ} :
    {S : Type ℓ} (put : S → ℕ → S) (s : S) (w : ℕ) (rest : List ℕ)
    → store_member put s (true, w, rest) ≡ (pos 0, put s w, rest)
unfolding store_member
store_member-true put s w rest = refl

pub length-encode_string : (chars : List ℕ) → length (encode_string chars) ≡ 4 + length chars
unfolding encode_string
length-encode_string chars = omega (
  arith,
  length-append (encode 4 (length chars)) (encode_each 1 chars),
  length-encode 4 (length chars),
  length-encode_each 1 chars,
)
