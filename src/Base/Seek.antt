-- ===== src/Base/Seek.antt =====
-- Places in a file: what lies from one on, and what a write over the bytes there leaves.
use Prim.Native.Nat.{ℕ, zero, suc, ◌+◌, ◌-◌, ◌≤◌, min}
use native.Mathlib.Nat.{zero-add, suc-add}
use mathlib.Core.Path.{◌≡◌, refl, ap, sym, ◌∙◌}
use mathlib.Core.List.{List, [], ◌∷◌, ◌++◌, append_assoc}
use native.Mathlib.Omega.{arith}
use high_dimensional_flow_re.Base.Lists.{length, length-append}
use high_dimensional_flow_re.Base.Files.{take, drop, drop-append}

pub drop-drop : (xs : List ℕ) (m n : ℕ) → drop n (drop m xs) ≡ drop (m + n) xs
drop-drop xs zero n = rw zero-add refl
drop-drop [] (suc m) zero = rw suc-add refl
drop-drop [] (suc m) (suc n) = rw suc-add refl
drop-drop (x ∷ xs) (suc m) n = rw suc-add (drop-drop xs m n)

pub length-drop : (xs : List ℕ) (n : ℕ) → length (drop n xs) ≡ length xs - n
length-drop xs zero = omega arith
length-drop [] (suc n) = omega arith
length-drop (x ∷ xs) (suc n) = omega (arith, length-drop xs n)

pub length-take : (xs : List ℕ) (n : ℕ) → length (take n xs) ≡ min n (length xs)
length-take xs zero = omega arith
length-take [] (suc n) = omega arith
length-take (x ∷ xs) (suc n) = omega (arith, length-take xs n)

-- Taking more than the front.
take-front :
    (front rest : List ℕ) (n : ℕ)
    → length front ≤ n
    → take n (front ++ rest) ≡ front ++ take (n - length front) rest
take-front [] rest n h = let e : n - 0 ≡ n = omega arith in rw e refl
take-front (x ∷ front) rest zero h = absurd (omega arith)
take-front (x ∷ front) rest (suc n) h =
    let e : suc n - suc (length front) ≡ n - length front = omega arith in
    rw e (ap (◌∷◌ x) (take-front front rest n (omega arith)))

drop-take :
    (q p : ℕ) (file more : List ℕ)
    → q ≤ p
    → p ≤ length file
    → drop q (take p file ++ more) ≡ take (p - q) (drop q file) ++ more
drop-take zero p file more h h' = let e : p - 0 ≡ p = omega arith in rw e refl
drop-take (suc q) zero file more h h' = absurd (omega arith)
drop-take (suc q) (suc p) [] more h h' = absurd (omega arith)
drop-take (suc q) (suc p) (x ∷ file) more h h' =
    let e : suc p - suc q ≡ p - q = omega arith in
    rw e (drop-take q p file more (omega arith) (omega arith))

-- `fseek` and `fwrite` over what is there.
abbrev pub overwrite : ℕ → List ℕ → List ℕ → List ℕ
overwrite place bytes file = take place file ++ (bytes ++ drop (place + length bytes) file)

module _ (place : ℕ) (bytes file : List ℕ) (inside : place + length bytes ≤ length file) where
  pub length-overwrite : length (overwrite place bytes file) ≡ length file
  length-overwrite =
      let first = length-append (take place file) (bytes ++ drop (place + length bytes) file) in
      let second = length-append bytes (drop (place + length bytes) file) in
      omega (
        arith,
        first,
        second,
        length-take file place,
        length-drop file (place + length bytes),
        inside,
      )

  -- What was written is there, what lies before it stays, and what lies behind it stays.
  pub overwrite-here :
      drop place (overwrite place bytes file) ≡ bytes ++ drop (place + length bytes) file
  overwrite-here =
      drop-append place (take place file) (bytes ++ drop (place + length bytes) file)
        (omega (arith, length-take file place, inside))

  pub overwrite-before :
      (q : ℕ) (front rest : List ℕ)
      → drop q file ≡ front ++ rest
      → q + length front ≤ place
      → (rest' : List ℕ) × (drop q (overwrite place bytes file) ≡ front ++ rest')
  overwrite-before q front rest e h =
      let behind = bytes ++ drop (place + length bytes) file in
      (
        take (place - q - length front) rest ++ behind,
        drop-take q place file behind (omega arith) (omega arith)
            ∙ ap (λ xs. take (place - q) xs ++ behind) e
            ∙ ap (λ xs. xs ++ behind) (take-front front rest (place - q) (omega arith))
            ∙ append_assoc front (take (place - q - length front) rest) behind,
      )

  pub overwrite-behind :
      (q : ℕ) → place + length bytes ≤ q → drop q (overwrite place bytes file) ≡ drop q file
  overwrite-behind q h =
      let more = q - (place + length bytes) in
      let whole : place + (length bytes + more) ≡ q = omega arith in
      let whole' : place + length bytes + more ≡ q = omega arith in
      let rest = drop (place + length bytes) file in
      ap (λ n. drop n (overwrite place bytes file)) (sym whole)
      ∙ sym (drop-drop (overwrite place bytes file) place (length bytes + more))
      ∙ ap (drop (length bytes + more)) overwrite-here
      ∙ sym (drop-drop (bytes ++ rest) (length bytes) more)
      ∙ ap (drop more) (drop-append (length bytes) bytes rest refl)
      ∙ drop-drop file (place + length bytes) more
      ∙ ap (λ n. drop n file) whole'
