-- ===== src/Base/Reads.antt =====
-- Loading functions that read back what was written, in sequence.
use Prim.Native.Nat.{ℕ, ◌^◌, ◌<◌}
use mathlib.Core.Path.{◌≡◌, ap, ◌∙◌}
use mathlib.Core.List.{List, ◌++◌, append_assoc}
use high_dimensional_flow_re.Base.Lists.{length, All}
use high_dimensional_flow_re.Base.Ints.{pos}
use high_dimensional_flow_re.Base.Files.{
  encode, encode_each, encode_string, Loaded, and_then, store_member, store_member-true,
  read_member, read_each, read_string, push_all, read_word-encode, read_each-encode_each,
  read_string-encode_string,
}

module _ {ℓ} {S : Type ℓ} where
  -- From the object `s` and the bytes, whatever follows them, the function makes `s'`.
  abbrev pub Reads : (S → List ℕ → Loaded S) → S → List ℕ → S → Type ℓ
  Reads f s bytes s' = (rest : List ℕ) → f s (bytes ++ rest) ≡ (pos 0, s', rest)

  pub Reads-and_then :
      (f g : S → List ℕ → Loaded S) {s s' s'' : S} (xs ys : List ℕ)
      → Reads f s xs s'
      → Reads g s' ys s''
      → Reads (λ t file. and_then (f t file) g) s (xs ++ ys) s''
  Reads-and_then f g {s} {s'} xs ys first second rest =
      ap (λ file. and_then (f s file) g) (append_assoc xs ys rest)
      ∙ ap (λ l. and_then l g) (first (ys ++ rest))
      ∙ second rest

  pub Reads-member :
      (n : ℕ) (get : S → ℕ) (put : S → ℕ → S) (s : S) (w : ℕ)
      → w < 256 ^ n
      → Reads (read_member n get put) s (encode n w) (put s w)
  Reads-member n get put s w h rest =
      ap (store_member put s) (read_word-encode n (get s) w rest h) ∙ store_member-true put s w rest

  pub Reads-each :
      (n : ℕ) (push : S → ℕ → S) (s : S) (ws : List ℕ) (count : ℕ)
      → length ws ≡ count
      → All (λ w. w < 256 ^ n) ws
      → Reads (read_each n push count) s (encode_each n ws) (push_all push s ws)
  Reads-each n push s ws count e h rest = rw (← e) (read_each-encode_each n push s ws rest h)

  pub Reads-string :
      (put : S → List ℕ → S) (s : S) (chars : List ℕ)
      → length chars < 2 ^ 32
      → All (λ w. w < 256) chars
      → Reads (read_string put) s (encode_string chars) (put s chars)
  Reads-string put s chars short bytes rest = read_string-encode_string put s chars rest short bytes
