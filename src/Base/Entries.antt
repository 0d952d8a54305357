-- ===== src/Base/Entries.antt =====
-- Maps from strings to numbers in files: for each entry the length of the key, its characters, and
-- the value in `n` bytes.
use Prim.Native.Nat.{ℕ, zero, suc, ◌+◌, ◌^◌, ◌<◌}
use native.Mathlib.Nat.{mod-eq_of_lt}
use mathlib.Core.Path.{◌≡◌, refl, ap, sym, ◌∙◌}
use mathlib.Core.Option.{none, some}
use mathlib.Core.Logic.{inl, inr}
use mathlib.Core.List.{List, [], ◌∷◌, ◌++◌, append_assoc}
use native.Mathlib.Omega.{arith}
use high_dimensional_flow_re.Base.Tests.{if◌then◌else◌, u32, Bool-cases}
use high_dimensional_flow_re.Base.Lists.{length, length-append, All}
use high_dimensional_flow_re.Base.Ints.{pos}
use high_dimensional_flow_re.Base.OrElse.{or_else, or_else_assoc, or_else-none}
use high_dimensional_flow_re.Base.Maps.{Map, find, same, insert_new, find-insert_new}
use high_dimensional_flow_re.Base.Files.{
  encode, encode_each, encode_string, Loaded, and_then, take, take-all, read_member, read_string,
  length-encode, length-encode_string,
}
use high_dimensional_flow_re.Base.Reads.{Reads, Reads-and_then, Reads-member, Reads-string}

-- While a map is read: the buffer of the key, and the map so far.
pub record Reading : Type 0 where
  pub key : List ℕ
  pub entries : Map ℕ

module _ (n : ℕ) where
  -- The key, and then the value, with which the entry goes to the map. What the value's object held
  -- before is not looked at where the value comes whole.
  abbrev pub read_key : Reading → List ℕ → Loaded Reading
  read_key = read_string (λ r chars. record r { key = chars })

  abbrev pub read_value : Reading → List ℕ → Loaded Reading
  read_value = read_member n (λ r. 0) (λ r w. record r { entries = insert_new r.entries r.key w })

  pub read_entry : Reading → List ℕ → Loaded Reading
  read_entry r file = and_then (read_key r file) read_value

  unfoldable pub read_entries : ℕ → Reading → List ℕ → Loaded Reading
  read_entries zero r file = (pos 0, r, file)
  read_entries (suc count) r file = and_then (read_entry r file) (read_entries count)

  abbrev pub encode_entry : List ℕ → ℕ → List ℕ
  encode_entry key value =
      let size = u32 (length key) in
      encode 4 size ++ (encode_each 1 (take size key) ++ encode n value)

  unfoldable pub encode_entries : Map ℕ → List ℕ
  encode_entries [] = []
  encode_entries ((key, value) ∷ m) = encode_entry key value ++ encode_entries m

  -- A key and a value that fit.
  abbrev pub IsEntry : List ℕ × ℕ → Type 0
  IsEntry (key, value) = (length key < 2 ^ 32) × All (λ c. c < 256) key × (value < 256 ^ n)

  encode_entry-string :
      (key : List ℕ) (value : ℕ)
      → length key < 2 ^ 32
      → encode_entry key value ≡ encode_string key ++ encode n value
  unfolding encode_string
  encode_entry-string key value h =
      let short : u32 (length key) ≡ length key = mod-eq_of_lt h in
      rw (short, take-all (length key) key refl)
        (sym (append_assoc (encode 4 (length key)) (encode_each 1 key) (encode n value)))

  read_entry-Reads :
      (r : Reading) (key : List ℕ) (value : ℕ)
      → IsEntry (key, value)
      → Reads read_entry r
          (encode_entry key value)
          (record { key = key; entries = insert_new r.entries key value })
  unfolding read_entry
  read_entry-Reads r key value h rest = rw (encode_entry-string key value h.0) (
      Reads-and_then read_key read_value (encode_string key) (encode n value)
        (Reads-string (λ r chars. record r { key = chars }) r key h.0 h.1)
        (Reads-member n (λ r. 0) (λ r w. record r { entries = insert_new r.entries r.key w })
          (record r { key = key }) value h.2)
        rest)

  abbrev pub insert_all : Map ℕ → Map ℕ → Map ℕ
  insert_all m [] = m
  insert_all m ((key, value) ∷ more) = insert_all (insert_new m key value) more

  abbrev pub last_key : List ℕ → Map ℕ → List ℕ
  last_key key [] = key
  last_key key ((key', value) ∷ more) = last_key key' more

  -- The entries that were written are read and inserted.
  pub read_entries-Reads :
      (m : Map ℕ) (r : Reading)
      → All IsEntry m
      → Reads
          (read_entries (length m))
          r
          (encode_entries m)
          (record { key = last_key r.key m; entries = insert_all r.entries m })
  unfolding read_entries encode_entries
  read_entries-Reads [] r h rest = refl
  read_entries-Reads ((key, value) ∷ m) r h rest =
      Reads-and_then read_entry (read_entries (length m)) (encode_entry key value)
        (encode_entries m) (read_entry-Reads r key value h.0)
        (read_entries-Reads m (record { key = key; entries = insert_new r.entries key value }) h.1)
        rest

  first_entry :
      (k : List ℕ) (v : ℕ) (more : Map ℕ) (key : List ℕ)
      → or_else (if same k key then some v else none) (find more key) ≡ find ((k, v) ∷ more) key
  first_entry k v more key = elim (Bool-cases (same k key)) [
    | inl here ↦ rw (find, here) refl
    | inr away ↦ rw (find, away) refl
  ]

  -- The map that is read finds what the first entry of a key says.
  pub find-insert_all :
      (m more : Map ℕ) (key : List ℕ)
      → find (insert_all m more) key ≡ or_else (find m key) (find more key)
  find-insert_all m [] key = sym (or_else-none (find m key))
  find-insert_all m ((k, v) ∷ more) key =
      find-insert_all (insert_new m k v) more key
      ∙ ap (λ o. or_else o (find more key)) (find-insert_new m k key v)
      ∙ sym (or_else_assoc (find m key) (if same k key then some v else none) (find more key))
      ∙ ap (or_else (find m key)) (first_entry k v more key)

  pub length-encode_entry :
      (key : List ℕ) (value : ℕ)
      → length key < 2 ^ 32
      → length (encode_entry key value) ≡ 4 + length key + n
  length-encode_entry key value h =
      ap length (encode_entry-string key value h)
      ∙ length-append (encode_string key) (encode n value)
      ∙ omega (arith, length-encode_string key, length-encode n value)
