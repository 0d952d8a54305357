-- ===== src/SharedMemory.antt =====
-- include/shared_memory.hpp: the index or the parameters in two buffers, one of which readers use
-- while the other is loaded.
pub mod Update
pub mod Readers
pub mod Patience
pub mod Memory
use high_dimensional_flow_re.Base.{
  ℕ, zero, suc, Bool, true, false, not, List, [], ◌∷◌, ◌++◌, leb, if◌then◌else◌,
}
use high_dimensional_flow_re.Base.Ints.{ℤ, pos, negsuc}

-- The two buffers, the modification time of the file loaded, and the flag that names the buffer in
-- use. `time_t` is a count of seconds that is not negative.
pub record Buffers {ℓ} (A : Type ℓ) : Type ℓ where
  pub on_false : A
  pub on_true : A
  pub ts : ℕ
  pub flag : Bool

module _ {ℓ} {A : Type ℓ} where
  abbrev pub slot : Buffers A → Bool → A
  slot m false = m.on_false
  slot m true = m.on_true

  abbrev pub put_slot : Buffers A → Bool → A → Buffers A
  put_slot m false a = record m { on_false = a }
  put_slot m true a = record m { on_true = a }

  -- `GetIndex` and `GetParam`.
  abbrev pub get : Buffers A → A
  get m = slot m m.flag

  -- The two statements after a load that has returned 0.
  pub switch : ℕ → Buffers A → Buffers A
  switch mtime m = record m { flag = not m.flag; ts = mtime }

  pub clear_unused : (A → A) → Buffers A → Buffers A
  clear_unused clear m = put_slot m (not m.flag) (clear (slot m (not m.flag)))

  -- What follows the load, whose code and object are given.
  unfoldable pub store : ℕ → (A → A) → Buffers A → ℤ × A → ℤ × Buffers A
  store mtime clear m (pos zero, a) =
      (pos 0, clear_unused clear (switch mtime (put_slot m (not m.flag) a)))
  store mtime clear m (pos (suc n), a) = (pos (suc n), put_slot m (not m.flag) a)
  store mtime clear m (negsuc n, a) = (negsuc n, put_slot m (not m.flag) a)

  -- `Update`: `mtime` is what `GetMtime` returns, 0 where `stat` fails; `load` and `clear` are the
  -- methods of the object.
  unfoldable pub update : ℕ → (A → ℤ × A) → (A → A) → Buffers A → ℤ × Buffers A
  update mtime load clear m =
      if leb mtime m.ts then (pos 0, m) else store mtime clear m (load (slot m (not m.flag)))

  -- What the memory holds after each write of an update that loads: `partial` are the contents that
  -- the buffer takes while `Load` runs.
  pub during_load : List A → Buffers A → List (Buffers A)
  during_load [] m = []
  during_load (a ∷ partial) m =
      put_slot m (not m.flag) a ∷ during_load partial (put_slot m (not m.flag) a)

  pub after_load : ℕ → (A → A) → Buffers A → ℤ × A → List (Buffers A)
  after_load mtime clear m (pos zero, a) =
      let loaded = put_slot m (not m.flag) a in
      loaded ∷ switch mtime loaded ∷ clear_unused clear (switch mtime loaded) ∷ []
  after_load mtime clear m (pos (suc n), a) = put_slot m (not m.flag) a ∷ []
  after_load mtime clear m (negsuc n, a) = put_slot m (not m.flag) a ∷ []

  pub trace : ℕ → List A → (A → ℤ × A) → (A → A) → Buffers A → List (Buffers A)
  trace mtime partial load clear m =
      during_load partial m ++ after_load mtime clear m (load (slot m (not m.flag)))
