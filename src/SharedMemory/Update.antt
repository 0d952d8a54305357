-- ===== src/SharedMemory/Update.antt =====
-- What `Update` of include/shared_memory.hpp does, and what readers see meanwhile.
use high_dimensional_flow_re.Base.{
  ℕ, zero, suc, ◌≡◌, ◌⊎◌, inl, inr, refl, Bool, true, false, not, List, [], ◌∷◌, ◌++◌, leb,
  if◌then◌else◌, All, All-append, Bool-cases, ◌∙◌,
}
use high_dimensional_flow_re.Base.Ints.{ℤ, pos, negsuc}
use high_dimensional_flow_re.SharedMemory.{
  Buffers, slot, put_slot, get, switch, clear_unused, store, update, during_load, after_load, trace,
}

module _ {A : Type 0} where
  -- All that an update leaves: its code, the object in use, the time, the object that is not in use,
  -- and which of the buffers is in use.
  abbrev pub observed : ℤ × Buffers A → ℤ × A × ℕ × A × Bool
  observed (code, m) = (code, get m, m.ts, slot m (not m.flag), m.flag)

  -- If the load has returned 0, the object loaded is in use with its time, in the other buffer, and
  -- the old one is cleared; if not, the old one is in use, and the other is what the load has left.
  abbrev pub outcome : ℕ → (A → A) → Buffers A → ℤ × A → ℤ × A × ℕ × A × Bool
  outcome mtime clear m (pos zero, a) = (pos 0, a, mtime, clear (get m), not m.flag)
  outcome mtime clear m (pos (suc n), a) = (pos (suc n), get m, m.ts, a, m.flag)
  outcome mtime clear m (negsuc n, a) = (negsuc n, get m, m.ts, a, m.flag)

  store_lem :
      (mtime : ℕ) (clear : A → A) (m : Buffers A) (flag : Bool) (result : ℤ × A)
      → m.flag ≡ flag
      → observed (store mtime clear m result) ≡ outcome mtime clear m result
  unfolding store switch clear_unused
  store_lem mtime clear m false (pos zero, a) e = rw e refl
  store_lem mtime clear m true (pos zero, a) e = rw e refl
  store_lem mtime clear m false (pos (suc n), a) e = rw e refl
  store_lem mtime clear m true (pos (suc n), a) e = rw e refl
  store_lem mtime clear m false (negsuc n, a) e = rw e refl
  store_lem mtime clear m true (negsuc n, a) e = rw e refl

  -- `Update` returns 0 and leaves both buffers, the time and the flag where the file is not newer
  -- than the object in use. Else it loads the file into the buffer that is not in use: where that
  -- returns 0, the new object is in use with the file's time, and the old one is cleared; and where
  -- not, its code is returned, the old object stays in use with its time, and the other buffer holds
  -- what the load has left.
  pub update_lem :
      (mtime : ℕ) (load : A → ℤ × A) (clear : A → A) (m : Buffers A)
      → observed (update mtime load clear m) ≡ (
          if leb mtime m.ts
          then observed (pos 0, m)
          else outcome mtime clear m (load (slot m (not m.flag))))
  unfolding update
  update_lem mtime load clear m = elim (Bool-cases (leb mtime m.ts)) [
    | inl current ↦ rw current refl
    | inr newer ↦ rw newer (store_lem mtime clear m m.flag (load (slot m (not m.flag))) refl)
  ]

  -- What a reader may see of a load: the old object, or the new one if it has been loaded whole.
  abbrev pub Seen : Buffers A → ℤ × A → Buffers A → Type 0
  Seen m (pos zero, a) s = (get s ≡ get m) ⊎ (get s ≡ a)
  Seen m (pos (suc n), a) s = get s ≡ get m
  Seen m (negsuc n, a) s = get s ≡ get m

  old-Seen : (m : Buffers A) (result : ℤ × A) (s : Buffers A) → get s ≡ get m → Seen m result s
  old-Seen m (pos zero, a) s e = inl e
  old-Seen m (pos (suc n), a) s e = e
  old-Seen m (negsuc n, a) s e = e

  get-put_slot :
      (m : Buffers A) (flag : Bool) (a : A)
      → m.flag ≡ flag
      → get (put_slot m (not m.flag) a) ≡ get m
  get-put_slot m false a e = rw e refl
  get-put_slot m true a e = rw e refl

  during_load-Seen :
      (m : Buffers A) (result : ℤ × A) (partial : List A) (s : Buffers A)
      → get s ≡ get m
      → All (Seen m result) (during_load partial s)
  unfolding during_load
  during_load-Seen m result [] s e = tt
  during_load-Seen m result (a ∷ partial) s e =
      let same = get-put_slot s s.flag a refl ∙ e in
      (
        old-Seen m result (put_slot s (not s.flag) a) same,
        during_load-Seen m result partial (put_slot s (not s.flag) a) same,
      )

  after_load-Seen :
      (mtime : ℕ) (clear : A → A) (m : Buffers A) (flag : Bool) (result : ℤ × A)
      → m.flag ≡ flag
      → All (Seen m result) (after_load mtime clear m result)
  unfolding after_load switch clear_unused
  after_load-Seen mtime clear m false (pos zero, a) e = rw e (inl refl, (inr refl, (inr refl, tt)))
  after_load-Seen mtime clear m true (pos zero, a) e = rw e (inl refl, (inr refl, (inr refl, tt)))
  after_load-Seen mtime clear m false (pos (suc n), a) e = rw e (refl, tt)
  after_load-Seen mtime clear m true (pos (suc n), a) e = rw e (refl, tt)
  after_load-Seen mtime clear m false (negsuc n, a) e = rw e (refl, tt)
  after_load-Seen mtime clear m true (negsuc n, a) e = rw e (refl, tt)

  abbrev pub last_state : Buffers A → List (Buffers A) → Buffers A
  last_state m [] = m
  last_state m (s ∷ states) = last_state s states

  last_state-append :
      (m s : Buffers A) (xs ys : List (Buffers A)) → last_state m (xs ++ (s ∷ ys)) ≡ last_state s ys
  last_state-append m s [] ys = refl
  last_state-append m s (x ∷ xs) ys = last_state-append x s xs ys

  last_state-store :
      (mtime : ℕ) (clear : A → A) (m : Buffers A) (xs : List (Buffers A)) (result : ℤ × A)
      → last_state m (xs ++ after_load mtime clear m result) ≡ (store mtime clear m result).1
  unfolding after_load store
  last_state-store mtime clear m xs (pos zero, a) =
      let loaded = put_slot m (not m.flag) a in
      last_state-append m loaded xs
        (switch mtime loaded ∷ clear_unused clear (switch mtime loaded) ∷ [])
  last_state-store mtime clear m xs (pos (suc n), a) =
      last_state-append m (put_slot m (not m.flag) a) xs []
  last_state-store mtime clear m xs (negsuc n, a) =
      last_state-append m (put_slot m (not m.flag) a) xs []

  -- Where the file is newer, `Update` ends in the last state of its writes; and whatever contents
  -- the buffer takes while `Load` runs, a reader that asks for the object after any of the writes gets
  -- the old object, or, if the load has returned 0, the new one whole: never an object that is
  -- partly loaded or cleared.
  pub trace-Seen :
      (mtime : ℕ) (partial : List A) (load : A → ℤ × A) (clear : A → A) (m : Buffers A)
      → leb mtime m.ts ≡ false
      → (last_state m (trace mtime partial load clear m) ≡ (update mtime load clear m).1)
        × All (Seen m (load (slot m (not m.flag)))) (trace mtime partial load clear m)
  unfolding trace update
  trace-Seen mtime partial load clear m newer =
      let result = load (slot m (not m.flag)) in
      (
        last_state-store mtime clear m (during_load partial m) result ∙ rw newer refl,
        All-append (Seen m result) (during_load partial m) (after_load mtime clear m result)
            (during_load-Seen m result partial m refl)
            (after_load-Seen mtime clear m m.flag result refl),
      )
