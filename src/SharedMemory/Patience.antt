-- ===== src/SharedMemory/Patience.antt =====
-- What requests hold while updates of include/shared_memory.hpp go on beside them.
use high_dimensional_flow_re.Base.{
  ℕ, zero, suc, Bool-cases, inl, inr, ◌≡◌, ◌≢◌, refl, ◌∙◌, Bool, true, false, not, List, [], ◌∷◌,
  ◌++◌, leb, if◌then◌else◌, All, All-imp,
}
use high_dimensional_flow_re.Base.Ints.{ℤ, pos, negsuc}
use high_dimensional_flow_re.SharedMemory.{
  Buffers, slot, put_slot, get, switch, clear_unused, store, update,
}
use high_dimensional_flow_re.SharedMemory.Readers.{
  idle, switched, Reader, System, Step, take, give_back, start_load, load_part, load_fail, load_end,
  change, clean, Reach, here, next, Event, events, to_take, to_load, to_write, to_fail, to_end,
  to_change, to_clean,
}

not-not : (b : Bool) → not (not b) ≡ b
not-not true = refl
not-not false = refl

module _ {X : Type 0} where
  All-zip :
      {P Q R : X → Type 0} (xs : List X)
      → ((x : X) → P x → Q x → R x)
      → All P xs
      → All Q xs
      → All R xs
  All-zip [] f h k = tt
  All-zip (x ∷ xs) f h k = (f x h.0 k.0, All-zip xs f h.1 k.1)

  All-without :
      (P : X → Type 0) (before after : List X) (x : X)
      → All P (before ++ (x ∷ after))
      → All P (before ++ after)
  All-without P [] after x h = h.1
  All-without P (y ∷ before) after x h = (h.0, All-without P before after x h.1)

module _ {A : Type 0} where
  -- A write to the buffer that is not in use leaves the one in use.
  slot-put_slot :
      (m : Buffers A) (a : A) (held flag : Bool)
      → held ≡ flag
      → slot (put_slot m (not flag) a) held ≡ slot m held
  slot-put_slot m a held false e = rw e refl
  slot-put_slot m a held true e = rw e refl

  slot-switch : (m : Buffers A) (mtime : ℕ) (held : Bool) → slot (switch mtime m) held ≡ slot m held
  unfolding switch
  slot-switch m mtime false = refl
  slot-switch m mtime true = refl

  -- Each request finds in its buffer what that held at first; and but between the switch and the
  -- clearing, all requests hold the buffer in use.
  pub record IsKept (s : System A) : Type 0 where
    pub kept : All (λ r. slot s.buffers r.held ≡ r.object) s.readers
    pub current : s.writer ≢ switched → All (λ r. r.held ≡ s.buffers.flag) s.readers

  -- A write to the buffer that no request holds.
  written :
      (m : Buffers A) (a : A) (flag : Bool) (readers : List (Reader A))
      → All (λ r. r.held ≡ flag) readers
      → All (λ r. slot m r.held ≡ r.object) readers
      → All (λ r. slot (put_slot m (not flag) a) r.held ≡ r.object) readers
  written m a flag readers away kept =
      All-zip readers (λ r e h. slot-put_slot m a r.held flag e ∙ h) away kept

  flag-put_slot : (m : Buffers A) (b : Bool) (a : A) → (put_slot m b a).flag ≡ m.flag
  flag-put_slot m true a = refl
  flag-put_slot m false a = refl

  module _ (clear : A → A) where
    Step-IsKept : {s t : System A} → Step clear true s t → IsKept s → IsKept t
    unfolding clear_unused
    Step-IsKept {s} take h = record { kept = (refl, h.kept); current = λ n. (refl, h.current n) }
    Step-IsKept {s} (give_back before after r e) h = record {
      kept = All-without (λ r. slot s.buffers r.held ≡ r.object) before after r (rw e at h.kept);
      current =
          λ n. All-without (λ r. r.held ≡ s.buffers.flag) before after r (rw e at (h.current n));
    }
    Step-IsKept {s} (start_load mtime e newer) h = record {
      kept = h.kept;
      current = λ n. h.current (λ e'. cc);
    }
    Step-IsKept {s} (load_part mtime a e) h =
        let away = h.current (λ e'. cc) in
        record {
          kept = written s.buffers a s.buffers.flag s.readers away h.kept;
          current = λ n. rw (flag-put_slot s.buffers (not s.buffers.flag) a) away;
        }
    Step-IsKept {s} (load_fail mtime e) h = record {
      kept = h.kept;
      current = λ n. h.current (λ e'. cc);
    }
    Step-IsKept {s} (load_end mtime e) h = record {
      kept = h.kept;
      current = λ n. h.current (λ e'. cc);
    }
    Step-IsKept {s} (change mtime e) h = record {
      kept = All-imp s.readers (λ r k. slot-switch s.buffers mtime r.held ∙ k) h.kept;
      current = λ n. absurd (n refl);
    }
    Step-IsKept {s} (clean e free) h =
        let away : All (λ r. r.held ≡ s.buffers.flag) s.readers =
          rw (not-not s.buffers.flag) at (free refl) in
        let cleared = clear (slot s.buffers (not s.buffers.flag)) in
        record {
          kept = written s.buffers cleared s.buffers.flag s.readers away h.kept;
          current = λ n. rw (flag-put_slot s.buffers (not s.buffers.flag) cleared) away;
        }

    Reach-IsKept : {s t : System A} → IsKept s → Reach clear true s t → IsKept t
    Reach-IsKept h here = h
    Reach-IsKept h (next r st) = Step-IsKept st (Reach-IsKept h r)

-- A memory that no request and no update uses.
abbrev pub quiet : {A : Type 0} → Buffers A → System A
quiet m = record { buffers = m; writer = idle; readers = [] }

module _ {A : Type 0} (clear : A → A) where
  -- However requests and updates mix, a request finds in the buffer that it holds what that held when
  -- it took it, until it gives it back: no load, switch or clearing changes it. The requests that
  -- hold the old buffer have ended when an update clears it.
  pub Reach-kept :
      {m : Buffers A} {t : System A}
      → Reach clear true (quiet m) t
      → All (λ r. slot t.buffers r.held ≡ r.object) t.readers
  Reach-kept r = (Reach-IsKept clear (record { kept = tt; current = λ n. tt }) r).kept

  -- The steps of an update whose load yields a code and an object: the load into the buffer that is
  -- not in use, and if the code is 0, the switch and the clearing.
  abbrev pub steps_of : ℕ → ℤ × A → List (Event A)
  steps_of mtime (pos zero, a) = to_load mtime ∷ to_write a ∷ to_end ∷ to_change ∷ to_clean ∷ []
  steps_of mtime (pos (suc n), a) = to_load mtime ∷ to_write a ∷ to_fail ∷ []
  steps_of mtime (negsuc n, a) = to_load mtime ∷ to_write a ∷ to_fail ∷ []

  -- A run from one system to another by these steps, and no others.
  abbrev pub RunsBy : Bool → System A → List (Event A) → System A → Type 0
  RunsBy patient s es t = (r : Reach clear patient s t) × (events clear patient r ≡ es)

  store-RunsBy :
      (patient : Bool) (mtime : ℕ) (m : Buffers A) (result : ℤ × A)
      → leb mtime m.ts ≡ false
      → RunsBy patient (quiet m) (steps_of mtime result) (quiet (store mtime clear m result).1)
  unfolding store events
  store-RunsBy patient mtime m (pos zero, a) newer = (
    next
        (next
          (next (next (next here (start_load mtime refl newer)) (load_part mtime a refl))
            (load_end mtime refl))
          (change mtime refl))
        (clean refl (λ e. tt)),
    refl,
  )
  store-RunsBy patient mtime m (pos (suc n), a) newer = (
    next (next (next here (start_load mtime refl newer)) (load_part mtime a refl))
        (load_fail mtime refl),
    refl,
  )
  store-RunsBy patient mtime m (negsuc n, a) newer = (
    next (next (next here (start_load mtime refl newer)) (load_part mtime a refl))
        (load_fail mtime refl),
    refl,
  )

  -- Where no request comes between, an update leaves the buffers as exactly these steps do: none where
  -- the file is not newer; else the start of the load, the write of what the load leaves, and where
  -- it returns 0, its end, the switch and the clearing, and where not, its failure.
  pub update-Reach :
      (patient : Bool) (mtime : ℕ) (load : A → ℤ × A) (m : Buffers A)
      → RunsBy patient
          (quiet m)
          (if leb mtime m.ts then [] else steps_of mtime (load (slot m (not m.flag))))
          (quiet (update mtime load clear m).1)
  unfolding update events
  update-Reach patient mtime load m = elim (Bool-cases (leb mtime m.ts)) [
    | inl current ↦ rw current (here, refl)
    | inr newer ↦ rw newer (store-RunsBy patient mtime m (load (slot m (not m.flag))) newer)
  ]

  clear_in_use :
      (m : Buffers A) (mtime : ℕ) (a : A) (flag : Bool)
      → m.flag ≡ flag
      → slot (clear_unused clear (switch mtime (put_slot m (not flag) a))) flag
        ≡ clear (slot m flag)
  unfolding clear_unused switch
  clear_in_use m mtime a false e = rw e refl
  clear_in_use m mtime a true e = rw e refl

  -- Where an update does not wait for the requests that hold the old buffer, the object that a request
  -- has taken is cleared under it: on every update that loads a newer file with the code 0, a request
  -- that took the object before the load holds it still when the update has ended, and finds it
  -- cleared.
  pub cleared_in_use :
      (m : Buffers A) (mtime : ℕ) (load : A → ℤ × A) (a : A)
      → leb mtime m.ts ≡ false
      → load (slot m (not m.flag)) ≡ (pos 0, a)
      → let r : Reader A = record { held = m.flag; object = get m } in
        let t : System A = record {
          buffers = (update mtime load clear m).1;
          writer = idle;
          readers = r ∷ [];
        } in
        RunsBy false (quiet m) (to_take ∷ steps_of mtime (pos 0, a)) t
        × (slot t.buffers r.held ≡ clear r.object)
  unfolding update store events
  cleared_in_use m mtime load a newer loads =
      rw (newer, loads)
        (
          (
            next
                (next
                  (next
                    (next (next (next here take) (start_load mtime refl newer))
                      (load_part mtime a refl))
                    (load_end mtime refl))
                  (change mtime refl))
                (clean refl (λ e. absurd (cc))),
            refl,
          ),
          clear_in_use m mtime a m.flag refl,
        )
