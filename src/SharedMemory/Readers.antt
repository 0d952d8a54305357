-- ===== src/SharedMemory/Readers.antt =====
-- Requests beside an update of include/shared_memory.hpp: the steps of the writer, which are the
-- writes of `Update`, and of the readers, which hold a reference to a buffer while a request lasts.
use high_dimensional_flow_re.Base.{ℕ, ◌≡◌, Bool, true, false, not, List, [], ◌∷◌, ◌++◌, leb, All}
use high_dimensional_flow_re.SharedMemory.{Buffers, put_slot, get, switch, clear_unused}

-- Where the writer is in `Update`: outside; in `Load`, with the time of the file; after a `Load` that
-- has returned 0; and after the switch of the flag.
pub data Writer : Type 0 where
  idle : Writer
  loading : ℕ → Writer
  loaded : ℕ → Writer
  switched : Writer

-- A request: the buffer that its reference names, and what that held when it was taken.
pub record Reader (A : Type 0) : Type 0 where
  pub held : Bool
  pub object : A

pub record System (A : Type 0) : Type 0 where
  pub buffers : Buffers A
  pub writer : Writer
  pub readers : List (Reader A)

-- No request holds the buffer.
abbrev pub IsFree : {A : Type 0} → Bool → List (Reader A) → Type 0
IsFree buffer readers = All (λ r. r.held ≡ not buffer) readers

-- `patient` is whether the second `sleep` of `Update` is long enough: whether the requests that hold
-- the old buffer have ended when it is cleared.
module _ {A : Type 0} (clear : A → A) (patient : Bool) where
  pub data Step (s : System A) : System A → Type 0 where
    take : Step s (record s {
      readers = record { held = s.buffers.flag; object = get s.buffers } ∷ s.readers;
    })
    give_back :
        (before after : List (Reader A)) (r : Reader A)
        → s.readers ≡ before ++ (r ∷ after)
        → Step s (record s { readers = before ++ after })
    start_load :
        (mtime : ℕ)
        → s.writer ≡ idle
        → leb mtime s.buffers.ts ≡ false
        → Step s (record s { writer = loading mtime })
    load_part :
        (mtime : ℕ) (a : A)
        → s.writer ≡ loading mtime
        → Step s (record s { buffers = put_slot s.buffers (not s.buffers.flag) a })
    load_fail : (mtime : ℕ) → s.writer ≡ loading mtime → Step s (record s { writer = idle })
    load_end : (mtime : ℕ) → s.writer ≡ loading mtime → Step s (record s { writer = loaded mtime })
    change :
        (mtime : ℕ)
        → s.writer ≡ loaded mtime
        → Step s (record s { buffers = switch mtime s.buffers; writer = switched })
    clean :
        s.writer ≡ switched
        → (patient ≡ true → IsFree (not s.buffers.flag) s.readers)
        → Step s (record s { buffers = clear_unused clear s.buffers; writer = idle })

  pub data Reach (s : System A) : System A → Type 0 where
    here : Reach s s
    next : {t u : System A} → Reach s t → Step t u → Reach s u

-- What a step does, with what it writes.
pub data Event (A : Type 0) : Type 0 where
  to_take : Event A
  to_give_back : Event A
  to_load : ℕ → Event A
  to_write : A → Event A
  to_fail : Event A
  to_end : Event A
  to_change : Event A
  to_clean : Event A

module _ {A : Type 0} (clear : A → A) (patient : Bool) where
  abbrev event : {s t : System A} → Step clear patient s t → Event A
  event take = to_take
  event (give_back before after r e) = to_give_back
  event (start_load mtime e newer) = to_load mtime
  event (load_part mtime a e) = to_write a
  event (load_fail mtime e) = to_fail
  event (load_end mtime e) = to_end
  event (change mtime e) = to_change
  event (clean e free) = to_clean

  -- The steps of a run in their order.
  unfoldable pub events : {s t : System A} → Reach clear patient s t → List (Event A)
  events here = []
  events (next r st) = events r ++ (event st ∷ [])
