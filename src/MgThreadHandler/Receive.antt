-- ===== src/MgThreadHandler/Receive.antt =====
-- The loop of `begin_request` of src/mg_thread_handler.cc that reads a request.
use mathlib.Core.Path.{ap₂}
use high_dimensional_flow_re.Base.{
  ℕ, zero, suc, ◌+◌, ◌-◌, ◌≤◌, ◌<◌, ◌≡◌, refl, ap, sym, ◌∙◌, Bool, true, false, Option, some, List,
  [], ◌++◌, append_assoc, arith, length, length-append, replicate,
}
use high_dimensional_flow_re.Base.Files.{drop, take-append}
use high_dimensional_flow_re.Base.Seek.{overwrite, drop-drop}
use high_dimensional_flow_re.Base.Files.{drop-append}
use high_dimensional_flow_re.Base.Ints.{ℤ, pos, negsuc}
use high_dimensional_flow_re.MgThreadHandler.{Web, IsReader, store_read, receive}

drop-replicate : (m n : ℕ) → drop m (replicate n 0) ≡ replicate {A = ℕ} (n - m) 0
unfolding replicate
drop-replicate zero n = let e : n - 0 ≡ n = omega arith in rw e refl
drop-replicate (suc m) zero = let e : 0 - suc m ≡ 0 = omega arith in rw e refl
drop-replicate (suc m) (suc n) =
    let e : suc n - suc m ≡ n - m = omega arith in rw e (drop-replicate m n)

-- A write at the end of what is filled.
overwrite-filled :
    (front bytes : List ℕ) (n : ℕ)
    → overwrite (length front) bytes (front ++ replicate n 0)
      ≡ (front ++ bytes) ++ replicate (n - length bytes) 0
overwrite-filled front bytes n =
    let zeros : List ℕ = replicate n 0 in
    ap (λ xs. xs ++ (bytes ++ drop (length front + length bytes) (front ++ zeros)))
      (take-append (length front) front zeros refl)
    ∙ ap (λ xs. front ++ (bytes ++ xs))
        (sym (drop-drop (front ++ zeros) (length front) (length bytes))
          ∙ ap (drop (length bytes)) (drop-append (length front) front zeros refl)
          ∙ drop-replicate (length bytes) n)
    ∙ sym (append_assoc front bytes (replicate (n - length bytes) 0))

-- A result of `mg_read` with which the loop ends.
abbrev pub is_last : ℤ → Bool
is_last (pos zero) = true
is_last (pos (suc k)) = false
is_last (negsuc k) = true

module _ (web : Web) (total : ℕ) where
  open web use {Conn, mg_read}

  -- The reads from a connection, until one returns 0 or less: what they put into the buffer together,
  -- that one included, where `place` bytes of the buffer are filled.
  pub data Receives : Conn → ℕ → List ℕ → Conn → Type 0 where
    no_more :
        {conn conn' : Conn} {place : ℕ} (code : ℤ) (bytes : List ℕ)
        → mg_read conn (total - place) ≡ (code, bytes, conn')
        → is_last code ≡ true
        → Receives conn place bytes conn'
    more :
        {conn between conn' : Conn} {place : ℕ} (k : ℕ) (bytes content : List ℕ)
        → mg_read conn (total - place) ≡ (pos (suc k), bytes, between)
        → length bytes ≡ suc k
        → Receives between (place + suc k) content conn'
        → Receives conn place (bytes ++ content) conn'

  store_read-last :
      (rest : Conn → ℕ → List ℕ → Option (List ℕ × Conn)) (place : ℕ) (buf : List ℕ) (code : ℤ)
      (bytes : List ℕ) (conn : Conn)
      → is_last code ≡ true
      → store_read web rest place buf (code, bytes, conn) ≡ some (overwrite place bytes buf, conn)
  store_read-last rest place buf (pos zero) bytes conn e = refl
  store_read-last rest place buf (pos (suc k)) bytes conn e = absurd (ground (arith, e))
  store_read-last rest place buf (negsuc k) bytes conn e = refl

  -- What a read puts behind what is filled.
  overwrite-place :
      (front bytes : List ℕ) (place : ℕ)
      → length front ≡ place
      → overwrite place bytes (front ++ replicate (total - place) 0)
        ≡ (front ++ bytes) ++ replicate (total - (place + length bytes)) 0
  overwrite-place front bytes place e =
      let left : total - place - length bytes ≡ total - (place + length bytes) = omega arith in
      ap (λ n. overwrite n bytes (front ++ replicate (total - place) 0)) (sym e)
      ∙ overwrite-filled front bytes (total - place)
      ∙ ap (λ n. (front ++ bytes) ++ replicate n 0) left

  receive-filled :
      (fuel : ℕ) {conn conn' : Conn} {place : ℕ} {content : List ℕ} (front : List ℕ)
      → Receives conn place content conn'
      → length front ≡ place
      → length content < fuel
      → receive web total fuel conn place (front ++ replicate (total - place) 0)
        ≡ some ((front ++ content) ++ replicate (total - (place + length content)) 0, conn')
  unfolding receive
  receive-filled zero front r e enough = absurd (omega arith)
  receive-filled (suc fuel) {conn} {conn'} {place} front (no_more code bytes read last) e enough =
      ap (store_read web (receive web total fuel) place (front ++ replicate (total - place) 0)) read
      ∙ store_read-last (receive web total fuel) place (front ++ replicate (total - place) 0) code
          bytes conn' last
      ∙ ap (λ buf. some (buf, conn')) (overwrite-place front bytes place e)
  receive-filled (suc fuel) {conn} {conn'} {place} front
        (more {between = b} k bytes content read size r) e enough =
      let whole = length-append bytes content in
      let far : place + suc k + length content ≡ place + length (bytes ++ content) =
        omega (arith, whole, size) in
      ap (store_read web (receive web total fuel) place (front ++ replicate (total - place) 0)) read
      ∙ (ap (receive web total fuel b (place + suc k)) (
            overwrite-place front bytes place e
            ∙ ap (λ n. (front ++ bytes) ++ replicate (total - (place + n)) 0) size)
          ∙ receive-filled fuel {conn = b} {conn' = conn'} {place = place + suc k}
              {content = content} (front ++ bytes) r
              (omega (arith, length-append front bytes, e, size))
              (omega (arith, whole, size, enough))
          ∙ ap₂ (λ xs n. some (xs ++ replicate (total - n) 0, conn'))
              (append_assoc front bytes content) far)

  pub received :
      {conn conn' : Conn} {content : List ℕ}
      → Receives conn 0 content conn'
      → length content ≤ total
      → receive web total (suc total) conn 0 (replicate total 0)
        ≡ some (content ++ replicate (total - length content) 0, conn')
  received {conn} {conn'} {content} r room =
      let size : 0 + length content ≡ length content = omega arith in
      let all : total - 0 ≡ total = omega arith in
      ap (λ n. receive web total (suc total) conn 0 (replicate n 0)) (sym all)
      ∙ receive-filled (suc total) [] r refl (omega arith)
      ∙ ap (λ n. some (content ++ replicate (total - n) 0, conn')) size

  module _ (reader : IsReader web) where
    -- The reads from a connection come to an end.
    record Ends (conn : Conn) (place : ℕ) : Type 0 where
      content : List ℕ
      after : Conn
      reads : Receives conn place content after
      room : place + length content ≤ total

    Ends-last :
        (conn after : Conn) (place : ℕ) (code : ℤ) (bytes : List ℕ)
        → mg_read conn (total - place) ≡ (code, bytes, after)
        → is_last code ≡ true
        → place ≤ total
        → Ends conn place
    Ends-last conn after place code bytes e last h = record {
      content = bytes;
      after = after;
      reads = no_more code bytes e last;
      room = omega (arith, h, reader.bounded conn (total - place), ap (λ r. length r.1) e);
    }

    Ends-read :
        (conn : Conn) (place : ℕ) (r : ℤ × List ℕ × Conn)
        → mg_read conn (total - place) ≡ r
        → place ≤ total
        → ((k : ℕ) (between : Conn) → suc k ≤ total - place → Ends between (place + suc k))
        → Ends conn place
    Ends-read conn place (pos zero, bytes, after) e h on =
        Ends-last conn after place (pos 0) bytes e refl h
    Ends-read conn place (negsuc k, bytes, after) e h on =
        Ends-last conn after place (negsuc k) bytes e refl h
    Ends-read conn place (pos (suc k), bytes, between) e h on =
        let same = ap (λ r. length r.1) e in
        let counted = reader.counted conn (total - place) k (ap (λ r. r.0) e) in
        let size : length bytes ≡ suc k = sym same ∙ counted in
        let rest = on k between (omega (arith, reader.bounded conn (total - place), counted)) in
        record {
          content = bytes ++ rest.content;
          after = rest.after;
          reads = more k bytes rest.content e size rest.reads;
          room = omega (arith, rest.room, size, length-append bytes rest.content);
        }

    Ends-within :
        (fuel : ℕ) (conn : Conn) (place : ℕ)
        → place ≤ total
        → total - place < fuel
        → Ends conn place
    Ends-within zero conn place h enough = absurd (omega arith)
    Ends-within (suc fuel) conn place h enough =
        Ends-read conn place (mg_read conn (total - place)) refl h (λ k between short.
          Ends-within fuel between (place + suc k) (omega (arith, short)) (omega (arith, short)))

  -- The loop that reads a request ends, within one round more than the buffer has bytes: the buffer
  -- then holds what the reads have put into it until one returned 0 or less, that one included, and
  -- zeros behind it. `mg_read` does not overrun the buffer, and returns the number of bytes put into
  -- it where it returns more than 0.
  pub receive-Receives :
      IsReader web
      → (conn : Conn)
      → (content : List ℕ) × (conn' : Conn) × Receives conn 0 content conn'
        × (length content ≤ total)
        × (receive web total (suc total) conn 0 (replicate total 0)
            ≡ some (content ++ replicate (total - length content) 0, conn'))
  receive-Receives reader conn =
      let whole = Ends-within reader (suc total) conn 0 (omega arith) (omega arith) in
      (
        whole.content,
        whole.after,
        whole.reads,
        omega (arith, whole.room),
        received whole.reads (omega (arith, whole.room)),
      )
