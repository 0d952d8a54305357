-- ===== src/Tests/Serve.antt =====
-- The theorems on the requests of the web server at small requests.
use mathlib.Core.Option.{none-ne-some}
use high_dimensional_flow_re.Base.{
  ℕ, suc, ◌-◌, ◌≤◌, ◌≡◌, ◌≢◌, refl, Bool, true, false, some, none, List, [], ◌∷◌, ◌++◌, ◌>>=◌,
  arith, length, length-append, append-nil, replicate, length-replicate, All, All-replicate,
}
use high_dimensional_flow_re.Base.Text.{codes}
use high_dimensional_flow_re.Base.Files.{take}
use high_dimensional_flow_re.Base.Seek.{length-take}
use high_dimensional_flow_re.Base.Ints.{ℤ, pos, negsuc}
use high_dimensional_flow_re.Index.{Index}
use high_dimensional_flow_re.QueryParser.{QueryData}
use high_dimensional_flow_re.QueryParser.Codes.{query_of}
use high_dimensional_flow_re.RequestHandler.Process.{RequestHandler, done, process}
use high_dimensional_flow_re.RequestHandler.Targeting.{encode_targeting}
use high_dimensional_flow_re.RequestHandler.Sums.{Sums}
use high_dimensional_flow_re.RequestHandler.Whole.{
  IsRoom, answer_psids, answered, merged_sums, process_lem,
}
use high_dimensional_flow_re.UvMergeBitmap.Merge.{generate-IsMerged}
use high_dimensional_flow_re.MgThreadHandler.{Web, IsReader, new_query, receive, begin_request}
use high_dimensional_flow_re.MgThreadHandler.Receive.{Receives, no_more, more, receive-Receives}
use high_dimensional_flow_re.MgThreadHandler.Replies.{begin_request-none}
use high_dimensional_flow_re.Tests.Handler.{buffer-IsBuffer}
use high_dimensional_flow_re.Tests.Merge.{
  merged, merged_width, two_visitors, two_visitors-IsSampled, empty_merge,
}
use high_dimensional_flow_re.Tests.Service.{query}
use high_dimensional_flow_re.Tests.Query.{numbers, plain_param, sample_json}
use high_dimensional_flow_re.Tests.Process.{handler, write}

-- A connection gives a piece for each read; the last piece comes with an error.
abbrev read_piece : List (List ℕ) → ℕ → ℤ × List ℕ × List (List ℕ)
read_piece [] n = (pos 0, [], [])
read_piece (piece ∷ []) n = (negsuc 0, take n piece, [])
read_piece (piece ∷ next ∷ pieces) n = (pos (length (take n piece)), take n piece, next ∷ pieces)

abbrev pieces_web : Web
pieces_web = record { Conn = List (List ℕ); mg_read = read_piece }

read_piece-bounded : (conn : List (List ℕ)) (n : ℕ) → length (read_piece conn n).1 ≤ n
read_piece-bounded [] n = omega arith
read_piece-bounded (piece ∷ []) n = omega (arith, length-take piece n)
read_piece-bounded (piece ∷ next ∷ pieces) n = omega (arith, length-take piece n)

read_piece-counted :
    (conn : List (List ℕ)) (n k : ℕ)
    → (read_piece conn n).0 ≡ pos (suc k)
    → length (read_piece conn n).1 ≡ suc k
read_piece-counted [] n k e = absurd (ground (arith, e))
read_piece-counted (piece ∷ []) n k e = absurd (ground (arith, e))
read_piece-counted (piece ∷ next ∷ pieces) n k e = ground (arith, e)

pieces_web-IsReader : IsReader pieces_web
pieces_web-IsReader = record { bounded = read_piece-bounded; counted = read_piece-counted }

receive-Receives_example :
    (content : List ℕ) × (conn' : List (List ℕ)) × Receives pieces_web 4
      (codes "{" ∷ codes "}" ∷ [])
      0
      content
      conn'
    × (length content ≤ 4)
    × (receive pieces_web 4 5 (codes "{" ∷ codes "}" ∷ []) 0 (replicate 4 0)
        ≡ some (content ++ replicate (4 - length content) 0, conn'))
receive-Receives_example =
    receive-Receives pieces_web 4 pieces_web-IsReader (codes "{" ∷ codes "}" ∷ [])

abbrev write_error : List ℕ → List ℕ
write_error msg = msg

abbrev started : QueryData
started = new_query pieces_web numbers sample_json write write_error

abbrev sample_query : QueryData
sample_query = query_of numbers sample_json 0 (pos 30)

abbrev bare_index : Index
bare_index = record { pv_map = []; uv_map = []; uv_merge_map = some merged }

abbrev groups : List (List ℕ)
groups = encode_targeting query sample_query.targetings

abbrev no_sums : Sums numbers
no_sums = merged_sums numbers write query bare_index plain_param sample_query two_visitors

bare_answer :
    (out : List ℕ) × (process numbers write query bare_index plain_param sample_query handler ≡ (
      answer_psids numbers bare_index plain_param sample_query groups sample_query.psids no_sums
      >>= λ s. some (done (answered numbers write plain_param sample_query groups out s))))
    × IsRoom out
bare_answer =
    process_lem numbers write query bare_index plain_param sample_query
      (generate-IsMerged two_visitors empty_merge two_visitors-IsSampled) refl
      (omega (arith, merged_width)) (omega (arith, merged_width))
      (λ psid b e. absurd (none-ne-some b e)) (λ psid b e. absurd (none-ne-some b e)) handler
      (buffer-IsBuffer.halves, buffer-IsBuffer.bytes)

abbrev after : RequestHandler numbers
after = answered numbers write plain_param sample_query groups bare_answer.0 no_sums

-- A connection that fills the first read.
abbrev read_all : Bool → ℕ → ℤ × List ℕ × Bool
read_all true n = (pos n, replicate n b'A', false)
read_all false n = (pos 0, [], false)

abbrev full_web : Web
full_web = record { Conn = Bool; mg_read = read_all }

full_shown : (n : ℕ) → All {A = ℕ} (λ c. c ≢ 0) (replicate n b'A' ++ [])
full_shown n =
    rw (append-nil {A = ℕ} (replicate n b'A'))
      (All-replicate (λ c. c ≢ 0) n b'A' (λ e. ground arith))

begin_request-none_example :
    begin_request full_web numbers sample_json write write_error query bare_index plain_param
      (codes "POST")
      true
      handler
    ≡ none
begin_request-none_example =
    begin_request-none full_web numbers sample_json write write_error query bare_index plain_param
      (codes "POST") handler refl
      (more 32767 (replicate 32768 b'A') [] refl (length-replicate {A = ℕ} 32768 b'A')
        (no_more (pos 0) [] refl refl))
      (omega (
        arith,
        length-append {A = ℕ} (replicate 32768 b'A') [],
        length-replicate {A = ℕ} 32768 b'A',
      ))
      (full_shown 32768)
