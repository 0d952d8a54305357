-- ===== src/Tests/Service.antt =====
-- The theorems on strings, targets and the shared memory at small inputs.
use high_dimensional_flow_re.Base.{
  ℕ, ◌<◌, ◌≡◌, refl, false, not, List, [], ◌∷◌, arith, leb, if◌then◌else◌, All, some, ◌==◌,
}
use high_dimensional_flow_re.Base.Ints.{ℤ, pos, negsuc}
use high_dimensional_flow_re.StringExt.{split}
use high_dimensional_flow_re.StringExt.Split.{IsSplit, split-IsSplit}
use high_dimensional_flow_re.TargetMap.{
  TargetMap, load, query_online, query_offline, config_online_index, config_offline_index,
}
use high_dimensional_flow_re.TargetMap.Load.{last_given, or_missing, load_queries}
use high_dimensional_flow_re.SharedMemory.{Buffers, slot, get, update, trace}
use high_dimensional_flow_re.SharedMemory.Update.{
  observed, outcome, Seen, update_lem, trace-Seen, last_state,
}
use high_dimensional_flow_re.RequestHandler.Target.{has_each}
use high_dimensional_flow_re.RequestHandler.Targeting.{
  push_index, push_group, encode_group, encode_targeting, has_targeting, has_each-encode_targeting,
}
use high_dimensional_flow_re.Tests.Bitmaps.{two_rows}

-- "a,b"
split-IsSplit_example : IsSplit 44 (97 ∷ 44 ∷ 98 ∷ []) (split (97 ∷ 44 ∷ 98 ∷ []) 44)
split-IsSplit_example = split-IsSplit (97 ∷ 44 ∷ 98 ∷ []) 44

-- A line of four fields: "x", "a", "b" and "1".
abbrev target_line : List ℕ
target_line = 120 ∷ 9 ∷ 97 ∷ 9 ∷ 98 ∷ 9 ∷ 49 ∷ []

abbrev no_targets : TargetMap
no_targets = record { offline_dict = []; online_dict = [] }

load_queries_example :
    (query_online (load no_targets (some (target_line ∷ []))).1 (98 ∷ [])
      ≡ or_missing (last_given config_online_index (98 ∷ []) (target_line ∷ [])))
    × (query_offline (load no_targets (some (target_line ∷ []))).1 (98 ∷ [])
        ≡ or_missing (last_given config_offline_index (98 ∷ []) (target_line ∷ [])))
load_queries_example = load_queries no_targets (target_line ∷ []) (98 ∷ [])

abbrev old_buffers : Buffers ℕ
old_buffers = record { on_false = 5; on_true = 0; ts = 10; flag = false }

abbrev load_seven : ℕ → ℤ × ℕ
load_seven a = (pos 0, 7)

abbrev cleared : ℕ → ℕ
cleared a = 0

update_lem_example : observed (update 20 load_seven cleared old_buffers) ≡ (
    if leb 20 10
    then (pos 0, get old_buffers, 10, 0, false)
    else outcome 20 cleared old_buffers (load_seven (slot old_buffers (not false))))
update_lem_example = update_lem 20 load_seven cleared old_buffers

trace-Seen_example :
    (last_state old_buffers (trace 20 (3 ∷ 6 ∷ []) load_seven cleared old_buffers)
      ≡ (update 20 load_seven cleared old_buffers).1)
    × All
        (Seen old_buffers (load_seven (slot old_buffers (not false))))
        (trace 20 (3 ∷ 6 ∷ []) load_seven cleared old_buffers)
trace-Seen_example = trace-Seen 20 (3 ∷ 6 ∷ []) load_seven cleared old_buffers refl

-- The name "a" has the number 1, and no other name has one.
abbrev pub query : List ℕ → ℤ
query [] = negsuc 0
query (c ∷ cs) = if c == 97 then pos 1 else negsuc 0

abbrev pub named_groups : List (List (List ℕ))
named_groups = ((97 ∷ []) ∷ (98 ∷ []) ∷ []) ∷ ((98 ∷ []) ∷ []) ∷ []

has_each-encode_targeting_example :
    has_each two_rows (encode_targeting query named_groups) 2
    ≡ has_targeting query two_rows named_groups 2
has_each-encode_targeting_example = has_each-encode_targeting query two_rows named_groups 2

pub query_rows : (name : List ℕ) (n : ℕ) → query name ≡ pos n → n < 2
query_rows [] n e = ground arith
query_rows (c ∷ cs) n e = ground arith

pub encoded : encode_targeting query named_groups ≡ (1 ∷ []) ∷ []
unfolding encode_targeting encode_group push_group push_index
encoded = refl
