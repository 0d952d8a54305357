-- ===== src/Tests/Memory.antt =====
-- The theorems on the shared memory and on the service at small memories.
use high_dimensional_flow_re.Base.{
  ℕ, ◌≤◌, ◌≡◌, refl, false, true, none, some, List, [], ◌∷◌, arith, All, inr,
}
use high_dimensional_flow_re.Base.Ints.{ℤ, pos}
use high_dimensional_flow_re.QueryParser.{QueryData}
use high_dimensional_flow_re.RequestHandler.Process.{RequestHandler, exited, done, process}
use high_dimensional_flow_re.RequestHandler.Whole.{IsRoom}
use high_dimensional_flow_re.RequestHandler.Total.{process-IsAnswered}
use high_dimensional_flow_re.UvMergeBitmap.Merge.{generate-IsMerged}
use high_dimensional_flow_re.SharedMemory.{store}
use high_dimensional_flow_re.Param.{load, load_lines}
use high_dimensional_flow_re.SharedMemory.Memory.{update_param}
use high_dimensional_flow_re.SharedMemory.{Buffers, slot, update}
use high_dimensional_flow_re.SharedMemory.Readers.{
  System, here, next, take, start_load, load_part, loading, idle, to_take, to_load, to_write,
  to_end, to_change, to_clean,
}
use high_dimensional_flow_re.SharedMemory.Patience.{
  quiet, RunsBy, Reach-kept, update-Reach, cleared_in_use,
}
use high_dimensional_flow_re.SharedMemory.Memory.{
  SharedMemory, get_index, get_param, get_target_id, new_memory,
}
use high_dimensional_flow_re.Service.{Files, serving, start, round, started}
use high_dimensional_flow_re.Service.Serving.{IsServing, Serves-IsServing}
use high_dimensional_flow_re.Service.Missing.{round-fresh, start-missing}
use high_dimensional_flow_re.Tests.Files.{zeros}
use high_dimensional_flow_re.Tests.Handler.{buffer-IsBuffer}
use high_dimensional_flow_re.Tests.Merge.{
  merged_width, two_visitors, two_visitors-IsSampled, empty_merge,
}
use high_dimensional_flow_re.Tests.Service.{query}
use high_dimensional_flow_re.Tests.Query.{numbers, plain_param}
use high_dimensional_flow_re.Tests.Process.{
  handler, write, index, asked, pv-IsServed, pv-HasHours, uv-IsServed,
}

-- Numbers stand for objects, and 0 for a cleared one.
abbrev numbered : Buffers ℕ
numbered = record { on_false = 7; on_true = 0; ts = 3; flag = false }

abbrev to_zero : ℕ → ℕ
to_zero n = 0

abbrev half_loaded : System ℕ
half_loaded = record {
  buffers = record numbered { on_true = 8 };
  writer = loading 5;
  readers = record { held = false; object = 7 } ∷ [];
}

Reach-kept_example : All (λ r. slot half_loaded.buffers r.held ≡ r.object) half_loaded.readers
Reach-kept_example =
    Reach-kept to_zero {m = numbered} {t = half_loaded}
      (next (next (next here take) (start_load 5 refl refl)) (load_part 5 8 refl))

abbrev load_nine : ℕ → ℤ × ℕ
load_nine n = (pos 0, 9)

update-Reach_example :
    RunsBy to_zero true
      (quiet numbered)
      (to_load 5 ∷ to_write 9 ∷ to_end ∷ to_change ∷ to_clean ∷ [])
      (quiet (update 5 load_nine to_zero numbered).1)
update-Reach_example = update-Reach to_zero true 5 load_nine numbered

-- The request that took 7 finds 0.
abbrev cleared_system : System ℕ
cleared_system = record {
  buffers = (update 5 load_nine to_zero numbered).1;
  writer = idle;
  readers = record { held = false; object = 7 } ∷ [];
}

cleared_in_use_example :
    RunsBy to_zero false
      (quiet numbered)
      (to_take ∷ to_load 5 ∷ to_write 9 ∷ to_end ∷ to_change ∷ to_clean ∷ [])
      cleared_system
    × (slot cleared_system.buffers false ≡ 0)
cleared_in_use_example = cleared_in_use to_zero numbered 5 load_nine 9 refl refl

abbrev no_files : Files
no_files = record {
  targeting_conf = some [];
  index_file = record { mtime = 0; text = none };
  param_file = record { mtime = 0; text = none };
}

start-missing_example :
    (m : SharedMemory numbers) × (start true 1 1 zeros plain_param no_files ≡ serving m)
    × ((write : ℕ → ℕ → ℕ → ℕ → ℕ → List ℕ) (qd : QueryData) (h : RequestHandler numbers)
        → process numbers write (get_target_id m) (get_index m) (get_param m) qd h ≡ some exited)
start-missing_example = start-missing true 1 1 zeros plain_param no_files [] refl refl refl

abbrev bare_memory : SharedMemory numbers
bare_memory = start-missing_example.0

Serves-IsServing_example : IsServing true 1 1 zeros plain_param bare_memory
Serves-IsServing_example =
    Serves-IsServing true 1 1 zeros plain_param bare_memory
      (started bare_memory no_files start-missing_example.1)

-- An index that is newer than its file, and parameters that are older than theirs, which is empty.
abbrev worn_memory : SharedMemory numbers
worn_memory =
    let m = new_memory plain_param in
    record m { index = record (m.index) { ts = 7 }; param = record (m.param) { ts = 7 } }

abbrev new_files : Files
new_files = record {
  targeting_conf = some [];
  index_file = record { mtime = 5; text = none };
  param_file = record { mtime = 9; text = some [] };
}

abbrev renewed : SharedMemory numbers
renewed = (update_param new_files.param_file worn_memory).1

one_round : round true 1 1 zeros new_files worn_memory ≡ serving renewed
unfolding round update store load load_lines
one_round = refl

round-fresh_example : (5 ≤ renewed.index.ts) × (9 ≤ renewed.param.ts)
round-fresh_example =
    round-fresh true 1 1 zeros plain_param new_files worn_memory renewed (inr one_round)

process-IsAnswered_example :
    (after : RequestHandler numbers) × (process numbers write query index plain_param asked handler
      ≡ some (done after))
    × IsRoom after.compute_buf
process-IsAnswered_example =
    process-IsAnswered numbers write query index plain_param asked
      (generate-IsMerged two_visitors empty_merge two_visitors-IsSampled) refl
      (omega (arith, merged_width)) (omega (arith, merged_width))
      (λ psid b e. (pv-IsServed psid b e, pv-HasHours psid b e)) uv-IsServed
      (record { pv_short = omega arith; uv_short = omega arith; win_rate_short = omega arith })
      handler (buffer-IsBuffer.halves, buffer-IsBuffer.bytes)
