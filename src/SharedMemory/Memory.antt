-- ===== src/SharedMemory/Memory.antt =====
-- The members and the methods of the class of include/shared_memory.hpp.
use high_dimensional_flow_re.Base.{ℕ, Bool, false, Option, none, List, []}
use high_dimensional_flow_re.Base.Ints.{ℤ}
use high_dimensional_flow_re.Numbers.{Numbers}
use high_dimensional_flow_re.TargetMap.{TargetMap, query_online}
use high_dimensional_flow_re.TargetMap
use high_dimensional_flow_re.Index.{Index}
use high_dimensional_flow_re.Index
use high_dimensional_flow_re.Param.{Param}
use high_dimensional_flow_re.Param
use high_dimensional_flow_re.SharedMemory.{Buffers, get, update}

pub record SharedMemory (d : Numbers) : Type 0 where
  pub index : Buffers Index
  pub param : Buffers (Param d)
  pub dict : TargetMap

abbrev pub new_index : Index
new_index = record { pv_map = []; uv_map = []; uv_merge_map = none }

-- Both buffers with one object, and a time of 0.
abbrev pub new_buffers : {A : Type 0} → A → Buffers A
new_buffers a = record { on_false = a; on_true = a; ts = 0; flag = false }

-- A file: the time of its last change, 0 where there is none, and what it holds, `none` where it does
-- not open.
pub record Source (A : Type 0) : Type 0 where
  pub mtime : ℕ
  pub text : Option A

module _ {d : Numbers} where
  abbrev pub get_index : SharedMemory d → Index
  get_index m = get m.index

  abbrev pub get_param : SharedMemory d → Param d
  get_param m = get m.param

  abbrev pub get_target_id : SharedMemory d → List ℕ → ℤ
  get_target_id m target = query_online m.dict target

  -- `new_param` is a new object.
  abbrev pub new_memory : (new_param : Param d) → SharedMemory d
  new_memory new_param = record {
    index = new_buffers new_index;
    param = new_buffers new_param;
    dict = record { offline_dict = []; online_dict = [] };
  }

  abbrev pub load_target_map : Option (List (List ℕ)) → SharedMemory d → ℤ × SharedMemory d
  load_target_map conf m =
      let (code, dict) = TargetMap.load m.dict conf in (code, record m { dict = dict })

  abbrev pub update_param : Source (List (List ℕ)) → SharedMemory d → ℤ × SharedMemory d
  update_param file m =
      let (code, param) = update file.mtime (Param.load d file.text) (Param.clear d) m.param in
      (code, record m { param = param })

  -- `memory` is whether `new` finds memory, `procs` the number of processors, `threads` the flag
  -- `bitmap_parallel_threads`, `fresh n` what an array of `n` bytes holds before it is written.
  module _ (memory : Bool) (procs threads : ℕ) (fresh : ℕ → List ℕ) where
    abbrev pub update_index : Source (List ℕ) → SharedMemory d → ℤ × SharedMemory d
    update_index file m =
        let (code, index) =
          update file.mtime (Index.Files.load memory procs threads fresh file.text) Index.clear
            m.index in
        (code, record m { index = index })
