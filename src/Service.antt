-- ===== src/Service.antt =====
-- `main` of src/service.cc: the memory that the web server's requests use, its start and its rounds
-- of updates.
pub mod Serving
pub mod Missing
use high_dimensional_flow_re.Base.{ℕ, zero, suc, ◌≡◌, Bool, Option, List}
use high_dimensional_flow_re.Base.Ints.{ℤ, pos, negsuc}
use high_dimensional_flow_re.Numbers.{Numbers}
use high_dimensional_flow_re.Param.{Param}
use high_dimensional_flow_re.SharedMemory.Memory.{
  SharedMemory, Source, new_memory, load_target_map, update_index, update_param,
}

-- The files that the flags name, at one time.
pub record Files : Type 0 where
  pub targeting_conf : Option (List (List ℕ))
  pub index_file : Source (List ℕ)
  pub param_file : Source (List (List ℕ))

-- The program has ended with `exit(1)`, or it serves.
pub data Running (d : Numbers) : Type 0 where
  ended : Running d
  serving : SharedMemory d → Running d

module _ (memory : Bool) (procs threads : ℕ) (fresh : ℕ → List ℕ) {d : Numbers} where
  -- `if (return_code) exit(1);`
  abbrev pub go_on : ℤ × SharedMemory d → (SharedMemory d → Running d) → Running d
  go_on (pos zero, m) k = k m
  go_on (pos (suc n), m) k = ended
  go_on (negsuc n, m) k = ended

  -- The two updates, which the start and each round of the loop make.
  abbrev pub update_files : Files → SharedMemory d → Running d
  update_files files m =
      go_on (update_index memory procs threads fresh files.index_file m)
        (λ m₁. go_on (update_param files.param_file m₁) serving)

  unfoldable pub start : Param d → Files → Running d
  start new_param files =
      go_on (load_target_map files.targeting_conf (new_memory new_param)) (update_files files)

  -- A round of the loop after its `sleep`.
  unfoldable pub round : Files → SharedMemory d → Running d
  round files m = update_files files m

  -- The memories with which the program serves: the files are others in each round.
  pub data Serves (new_param : Param d) : SharedMemory d → Type 0 where
    started :
        (m : SharedMemory d) (files : Files)
        → start new_param files ≡ serving m
        → Serves new_param m
    again :
        (m m' : SharedMemory d) (files : Files)
        → Serves new_param m
        → round files m ≡ serving m'
        → Serves new_param m'
