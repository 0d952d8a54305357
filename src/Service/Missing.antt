-- ===== src/Service/Missing.antt =====
-- What src/service.cc does with files that are not there, or that are newer.
use mathlib.Core.Path.{subst}
use high_dimensional_flow_re.Base.{
  ℕ, zero, suc, ◌≤◌, ◌≡◌, ◌⊎◌, refl, ap, ◌∙◌, Bool, not, some, List, leb, arith, Bool-cases, inl,
  inr,
}
use high_dimensional_flow_re.Base.Ints.{ℤ, pos, negsuc}
use high_dimensional_flow_re.Numbers.{Numbers}
use high_dimensional_flow_re.Param.{Param}
use high_dimensional_flow_re.Param
use high_dimensional_flow_re.Index.{clear}
use high_dimensional_flow_re.Index.Files.{load}
use high_dimensional_flow_re.QueryParser.{QueryData}
use high_dimensional_flow_re.RequestHandler.Process.{RequestHandler, exited, process}
use high_dimensional_flow_re.TargetMap
use high_dimensional_flow_re.SharedMemory.{Buffers, slot, update}
use high_dimensional_flow_re.SharedMemory.Update.{observed, outcome, update_lem}
use high_dimensional_flow_re.SharedMemory.Memory.{
  SharedMemory, new_memory, get_index, get_param, get_target_id, load_target_map, update_index,
  update_param,
}
use high_dimensional_flow_re.Service.{Files, serving, go_on, update_files, start, round}
use high_dimensional_flow_re.Service.Serving.{go_on-serving, serving-injective}

module _ {A : Type 0} where
  outcome-fresh :
      (mtime : ℕ) (clear : A → A) (m after : Buffers A) (code : ℤ) (r : ℤ × A)
      → observed (code, after) ≡ outcome mtime clear m r
      → code ≡ pos 0
      → after.ts ≡ mtime
  outcome-fresh mtime clear m after code (pos zero, a) h z = ap (λ t. t.2) h
  outcome-fresh mtime clear m after code (pos (suc n), a) h z =
      absurd (ground (arith, ap (λ t. t.0) h))
  outcome-fresh mtime clear m after code (negsuc n, a) h z =
      absurd (ground (arith, ap (λ t. t.0) h))

  -- After an update that has returned 0, nothing in use is older than the file.
  update-fresh :
      (mtime : ℕ) (load : A → ℤ × A) (clear : A → A) (m : Buffers A)
      → (update mtime load clear m).0 ≡ pos 0
      → mtime ≤ (update mtime load clear m).1.ts
  update-fresh mtime load clear m z =
      let lem = update_lem mtime load clear m in
      elim (Bool-cases (leb mtime m.ts)) [
        | inl current ↦
            let same = ap (λ t. t.2) (rw current at lem) in ground (arith, same, current)
        | inr newer ↦
            let same =
              outcome-fresh mtime clear m (update mtime load clear m).1
                (update mtime load clear m).0 (load (slot m (not m.flag))) (rw newer at lem) z in
            omega (arith, same)
      ]

  -- A file that is not there counts as one that is not newer.
  update-missing :
      (mtime : ℕ) (load : A → ℤ × A) (clear : A → A) (m : Buffers A)
      → mtime ≡ 0
      → update mtime load clear m ≡ (pos 0, m)
  unfolding update
  update-missing mtime load clear m e = ground (arith, e)

module _ (memory : Bool) (procs threads : ℕ) (fresh : ℕ → List ℕ) {d : Numbers} where
  update_files-fresh :
      (files : Files) (m m' : SharedMemory d)
      → update_files memory procs threads fresh files m ≡ serving m'
      → (files.index_file.mtime ≤ m'.index.ts) × (files.param_file.mtime ≤ m'.param.ts)
  update_files-fresh files m m' e =
      let (z, e₁) =
        go_on-serving memory procs threads fresh
          (update_index memory procs threads fresh files.index_file m) _ m' e in
      let m₁ = (update_index memory procs threads fresh files.index_file m).1 in
      let (z', e₂) =
        go_on-serving memory procs threads fresh (update_param files.param_file m₁) serving m' e₁ in
      let index =
        update-fresh files.index_file.mtime (load memory procs threads fresh files.index_file.text)
          clear m.index z in
      let param =
        update-fresh files.param_file.mtime (Param.load d files.param_file.text) (Param.clear d)
          m₁.param z' in
      subst
        (λ (n : SharedMemory d).
          (files.index_file.mtime ≤ n.index.ts) × (files.param_file.mtime ≤ n.param.ts))
        (serving-injective memory procs threads fresh _ m' e₂) (index, param)

  -- After the start of the program, and after a round in which it goes on, the time of the index in
  -- use is not before that of its file, and so with the parameters.
  pub round-fresh :
      (new_param : Param d) (files : Files) (m m' : SharedMemory d)
      → (start memory procs threads fresh new_param files ≡ serving m')
        ⊎ (round memory procs threads fresh files m ≡ serving m')
      → (files.index_file.mtime ≤ m'.index.ts) × (files.param_file.mtime ≤ m'.param.ts)
  unfolding start round
  round-fresh new_param files m m' (inl e) =
      let (z, e₁) =
        go_on-serving memory procs threads fresh
          (load_target_map files.targeting_conf (new_memory new_param)) _ m' e in
      update_files-fresh files (load_target_map files.targeting_conf (new_memory new_param)).1 m' e₁
  round-fresh new_param files m m' (inr e) = update_files-fresh files m m' e

  -- Where the targets' configuration opens, and neither an index nor a file of parameters is there,
  -- the program starts all the same, since an update takes a missing file for one that is not newer;
  -- and the first query ends it.
  pub start-missing :
      (new_param : Param d) (files : Files) (lines : List (List ℕ))
      → files.targeting_conf ≡ some lines
      → files.index_file.mtime ≡ 0
      → files.param_file.mtime ≡ 0
      → (m : SharedMemory d) × (start memory procs threads fresh new_param files ≡ serving m)
        × ((write : d.Double → d.Double → d.Double → d.Double → d.Double → List ℕ) (qd : QueryData)
              (h : RequestHandler d)
            → process d write (get_target_id m) (get_index m) (get_param m) qd h ≡ some exited)
  unfolding start TargetMap.load process
  start-missing new_param files lines conf no_index no_param =
      let first = new_memory new_param in
      let m = record first { dict = (TargetMap.load first.dict (some lines)).1 } in
      let on = λ (m₁ : SharedMemory d).
        go_on memory procs threads fresh (update_param files.param_file m₁) serving in
      let index =
        update-missing files.index_file.mtime
          (load memory procs threads fresh files.index_file.text) clear m.index no_index in
      let param =
        update-missing files.param_file.mtime (Param.load d files.param_file.text) (Param.clear d)
          m.param no_param in
      (
        m,
        ap
              (λ c.
                go_on memory procs threads fresh (load_target_map c first)
                  (update_files memory procs threads fresh files))
              conf
            ∙ ap (λ u. go_on memory procs threads fresh (u.0, record m { index = u.1 }) on) index
            ∙ ap (λ u. go_on memory procs threads fresh (u.0, record m { param = u.1 }) serving)
                param,
        λ write qd h. refl,
      )
