-- ===== src/Service/Serving.antt =====
-- What the memory of src/service.cc holds while the program serves.
use mathlib.Core.Path.{subst}
use high_dimensional_flow_re.Base.{
  ℕ, zero, suc, ◌≡◌, ◌⊎◌, inl, inr, refl, ap, sym, ◌∙◌, Bool, not, Option, some, List, leb,
  Bool-cases,
}
use high_dimensional_flow_re.Base.Ints.{ℤ, pos, negsuc}
use high_dimensional_flow_re.Numbers.{Numbers}
use high_dimensional_flow_re.UvMergeBitmap.{UvMergeBitmap}
use high_dimensional_flow_re.Param.{Param}
use high_dimensional_flow_re.Param
use high_dimensional_flow_re.Index.{Index, clear}
use high_dimensional_flow_re.Index.Files.{load}
use high_dimensional_flow_re.Index.Merged.{loaded-HasMerged}
use high_dimensional_flow_re.SharedMemory.{Buffers, slot, get, update}
use high_dimensional_flow_re.SharedMemory.Update.{observed, outcome, update_lem}
use high_dimensional_flow_re.SharedMemory.Memory.{
  SharedMemory, Source, new_index, new_memory, get_index, get_param, load_target_map, update_index,
  update_param,
}
use high_dimensional_flow_re.Service.{
  Files, Running, serving, go_on, update_files, start, round, Serves, started, again,
}

-- What an update that has returned 0 leaves in use: what was, or what a load has left that has
-- returned 0.
module _ {A : Type 0} where
  abbrev pub IsUpdated : (A → ℤ × A) → Buffers A → Buffers A → Type 0
  IsUpdated load before after =
      (get after ≡ get before) ⊎ ((old : A) × (load old ≡ (pos 0, get after)))

  outcome-IsUpdated :
      (mtime : ℕ) (load : A → ℤ × A) (clear : A → A) (m after : Buffers A) (code : ℤ) (old : A)
      (r : ℤ × A)
      → load old ≡ r
      → observed (code, after) ≡ outcome mtime clear m r
      → code ≡ pos 0
      → IsUpdated load m after
  outcome-IsUpdated mtime load clear m after code old (pos zero, a) e h z =
      inr (old, e ∙ ap (λ o. (pos 0, o)) (sym (ap (λ t. t.1) h)))
  outcome-IsUpdated mtime load clear m after code old (pos (suc n), a) e h z = inl (ap (λ t. t.1) h)
  outcome-IsUpdated mtime load clear m after code old (negsuc n, a) e h z = inl (ap (λ t. t.1) h)

  pub update-IsUpdated :
      (mtime : ℕ) (load : A → ℤ × A) (clear : A → A) (m : Buffers A)
      → (update mtime load clear m).0 ≡ pos 0
      → IsUpdated load m (update mtime load clear m).1
  update-IsUpdated mtime load clear m z =
      let lem = update_lem mtime load clear m in
      elim (Bool-cases (leb mtime m.ts)) [
        | inl current ↦ inl (ap (λ t. t.1) (rw current at lem))
        | inr newer ↦
            outcome-IsUpdated mtime load clear m (update mtime load clear m).1
              (update mtime load clear m).0 (slot m (not m.flag)) (load (slot m (not m.flag))) refl
              (rw newer at lem) z
      ]

module _ (memory : Bool) (procs threads : ℕ) (fresh : ℕ → List ℕ) {d : Numbers} where
  pub go_on-serving :
      (r : ℤ × SharedMemory d) (k : SharedMemory d → Running d) (m : SharedMemory d)
      → go_on memory procs threads fresh r k ≡ serving m
      → (r.0 ≡ pos 0) × (k r.1 ≡ serving m)
  go_on-serving (pos zero, m') k m e = (refl, e)
  go_on-serving (pos (suc n), m') k m e = absurd (cc)
  go_on-serving (negsuc n, m') k m e = absurd (cc)

  pub serving-injective : (m m' : SharedMemory d) → serving m ≡ serving m' → m ≡ m'
  serving-injective m m' e = cc

  -- The index in use is that of a new memory, or one that a load has left that has returned 0, with
  -- a bitmap of visitors; so too the parameters.
  pub record IsServing (new_param : Param d) (m : SharedMemory d) : Type 0 where
    pub index_whole :
        (get_index m ≡ new_index)
        ⊎ ((file : Option (List ℕ)) × (old : Index) × (b : UvMergeBitmap) × (load memory procs
                threads fresh file old
              ≡ (pos 0, get_index m))
            × ((get_index m).uv_merge_map ≡ some b))
    pub param_whole :
        (get_param m ≡ new_param)
        ⊎ ((file : Option (List (List ℕ))) × (old : Param d) × (Param.load d file old
              ≡ (pos 0, get_param m)))

  index_updated :
      (new_param : Param d) (file : Source (List ℕ)) (m : SharedMemory d)
      → IsServing new_param m
      → (update_index memory procs threads fresh file m).0 ≡ pos 0
      → IsServing new_param (update_index memory procs threads fresh file m).1
  index_updated new_param file m h z =
      elim (update-IsUpdated file.mtime (load memory procs threads fresh file.text) clear m.index
        z) [
          | inl same ↦ record {
            index_whole = elim (h.index_whole) [
              | inl new ↦ inl (same ∙ new)
              | inr (text, old, b, e, found) ↦ inr (
                text,
                old,
                b,
                e ∙ ap (λ ix. (pos 0, ix)) (sym same),
                ap (λ (ix : Index). ix.uv_merge_map) same ∙ found,
              )
            ];
            param_whole = h.param_whole;
          }
          | inr (old, e) ↦
              let (b, found) = loaded-HasMerged memory procs threads fresh file.text old _ e in
              record {
                index_whole = inr (file.text, old, b, e, found);
                param_whole = h.param_whole;
              }
        ]

  param_updated :
      (new_param : Param d) (file : Source (List (List ℕ))) (m : SharedMemory d)
      → IsServing new_param m
      → (update_param file m).0 ≡ pos 0
      → IsServing new_param (update_param file m).1
  param_updated new_param file m h z =
      elim (update-IsUpdated file.mtime (Param.load d file.text) (Param.clear d) m.param z) [
        | inl same ↦ record {
          index_whole = h.index_whole;
          param_whole = elim (h.param_whole) [
            | inl new ↦ inl (same ∙ new)
            | inr (text, old, e) ↦ inr (text, old, e ∙ ap (λ p. (pos 0, p)) (sym same))
          ];
        }
        | inr (old, e) ↦ record {
          index_whole = h.index_whole;
          param_whole = inr (file.text, old, e);
        }
      ]

  update_files-IsServing :
      (new_param : Param d) (files : Files) (m m' : SharedMemory d)
      → IsServing new_param m
      → update_files memory procs threads fresh files m ≡ serving m'
      → IsServing new_param m'
  update_files-IsServing new_param files m m' h e =
      let (z, e₁) =
        go_on-serving (update_index memory procs threads fresh files.index_file m) _ m' e in
      let m₁ = (update_index memory procs threads fresh files.index_file m).1 in
      let (z', e₂) = go_on-serving (update_param files.param_file m₁) serving m' e₁ in
      let last =
        param_updated new_param files.param_file m₁ (index_updated new_param files.index_file m h z)
          z' in
      subst (IsServing new_param) (serving-injective _ m' e₂) last

  -- While the program serves, whatever the files are in each round, the index in use is empty as at
  -- the start, or one that a load has left that has returned 0, which has a bitmap of visitors,
  -- without which `Process` ends the program. The parameters in use are those of a new object, or a
  -- load has left them that has returned 0.
  pub Serves-IsServing :
      (new_param : Param d) (m : SharedMemory d)
      → Serves memory procs threads fresh new_param m
      → IsServing new_param m
  unfolding start round
  Serves-IsServing new_param m (started m' files e) =
      let (z, e₁) =
        go_on-serving (load_target_map files.targeting_conf (new_memory new_param)) _ m e in
      update_files-IsServing new_param files _ m
        (record { index_whole = inl refl; param_whole = inl refl }) e₁
  Serves-IsServing new_param m (again before m' files s e) =
      update_files-IsServing new_param files before m (Serves-IsServing new_param before s) e
