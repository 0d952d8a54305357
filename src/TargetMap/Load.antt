-- ===== src/TargetMap/Load.antt =====
-- `Load` of src/target_map.cc with the queries.
use high_dimensional_flow_re.Base.{
  ℕ, ◌≡◌, refl, ap, ◌∙◌, Option, none, some, List, [], ◌∷◌, ltb, if◌then◌else◌, length, get_or,
  Bool-cases, Option-cases, inl, inr,
}
use high_dimensional_flow_re.Base.Ints.{ℤ, negsuc}
use high_dimensional_flow_re.Base.Maps.{
  Map, find, put, same, same_sound, find-put_self, find-put_other,
}
use high_dimensional_flow_re.Base.Decimal.{atoi}
use high_dimensional_flow_re.Base.OrElse.{or_else, or_else_assoc, or_else-none}
use high_dimensional_flow_re.StringExt.{split}
use high_dimensional_flow_re.TargetMap.{
  TargetMap, config_separator, config_fields_num, config_offline_index, config_online_index,
  config_bitmap_index, load_line, load_lines, load, query_online, query_offline,
}

-- The number that a line gives to a target whose name stands in the field `place`.
abbrev pub given : ℕ → List ℕ → List ℕ → Option ℤ
given place target line =
    let fields = split line config_separator in
    if ltb (length fields) config_fields_num
    then none
    else (if same (get_or fields place []) target
        then some (atoi (get_or fields config_bitmap_index []))
        else none)

-- What the last line that names the target gives.
abbrev pub last_given : ℕ → List ℕ → List (List ℕ) → Option ℤ
last_given place target [] = none
last_given place target (line ∷ lines) =
    or_else (last_given place target lines) (given place target line)

abbrev pub or_missing : Option ℤ → ℤ
or_missing none = negsuc 0
or_missing (some n) = n

find-put :
    (d : Map ℤ) (key target : List ℕ) (v : ℤ)
    → find (put d key v) target ≡ or_else (if same key target then some v else none) (find d target)
find-put d key target v = elim (Bool-cases (same key target)) [
  | inl here ↦ rw here (rw (same_sound key target here) (find-put_self d target v))
  | inr other ↦ rw other (find-put_other d key target v other)
]

load_line-online :
    (m : TargetMap) (line target : List ℕ)
    → find (load_line m line).online_dict target
      ≡ or_else (given config_online_index target line) (find m.online_dict target)
unfolding load_line
load_line-online m line target =
    elim (Bool-cases (ltb (length (split line config_separator)) config_fields_num)) [
      | inl short ↦ rw (load_line, short) refl
      | inr long ↦
          rw (load_line, long)
            (find-put m.online_dict (get_or (split line config_separator) config_online_index [])
              target (atoi (get_or (split line config_separator) config_bitmap_index [])))
    ]

load_line-offline :
    (m : TargetMap) (line target : List ℕ)
    → find (load_line m line).offline_dict target
      ≡ or_else (given config_offline_index target line) (find m.offline_dict target)
unfolding load_line
load_line-offline m line target =
    elim (Bool-cases (ltb (length (split line config_separator)) config_fields_num)) [
      | inl short ↦ rw (load_line, short) refl
      | inr long ↦
          rw (load_line, long)
            (find-put m.offline_dict (get_or (split line config_separator) config_offline_index [])
              target (atoi (get_or (split line config_separator) config_bitmap_index [])))
    ]

module _ (dict : TargetMap → Map ℤ) (place : ℕ)
    (step : (m : TargetMap) (line target : List ℕ)
      → find (dict (load_line m line)) target
        ≡ or_else (given place target line) (find (dict m) target)) where
  load_lines-find :
      (m : TargetMap) (lines : List (List ℕ)) (target : List ℕ)
      → find (dict (load_lines m lines)) target
        ≡ or_else (last_given place target lines) (find (dict m) target)
  unfolding load_lines
  load_lines-find m [] target = refl
  load_lines-find m (line ∷ lines) target =
      load_lines-find (load_line m line) lines target
      ∙ ap (or_else (last_given place target lines)) (step m line target)
      ∙ or_else_assoc (last_given place target lines) (given place target line)
          (find (dict m) target)

query_online-missing :
    (m : TargetMap) (target : List ℕ)
    → query_online m target ≡ or_missing (find m.online_dict target)
unfolding query_online
query_online-missing m target = elim (Option-cases (find m.online_dict target)) [
  | inl e ↦ rw (query_online, e) refl
  | inr (n, e) ↦ rw (query_online, e) refl
]

query_offline-missing :
    (m : TargetMap) (target : List ℕ)
    → query_offline m target ≡ or_missing (find m.offline_dict target)
unfolding query_offline
query_offline-missing m target = elim (Option-cases (find m.offline_dict target)) [
  | inl e ↦ rw (query_offline, e) refl
  | inr (n, e) ↦ rw (query_offline, e) refl
]

-- After `Load` of a file, whatever was loaded before, the queries answer a target with the number
-- of the last line of four fields or more that names it on their side, and -1 if none does. The
-- number of a field is what `atoi` makes of it: an `int`, which is what `strtol` reads, cut to its
-- low 32 bits.
pub load_queries :
    (m : TargetMap) (lines : List (List ℕ)) (target : List ℕ)
    → let loaded = (load m (some lines)).1 in
      (query_online loaded target ≡ or_missing (last_given config_online_index target lines))
      × (query_offline loaded target ≡ or_missing (last_given config_offline_index target lines))
unfolding load
load_queries m lines target =
    let empty : TargetMap = record { offline_dict = []; online_dict = [] } in
    let loaded = load_lines empty lines in
    (
      query_online-missing loaded target
          ∙ ap or_missing (
              load_lines-find (λ t. t.online_dict) config_online_index load_line-online empty lines
                target
              ∙ or_else-none (last_given config_online_index target lines)),
      query_offline-missing loaded target
          ∙ ap or_missing (
              load_lines-find (λ t. t.offline_dict) config_offline_index load_line-offline empty
                lines target
              ∙ or_else-none (last_given config_offline_index target lines)),
    )
