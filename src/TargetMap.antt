-- ===== src/TargetMap.antt =====
-- src/target_map.cc: the numbers of the targets, by the names that the online and the offline side
-- have for them.
pub mod Load
use high_dimensional_flow_re.Base.{
  ℕ, zero, suc, ◌+◌, ◌-◌, ◌*◌, Bool, true, false, ◌&&◌, ◌||◌, Option, none, some, List, [], ◌∷◌,
  ltb, leb, ◌==◌, if◌then◌else◌, u32, length, get_or,
}
use high_dimensional_flow_re.Base.Ints.{ℤ, pos, negsuc}
use high_dimensional_flow_re.Base.Maps.{Map, find, put}
use high_dimensional_flow_re.Base.Decimal.{atoi}
use high_dimensional_flow_re.StringExt.{split}

pub record TargetMap : Type 0 where
  pub offline_dict : Map ℤ
  pub online_dict : Map ℤ

-- The character `CONFIG_SEPARATOR`, a tab, and the places of the fields.
abbrev pub config_separator : ℕ
config_separator = 9

abbrev pub config_fields_num : ℕ
config_fields_num = 4

abbrev pub config_offline_index : ℕ
config_offline_index = 1

abbrev pub config_online_index : ℕ
config_online_index = 2

abbrev pub config_bitmap_index : ℕ
config_bitmap_index = 3

-- The body of the loop of `Load`.
unfoldable pub load_line : TargetMap → List ℕ → TargetMap
load_line m line =
    let fields = split line config_separator in
    let index = atoi (get_or fields config_bitmap_index []) in
    if ltb (length fields) config_fields_num then m else record {
      offline_dict = put m.offline_dict (get_or fields config_offline_index []) index;
      online_dict = put m.online_dict (get_or fields config_online_index []) index;
    }

unfoldable pub load_lines : TargetMap → List (List ℕ) → TargetMap
load_lines m [] = m
load_lines m (line ∷ lines) = load_lines (load_line m line) lines

-- `Load`: `none` is a file that does not open, `some lines` what `getline` reads.
unfoldable pub load : TargetMap → Option (List (List ℕ)) → ℤ × TargetMap
load m none = (negsuc 0, record { offline_dict = []; online_dict = [] })
load m (some lines) = (pos 0, load_lines (record { offline_dict = []; online_dict = [] }) lines)

unfoldable pub query_online : TargetMap → List ℕ → ℤ
query_online m target = elim (find m.online_dict target) [ none ↦ negsuc 0 | some index ↦ index ]

pub query_offline : TargetMap → List ℕ → ℤ
query_offline m target = elim (find m.offline_dict target) [ none ↦ negsuc 0 | some index ↦ index ]

-- `GetSize`: a name stands once among the entries.
abbrev pub get_size : TargetMap → ℕ
get_size m = u32 (length m.offline_dict)
