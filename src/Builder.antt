-- ===== src/Builder.antt =====
-- src/builder.cc: from the lines of samples to the bitmaps of the index.
pub mod Regions
pub mod Runs
pub mod Fields
pub mod Made
pub mod Filled
pub mod Whole
pub mod Answers
use high_dimensional_flow_re.Base.{
  ℕ, zero, suc, ◌+◌, Bool, true, false, Option, none, some, List, [], ◌∷◌, ◌++◌, ltb, leb,
  if◌then◌else◌, ◌>>=◌, u32, length, get_or, map, not, ◌==◌,
}
use high_dimensional_flow_re.Base.Ints.{ℤ, pos, negsuc}
use high_dimensional_flow_re.Base.Maps.{Map, find, same, insert_new}
use high_dimensional_flow_re.Base.Decimal.{strtol, low_bits}
use high_dimensional_flow_re.StringExt.{split, substr}
use high_dimensional_flow_re.TargetMap.{TargetMap, load, query_offline, get_size}
use high_dimensional_flow_re.Index.{
  Index, add_pv_bid_bitmap, add_uv_bid_bitmap, add_uv_merge_bitmap,
}

abbrev pub region_length : ℕ
region_length = 6

-- The `while` loop of `ProcessRegion`, in which `begin` grows by a region each round.
unfoldable pub cut_from : ℕ → List ℕ → ℕ → List (List ℕ)
cut_from zero item begin = []
cut_from (suc fuel) item begin =
    let rest = cut_from fuel item (begin + region_length) in
    if ltb begin (length item) then substr item begin region_length ∷ rest else []

pub cut : List ℕ → List (List ℕ)
cut item = cut_from (length item) item 0

pub cut_all : List (List ℕ) → List (List ℕ)
cut_all [] = []
cut_all (item ∷ items) = cut item ++ cut_all items

pub process_region : List ℕ → List (List ℕ)
process_region region = cut_all (split region b',')

pub record PvInfo : Type 0 where
  pub psid : List ℕ
  pub request : ℕ
  pub pv : ℕ
  pub hourly_request : List ℕ
  pub hourly_pv : List ℕ
  pub hourly_ctr : List ℕ

pub record UvInfo : Type 0 where
  pub psid : List ℕ
  pub request : ℕ
  pub uv : ℕ

-- A number of 64 or of 32 bits from a field.
abbrev pub read64 : List ℕ → ℕ
read64 field = low_bits 64 (strtol field)

abbrev pub read32 : List ℕ → ℕ
read32 field = low_bits 32 (strtol field)

-- The three functions `ParseLine`; `none` is the result false. `read_float` is `strtod` and the
-- conversion to a `float`, given by the word of its bytes.
pub parse_pv_info : (List ℕ → ℕ) → List ℕ → Option PvInfo
parse_pv_info read_float line =
    let items = split line b'\t' in
    if ltb (length items) 7
    then none
    else some (record {
      psid = get_or items 0 [];
      request = read64 (get_or items 1 []);
      pv = read64 (get_or items 2 []);
      hourly_request = map read32 (split (get_or items 4 []) b',');
      hourly_pv = map read32 (split (get_or items 5 []) b',');
      hourly_ctr = map read_float (split (get_or items 6 []) b',');
    })

pub parse_uv_info : List ℕ → Option UvInfo
parse_uv_info line =
    let items = split line b'\t' in
    if ltb (length items) 3
    then none
    else some (record {
      psid = get_or items 0 [];
      request = read64 (get_or items 1 []);
      uv = read64 (get_or items 2 []);
    })

-- `if (map.QueryOffline(name) >= 0) targets.push_back(...);`, over the names of a field.
abbrev pub push_known : ℤ → List ℕ → List ℕ
push_known (pos index) targets = u32 index ∷ targets
push_known (negsuc n) targets = targets

pub known_targets : TargetMap → List (List ℕ) → List ℕ
known_targets m [] = []
known_targets m (name ∷ names) = push_known (query_offline m name) (known_targets m names)

-- The bid: at most what 16 bits hold, and the low bits of a number below zero.
abbrev pub clamp_bid : ℤ → ℕ
clamp_bid (pos num) = if ltb 0xFFFF num then 0xFFFF else low_bits 16 (pos num)
clamp_bid (negsuc n) = low_bits 16 (negsuc n)

pub record Sample : Type 0 where
  pub psid : List ℕ
  pub targets : List ℕ
  pub bid : ℕ

pub parse_sample : TargetMap → List ℕ → Option Sample
parse_sample m line =
    let items = split line b'\t' in
    let field : ℕ → List ℕ = λ i. get_or items i [] in
    if ltb (length items) 9
    then none
    else some (record {
      psid = field 2;
      targets =
          known_targets m (split (field 1) b',')
          ++ (known_targets m (split (field 3) b',')
              ++ (known_targets m (split (field 4) b',')
                  ++ (known_targets m (split (field 5) b',')
                      ++ known_targets m (process_region (field 6)))));
      bid = clamp_bid (strtol (field 7));
    })

-- The loops of `ProcessPvMap` and of `ProcessUvMap`, which differ in the information on an ad
-- position and in the call that adds its bitmap; the result of the call is not looked at.
module _ {Info : Type 0} where
  -- The loop over the lines of information: the first line on a psid counts.
  pub read_infos : (List ℕ → Option Info) → (Info → List ℕ) → Map Info → List (List ℕ) → Map Info
  read_infos parse psid_of infos [] = infos
  read_infos parse psid_of infos (line ∷ lines) = elim (parse line) [
    | none ↦ read_infos parse psid_of infos lines
    | some info ↦ read_infos parse psid_of (insert_new infos (psid_of info) info) lines
  ]

  -- `add psid info targets bids index`.
  module _ (add : List ℕ → Info → List (List ℕ) → List ℕ → Index → Option Index)
      (infos : Map Info) where
    abbrev pub flush_found : Option Info → List ℕ → List (List ℕ) → List ℕ → Index → Option Index
    flush_found none psid targets bids index = some index
    flush_found (some info) psid targets bids index = add psid info targets bids index

    -- The samples of the psid so far, at the end of their run.
    abbrev pub flush : List ℕ → List (List ℕ) → List ℕ → Index → Option Index
    flush psid [] bids index = some index
    flush psid (target ∷ targets) bids index =
        flush_found (find infos psid) psid (target ∷ targets) bids index

    -- The loop over the samples that parse, and the last run.
    unfoldable pub add_samples :
        List Sample → List ℕ → List (List ℕ) → List ℕ → Index → Option Index
    add_samples [] last_psid targets bids index = flush last_psid targets bids index
    add_samples (s ∷ samples) last_psid targets bids index = elim (same s.psid last_psid) [
      | true ↦
          add_samples samples last_psid (targets ++ (s.targets ∷ [])) (bids ++ (s.bid ∷ [])) index
      | false ↦
          flush last_psid targets bids index
          >>= add_samples samples s.psid (s.targets ∷ []) (s.bid ∷ [])
    ]

pub parse_samples : TargetMap → List (List ℕ) → List Sample
parse_samples m [] = []
parse_samples m (line ∷ lines) = elim (parse_sample m line) [
  | none ↦ parse_samples m lines
  | some sample ↦ sample ∷ parse_samples m lines
]

-- What is fixed of the program: whether `new` finds memory, the processors, the flag
-- `bitmap_parallel_threads`, and the reading of a `float`.
module _ (memory : Bool) (procs threads : ℕ) (read_float : List ℕ → ℕ) (m : TargetMap) where
  abbrev pub add_pv : List ℕ → PvInfo → List (List ℕ) → List ℕ → Index → Option Index
  add_pv psid info targets bids index =
      add_pv_bid_bitmap memory procs threads psid info.request info.pv info.hourly_request
        info.hourly_pv info.hourly_ctr targets bids (get_size m) index
      >>= λ (code, index'). some index'

  abbrev pub add_uv : List ℕ → UvInfo → List (List ℕ) → List ℕ → Index → Option Index
  add_uv psid info targets bids index =
      add_uv_bid_bitmap memory procs threads psid info.request info.uv targets bids (get_size m)
        index
      >>= λ (code, index'). some index'

  -- A file is `none` where it does not open, and else the lines that `getline` reads.
  pub process_pv_map : Option (List (List ℕ)) → Option (List (List ℕ)) → Index → Option (ℤ × Index)
  process_pv_map (some sample) (some info) index =
      add_samples add_pv (read_infos (parse_pv_info read_float) (λ i. i.psid) [] info)
        (parse_samples m sample) [] [] [] index
      >>= λ index'. some (pos 0, index')
  process_pv_map _ _ index = some (negsuc 0, index)

  pub process_uv_map : Option (List (List ℕ)) → Option (List (List ℕ)) → Index → Option (ℤ × Index)
  process_uv_map (some sample) (some info) index =
      add_samples add_uv (read_infos parse_uv_info (λ i. i.psid) [] info) (parse_samples m sample)
        [] [] [] index
      >>= λ index'. some (pos 0, index')
  process_uv_map _ _ index = some (negsuc 0, index)

  -- The loop of `ProcessUvMergeMap`.
  unfoldable pub merge_samples : List (List ℕ) → List (List (List ℕ))
  merge_samples [] = []
  merge_samples (line ∷ lines) =
      let items = split line b'\t' in
      let rest = merge_samples lines in
      if ltb (length items) 2 then rest else split (get_or items 1 []) b',' ∷ rest

  pub process_uv_merge_map : Option (List (List ℕ)) → Index → Option (ℤ × Index)
  process_uv_merge_map none index = some (negsuc 0, index)
  process_uv_merge_map (some lines) index =
      add_uv_merge_bitmap memory procs threads (merge_samples lines) index

abbrev is_zero : ℤ → Bool
is_zero (pos n) = n == 0
is_zero (negsuc n) = false

-- `main` up to the dump: the files are those that the flags name. `some none` is the exit where the
-- configuration of the targets does not open.
pub build_index :
    Bool
    → ℕ
    → ℕ
    → (List ℕ → ℕ)
    → (conf pv_sample pv_info uv_sample uv_info uv_merge : Option (List (List ℕ)))
    → Option (Option Index)
build_index memory procs threads read_float conf pv_sample pv_info uv_sample uv_info uv_merge =
    let (code, m) = load (record { offline_dict = []; online_dict = [] }) conf in
    let index : Index = record { pv_map = []; uv_map = []; uv_merge_map = none } in
    if not (is_zero code)
    then some none
    else (process_pv_map memory procs threads read_float m pv_sample pv_info index >>= λ r₁.
        process_uv_map memory procs threads read_float m uv_sample uv_info r₁.1 >>= λ r₂.
        process_uv_merge_map memory procs threads read_float m uv_merge r₂.1 >>= λ r₃.
        some (some r₃.1))
