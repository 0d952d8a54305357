-- ===== src/Builder/Made.antt =====
-- src/builder.cc fills the index with bitmaps that can be stored.
use high_dimensional_flow_re.Base.{
  ℕ, suc, ◌*◌, ◌≤◌, ◌<◌, ◌^◌, ◌≡◌, refl, ap, ◌∙◌, Option, none, some, List, [], ◌∷◌, arith, length,
  All, All-imp, ◌>>=◌, Bool-cases, inl, inr,
}
use high_dimensional_flow_re.Base.Maps.{Map, find, same}
use high_dimensional_flow_re.Bitmap.{Header, row_width}
use high_dimensional_flow_re.Bitmap.Generate.{header_for}
use high_dimensional_flow_re.BidBitmap.{BidBitmap}
use high_dimensional_flow_re.BidBitmap.Storable.{IsInput}
use high_dimensional_flow_re.Index.{Index}
use high_dimensional_flow_re.StringExt.Fields.{IsText}
use high_dimensional_flow_re.TargetMap.{TargetMap}
use high_dimensional_flow_re.Builder.{Sample, flush_found, add_samples, parse_samples}
use high_dimensional_flow_re.Builder.Fields.{
  OnSome, IsFitSample, AllFit, find-AllFit, parse_samples-IsFitSample,
}
use high_dimensional_flow_re.Builder.Runs.{Run, join_run, runs_of, add_runs, add_samples-runs_of}

-- A run of at most so many samples, with a bid of 16 bits for each.
pub record IsFitRun (most : ℕ) (r : Run) : Type 0 where
  pub name : IsText r.psid
  pub some_sample : 0 < length r.targets
  pub few : length r.targets ≤ most
  pub short : All (λ p. p < 2 ^ 16) r.bids

longer : (most : ℕ) (r : Run) → IsFitRun most r → IsFitRun (suc most) r
longer most r h = record {
  name = h.name;
  some_sample = h.some_sample;
  few = omega (arith, h.few);
  short = h.short;
}

join_run-IsFitRun :
    (most : ℕ) (s : Sample) (runs : List Run)
    → IsFitSample s
    → All (IsFitRun most) runs
    → All (IsFitRun (suc most)) (join_run s runs)
unfolding join_run
join_run-IsFitRun most s [] fit h = (
  record {
    name = fit.name;
    some_sample = omega arith;
    few = omega arith;
    short = (fit.bid_fits, tt);
  },
  tt,
)
join_run-IsFitRun most s (r ∷ runs) fit h = elim (Bool-cases (same r.psid s.psid)) [
  | inl joins ↦ rw joins (
    record {
      name = h.0.name;
      some_sample = omega arith;
      few = omega (arith, h.0.few);
      short = (fit.bid_fits, h.0.short);
    },
    All-imp runs (longer most) h.1,
  )
  | inr other ↦ rw other (
    record {
      name = fit.name;
      some_sample = omega arith;
      few = omega arith;
      short = (fit.bid_fits, tt);
    },
    All-imp (r ∷ runs) (longer most) h,
  )
]

runs_of-IsFitRun :
    (samples : List Sample)
    → All IsFitSample samples
    → All (IsFitRun (length samples)) (runs_of samples)
unfolding runs_of
runs_of-IsFitRun [] h = tt
runs_of-IsFitRun (s ∷ samples) h =
    join_run-IsFitRun (length samples) s (runs_of samples) h.0 (runs_of-IsFitRun samples h.1)

-- The runs of the samples of a file.
pub parsed-IsFitRun :
    (m : TargetMap) (most : ℕ) (lines : List (List ℕ))
    → All IsText lines
    → length lines ≤ most
    → All (IsFitRun most) (runs_of (parse_samples m lines))
parsed-IsFitRun m most lines texts bounded =
    let (fit, few) = parse_samples-IsFitSample m lines texts in
    All-imp (runs_of (parse_samples m lines))
      (λ r h. record {
        name = h.name;
        some_sample = h.some_sample;
        few = omega (arith, h.few, few, bounded);
        short = h.short;
      })
      (runs_of-IsFitRun (parse_samples m lines) fit)

-- The lines of samples, at most so many, and the number of targets: so few that no size wraps.
pub record IsSource (targets most : ℕ) (lines : List (List ℕ)) : Type 0 where
  pub texts : All IsText lines
  pub some_target : 0 < targets
  pub bounded : length lines ≤ most
  pub few : most < 2 ^ 32
  pub small : row_width most * targets < 2 ^ 32

pub row_width_mono : (m n : ℕ) → m ≤ n → row_width m ≤ row_width n
row_width_mono m n h = ground (arith, h)

mul_mono : (m n k : ℕ) → m ≤ n → m * k ≤ n * k
mul_mono m n k h = grind arith

pub IsFitRun-IsInput :
    (targets most : ℕ) (lines : List (List ℕ)) (r : Run)
    → IsSource targets most lines
    → IsFitRun most r
    → IsInput r.targets r.bids targets
IsFitRun-IsInput targets most lines r source h = record {
  some_sample = h.some_sample;
  some_target = source.some_target;
  few = omega (arith, h.few, source.few);
  small = omega (
    arith,
    mul_mono (row_width (length r.targets)) (row_width most) targets
        (row_width_mono (length r.targets) most h.few),
    source.small,
  );
  short = h.short;
}

-- A row for each target, and columns for at most so many samples.
pub record IsSized (targets most : ℕ) (b : BidBitmap) : Type 0 where
  pub height : b.height ≡ targets
  pub narrow : b.width ≤ row_width most
  pub holds : b.size ≤ 8 * b.width

row_width-holds : (n : ℕ) → n ≤ 8 * row_width n
row_width-holds n = ground arith

pub header-IsSized :
    (targets most n : ℕ) (b : BidBitmap)
    → n ≤ most
    → b.header ≡ header_for n targets
    → IsSized targets most b
header-IsSized targets most n b h e = record {
  height = ap (λ (head : Header). head.height) e;
  narrow = rw e (row_width_mono n most h);
  holds = rw e (row_width-holds n);
}

-- Additions that return and keep a property of the index, one for each run.
module _ {Info : Type 0} (IsFit : Info → Type 0) (Good : Run → Type 0) (P : Index → Type 0)
    (add : List ℕ → Info → List (List ℕ) → List ℕ → Index → Option Index)
    (adds : (r : Run) (info : Info) (ix : Index)
      → Good r
      → IsFit info
      → P ix
      → (after : Index) × (add r.psid info r.targets r.bids ix ≡ some after) × P after) where
  Kept : Option Index → Type 0
  Kept result = (after : Index) × (result ≡ some after) × P after

  flush_found-Kept :
      (infos : Map Info) (found : Option Info) (r : Run) (ix : Index)
      → OnSome IsFit found
      → Good r
      → P ix
      → Kept (flush_found add infos found r.psid r.targets r.bids ix)
  unfolding Kept
  flush_found-Kept infos none r ix fit good p = (ix, refl, p)
  flush_found-Kept infos (some info) r ix fit good p = adds r info ix good fit p

  add_runs-Kept :
      (infos : Map Info) (runs : List Run) (ix : Index)
      → AllFit IsFit infos
      → All Good runs
      → P ix
      → Kept (add_runs add infos runs ix)
  unfolding Kept
  add_runs-Kept infos [] ix fit good p = (ix, refl, p)
  add_runs-Kept infos (r ∷ runs) ix fit good p =
      let (after, e, p') =
        flush_found-Kept infos (find infos r.psid) r ix (find-AllFit IsFit infos r.psid fit) good.0
          p in
      let (last, e', p'') = add_runs-Kept infos runs after fit good.1 p' in
      (last, ap (λ o. o >>= add_runs add infos runs) e ∙ e', p'')

  pub add_samples-Kept :
      (infos : Map Info) (samples : List Sample) (ix : Index)
      → AllFit IsFit infos
      → All Good (runs_of samples)
      → P ix
      → (after : Index) × (add_samples add infos samples [] [] [] ix ≡ some after) × P after
  unfolding Kept
  add_samples-Kept infos samples ix fit good p =
      let (after, e, p') = add_runs-Kept infos (runs_of samples) ix fit good p in
      (after, add_samples-runs_of add infos samples ix ∙ e, p')
