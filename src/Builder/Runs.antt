-- ===== src/Builder/Runs.antt =====
-- The grouping of the samples in src/builder.cc against the runs of samples with one psid.
use mathlib.Core.Path.{ap₂}
use high_dimensional_flow_re.Base.{
  ℕ, ◌≡◌, refl, ap, sym, ◌∙◌, true, false, Option, none, some, List, [], ◌∷◌, ◌++◌, append_assoc,
  if◌then◌else◌, ◌>>=◌, Bool-cases, inl, inr,
}
use high_dimensional_flow_re.Base.Maps.{Map, find, same, same_sound, same_refl}
use high_dimensional_flow_re.Index.{Index}
use high_dimensional_flow_re.Builder.{Sample, flush_found, add_samples}

-- Samples of one ad position, one behind the other.
pub record Run : Type 0 where
  pub psid : List ℕ
  pub targets : List (List ℕ)
  pub bids : List ℕ

-- A sample before the runs of those behind it.
unfoldable pub join_run : Sample → List Run → List Run
join_run s [] = record { psid = s.psid; targets = s.targets ∷ []; bids = s.bid ∷ [] } ∷ []
join_run s (r ∷ runs) =
    if same r.psid s.psid
    then record r { targets = s.targets ∷ r.targets; bids = s.bid ∷ r.bids } ∷ runs
    else record { psid = s.psid; targets = s.targets ∷ []; bids = s.bid ∷ [] } ∷ r ∷ runs

unfoldable pub runs_of : List Sample → List Run
runs_of [] = []
runs_of (s ∷ samples) = join_run s (runs_of samples)

-- The open run before the runs of the samples behind it.
extend : List ℕ → List (List ℕ) → List ℕ → List Run → List Run
extend psid targets bids [] = record { psid = psid; targets = targets; bids = bids } ∷ []
extend psid targets bids (r ∷ runs) =
    if same r.psid psid
    then record r { targets = targets ++ r.targets; bids = bids ++ r.bids } ∷ runs
    else record { psid = psid; targets = targets; bids = bids } ∷ r ∷ runs

-- A sample that belongs to the open run, one that ends it, and one that opens a run.
extend-join_run-same :
    (s : Sample) (psid : List ℕ) (targets : List (List ℕ)) (bids : List ℕ) (runs : List Run)
    → same s.psid psid ≡ true
    → extend psid targets bids (join_run s runs)
      ≡ extend psid (targets ++ (s.targets ∷ [])) (bids ++ (s.bid ∷ [])) runs
unfolding extend join_run
extend-join_run-same s psid targets bids [] e =
    rw (← same_sound s.psid psid e, same_refl s.psid) refl
extend-join_run-same s psid targets bids (r ∷ runs) e = elim (Bool-cases (same r.psid s.psid)) [
  | inl joins ↦
      let joins' : same r.psid psid ≡ true = rw (← same_sound s.psid psid e) joins in
      rw (joins, extend, joins')
        (ap₂ (λ t b. record r { targets = t; bids = b } ∷ runs)
          (sym (append_assoc targets (s.targets ∷ []) r.targets))
          (sym (append_assoc bids (s.bid ∷ []) r.bids)))
  | inr other ↦ rw (← same_sound s.psid psid e, other, same_refl s.psid) refl
]

extend-join_run_other :
    (s : Sample) (psid : List ℕ) (targets : List (List ℕ)) (bids : List ℕ) (runs : List Run)
    → same s.psid psid ≡ false
    → extend psid targets bids (join_run s runs)
      ≡ record { psid = psid; targets = targets; bids = bids } ∷ join_run s runs
unfolding extend join_run
extend-join_run_other s psid targets bids [] e = rw e refl
extend-join_run_other s psid targets bids (r ∷ runs) e = elim (Bool-cases (same r.psid s.psid)) [
  | inl joins ↦ rw (joins, same_sound r.psid s.psid joins, e) refl
  | inr other ↦ rw (other, e) refl
]

join_run-extend :
    (s : Sample) (runs : List Run)
    → join_run s runs ≡ extend s.psid (s.targets ∷ []) (s.bid ∷ []) runs
unfolding extend join_run
join_run-extend s [] = refl
join_run-extend s (r ∷ runs) = elim (Bool-cases (same r.psid s.psid)) [
  | inl joins ↦ rw joins refl
  | inr other ↦ rw other refl
]

module _ {Info : Type 0} (add : List ℕ → Info → List (List ℕ) → List ℕ → Index → Option Index)
    (infos : Map Info) where
  -- Each run whose ad position has information is added, in order.
  abbrev pub add_runs : List Run → Index → Option Index
  add_runs [] index = some index
  add_runs (r ∷ runs) index =
      flush_found add infos (find infos r.psid) r.psid r.targets r.bids index >>= add_runs runs

  ends : (m : Option Index) → m ≡ (m >>= add_runs [])
  ends none = refl
  ends (some index) = refl

  bind_ext :
      (m : Option Index) (f g : Index → Option Index)
      → ((index : Index) → f index ≡ g index)
      → (m >>= f) ≡ (m >>= g)
  bind_ext none f g h = refl
  bind_ext (some index) f g h = h index

  -- With a run open, of which a sample has been read.
  add_samples-extend :
      (samples : List Sample) (psid target : List ℕ) (targets : List (List ℕ)) (bids : List ℕ)
      (index : Index)
      → add_samples add infos samples psid (target ∷ targets) bids index
        ≡ add_runs (extend psid (target ∷ targets) bids (runs_of samples)) index
  unfolding add_samples extend runs_of
  add_samples-extend [] psid target targets bids index =
      ends (flush_found add infos (find infos psid) psid (target ∷ targets) bids index)
  add_samples-extend (s ∷ samples) psid target targets bids index =
      elim (Bool-cases (same s.psid psid)) [
        | inl joins ↦
            rw (add_samples, joins)
              (add_samples-extend samples psid target (targets ++ (s.targets ∷ []))
                  (bids ++ (s.bid ∷ [])) index
                ∙ ap (λ runs. add_runs runs index)
                    (sym (
                      extend-join_run-same s psid (target ∷ targets) bids (runs_of samples) joins)))
        | inr other ↦
            rw (add_samples, other)
              (bind_ext (flush_found add infos (find infos psid) psid (target ∷ targets) bids index)
                  (add_samples add infos samples s.psid (s.targets ∷ []) (s.bid ∷ []))
                  (add_runs (join_run s (runs_of samples)))
                  (λ after.
                    add_samples-extend samples s.psid s.targets [] (s.bid ∷ []) after
                    ∙ ap (λ runs. add_runs runs after) (sym (join_run-extend s (runs_of samples))))
                ∙ ap (λ runs. add_runs runs index)
                    (sym (
                      extend-join_run_other s psid (target ∷ targets) bids (runs_of samples)
                        other)))
      ]

  pub add_samples-runs_of :
      (samples : List Sample) (index : Index)
      → add_samples add infos samples [] [] [] index ≡ add_runs (runs_of samples) index
  unfolding add_samples runs_of
  add_samples-runs_of [] index = refl
  add_samples-runs_of (s ∷ samples) index =
      let started =
        add_samples-extend samples s.psid s.targets [] (s.bid ∷ []) index
        ∙ ap (λ runs. add_runs runs index) (sym (join_run-extend s (runs_of samples))) in
      elim (Bool-cases (same s.psid [])) [
        | inl unnamed ↦
            rw (add_samples, unnamed)
              (ap (λ psid. add_samples add infos samples psid (s.targets ∷ []) (s.bid ∷ []) index)
                  (sym (same_sound s.psid [] unnamed))
                ∙ started)
        | inr named ↦ rw (add_samples, named) started
      ]
