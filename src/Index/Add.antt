-- ===== src/Index/Add.antt =====
-- `AddPvBidBitmap` and `AddUvBidBitmap` of src/index.cc against the lookup of the bitmaps.
use mathlib.Core.Path.{subst}
use mathlib.Core.Option.{some-injective}
use high_dimensional_flow_re.Base.{
  ℕ, ◌≡◌, refl, ap, sym, ◌∙◌, Bool, true, false, Option, none, some, List, arith, Bool-cases, inl,
  inr,
}
use high_dimensional_flow_re.Base.Ints.{ℤ, pos, negsuc}
use high_dimensional_flow_re.Base.Maps.{
  Map, find, put, same, same_sound, find-put_self, find-put_other,
}
use high_dimensional_flow_re.Index.{value_of, lookup, touch_found, touch, add_made, add_found, add}

module _ {B : Type 0} where
  -- What an addition returns, and the bitmap that the psid has afterwards.
  abbrev pub outcome : Option B → Bool → Bool → B → ℤ × Option B
  outcome (some old) memory done b = (pos 1, some old)
  outcome none false done b = (negsuc 0, none)
  outcome none true false b = (negsuc 1, none)
  outcome none true true b = (pos 0, some b)

  pub record IsAdded (m : Map (Option B)) (psid : List ℕ) (expected : ℤ × Option B)
      (result : Option (ℤ × Map (Option B))) : Type 0 where
    pub after : Map (Option B)
    pub returns : result ≡ some (expected.0, after)
    pub found : lookup after psid ≡ expected.1
    pub others : (other : List ℕ) → same psid other ≡ false → lookup after other ≡ lookup m other

  put_self : (m : Map (Option B)) (psid : List ℕ) (v : Option B) → lookup (put m psid v) psid ≡ v
  put_self m psid v = ap value_of (find-put_self m psid v)

  put_other :
      (m : Map (Option B)) (psid other : List ℕ) (v : Option B)
      → same psid other ≡ false
      → lookup (put m psid v) other ≡ lookup m other
  put_other m psid other v e = ap value_of (find-put_other m psid other v e)

  touch_found_self :
      (m : Map (Option B)) (psid : List ℕ) (o : Option (Option B))
      → find m psid ≡ o
      → lookup (touch_found m psid o) psid ≡ value_of o
  touch_found_self m psid none e = put_self m psid none
  touch_found_self m psid (some b) e = ap value_of e

  touch_found_other :
      (m : Map (Option B)) (psid other : List ℕ) (o : Option (Option B))
      → same psid other ≡ false
      → lookup (touch_found m psid o) other ≡ lookup m other
  touch_found_other m psid other none e = put_other m psid other none e
  touch_found_other m psid other (some b) e = refl

  add_found-IsAdded :
      (memory done : Bool) (b : B) (m touched : Map (Option B)) (psid : List ℕ) (old : Option B)
      → lookup touched psid ≡ old
      → ((other : List ℕ) → same psid other ≡ false → lookup touched other ≡ lookup m other)
      → IsAdded m psid
          (outcome old memory done b)
          (add_found memory (some (done, b)) touched psid old)
  unfolding add_found add_made
  add_found-IsAdded memory done b m touched psid (some old) e h = record {
    after = touched;
    returns = refl;
    found = e;
    others = h;
  }
  add_found-IsAdded false done b m touched psid none e h = record {
    after = touched;
    returns = refl;
    found = e;
    others = h;
  }
  add_found-IsAdded true false b m touched psid none e h = record {
    after = touched;
    returns = refl;
    found = e;
    others = h;
  }
  add_found-IsAdded true true b m touched psid none e h = record {
    after = put touched psid (some b);
    returns = refl;
    found = put_self touched psid (some b);
    others = λ other ne. put_other touched psid other (some b) ne ∙ h other ne;
  }

  -- An addition returns 1 and keeps the bitmap of a psid that has one; else -1 without memory, -2
  -- where `Generate` returns false, and no bitmap; else 0, and the psid has the new bitmap. Other
  -- psids keep theirs. `Generate` returns without a fault.
  pub add-IsAdded :
      (memory done : Bool) (b : B) (m : Map (Option B)) (psid : List ℕ)
      → IsAdded m psid (outcome (lookup m psid) memory done b) (add memory (some (done, b)) m psid)
  unfolding add touch
  add-IsAdded memory done b m psid =
      add_found-IsAdded memory done b m (touch m psid) psid (lookup m psid)
        (touch_found_self m psid (find m psid) refl)
        (λ other ne. touch_found_other m psid other (find m psid) ne)

  -- Every bitmap of the map is one that its psid may have.
  abbrev pub AllOf : (List ℕ → B → Type 0) → Map (Option B) → Type 0
  AllOf P m = (psid : List ℕ) (b : B) → lookup m psid ≡ some b → P psid b

  outcome-AllOf :
      (P : List ℕ → B → Type 0) (psid : List ℕ) (old : Option B) (memory done : Bool) (b b' : B)
      → ((kept : B) → old ≡ some kept → P psid kept)
      → (done ≡ true → P psid b)
      → (outcome old memory done b).1 ≡ some b'
      → P psid b'
  outcome-AllOf P psid (some old) memory done b b' kept fresh e = kept b' e
  outcome-AllOf P psid none false done b b' kept fresh e = absurd (ground (arith, e))
  outcome-AllOf P psid none true false b b' kept fresh e = absurd (ground (arith, e))
  outcome-AllOf P psid none true true b b' kept fresh e =
      subst (P psid) (some-injective b b' e) (fresh refl)

  -- An addition returns, and keeps that.
  pub add-AllOf :
      (P : List ℕ → B → Type 0) (memory done : Bool) (b : B) (m : Map (Option B)) (psid : List ℕ)
      → AllOf P m
      → (done ≡ true → P psid b)
      → (code : ℤ) × (after : Map (Option B)) × (add memory (some (done, b)) m psid
          ≡ some (code, after))
        × AllOf P after
  add-AllOf P memory done b m psid h fresh =
      let a = add-IsAdded memory done b m psid in
      (
        (outcome (lookup m psid) memory done b).0,
        a.after,
        a.returns,
        λ other b' e. elim (Bool-cases (same psid other)) [
          | inl here ↦
              let there = same_sound psid other here in
              subst (λ key. P key b') there
                (outcome-AllOf P psid (lookup m psid) memory done b b' (h psid) fresh
                  (sym a.found ∙ ap (lookup a.after) there ∙ e))
          | inr away ↦ h other b' (sym (a.others other away) ∙ e)
        ],
      )
