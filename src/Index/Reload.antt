-- ===== src/Index/Reload.antt =====
-- The loops of `Load` of src/index.cc over the bitmaps of one map.
use mathlib.Core.Option.{some-injective, none-ne-some}
use high_dimensional_flow_re.Base.{
  ℕ, ◌^◌, ◌≡◌, refl, ap, sym, ◌∙◌, true, Option, none, some, List, [], ◌∷◌, ltb, All, Bool-cases,
  Option-cases, inl, inr, lt→ltb,
}
use high_dimensional_flow_re.Base.Ints.{ℤ, pos}
use high_dimensional_flow_re.Base.Maps.{Map, find, same, same_sound, insert_new, find-insert_new}
use high_dimensional_flow_re.Index.{lookup, value_of}
use high_dimensional_flow_re.Index.Files.{load_each, keep_loaded}
use high_dimensional_flow_re.Index.Stored.{Stored}
use high_dimensional_flow_re.Index.Placed.{IsPlaced}

module _ {B : Type 0} (st : Stored B) where
  -- What the loop of `Load` makes of entries that are placed: only their bitmaps, and all of them.
  IsLoaded : Map (Option B) → Map (Option B) → Type 0
  IsLoaded all m =
      (psid : List ℕ) (v : Option B)
      → find m psid ≡ some v
      → (b : B) × (v ≡ some (st.loaded b)) × (find all psid ≡ some (some b))

  record Loads (all : Map (Option B)) (offsets : Map ℕ) (m : Map (Option B))
      (result : ℤ × Map (Option B)) : Type 0 where
    after : Map (Option B)
    returns : result ≡ (pos 0, after)
    only : IsLoaded all after
    kept : (psid : List ℕ) (v : Option B) → find m psid ≡ some v → find after psid ≡ some v
    each :
        (psid : List ℕ) (o : ℕ)
        → find offsets psid ≡ some o
        → (v : Option B) × (find after psid ≡ some v)

  insert_new-IsLoaded :
      (all m : Map (Option B)) (psid : List ℕ) (b : B)
      → find all psid ≡ some (some b)
      → IsLoaded all m
      → IsLoaded all (insert_new m psid (some (st.loaded b)))
  unfolding IsLoaded
  insert_new-IsLoaded all m psid b e h other v e' =
      let inserted = find-insert_new m psid other (some (st.loaded b)) in
      elim (Option-cases (find m other)) [
        | inr (w, old) ↦
            h other v (old ∙ ap some (some-injective w v (sym (inserted ∙ rw old refl) ∙ e')))
        | inl fresh ↦ elim (Bool-cases (same psid other)) [
          | inl here ↦ (
            b,
            sym (
                some-injective (some (st.loaded b)) v
                  (sym (inserted ∙ rw (fresh, here) refl) ∙ e')),
            rw (← same_sound psid other here) e,
          )
          | inr away ↦ absurd (none-ne-some v (sym (inserted ∙ rw (fresh, away) refl) ∙ e'))
        ]
      ]

  insert_new-kept :
      (m : Map (Option B)) (psid other : List ℕ) (w v : Option B)
      → find m other ≡ some v
      → find (insert_new m psid w) other ≡ some v
  insert_new-kept m psid other w v e = find-insert_new m psid other w ∙ rw e refl

  insert_new-entered :
      (m : Map (Option B)) (psid other : List ℕ) (w : Option B)
      → same psid other ≡ true
      → (v : Option B) × (find (insert_new m psid w) other ≡ some v)
  insert_new-entered m psid other w here = elim (Option-cases (find m other)) [
    | inl fresh ↦ (w, find-insert_new m psid other w ∙ rw (fresh, here) refl)
    | inr (v, old) ↦ (v, insert_new-kept m psid other w v old)
  ]

  load_each-Loads :
      (all : Map (Option B)) (file : List ℕ) (offsets : Map ℕ) (m : Map (Option B))
      → All (IsPlaced st all file) offsets
      → IsLoaded all m
      → Loads all offsets m (load_each true st.load file offsets m)
  unfolding load_each IsPlaced
  load_each-Loads all file [] m placed h = record {
    after = m;
    returns = refl;
    only = h;
    kept = λ psid v e. e;
    each = λ psid o e. absurd (none-ne-some o e);
  }
  load_each-Loads all file ((psid, offset) ∷ offsets) m placed h =
      let (b, rest, fits, found, e, small) = placed.0 in
      let entered = insert_new m psid (some (st.loaded b)) in
      let next =
        load_each-Loads all file offsets entered placed.1
          (insert_new-IsLoaded all m psid b found h) in
      record {
        after = next.after;
        returns =
            let test : ltb offset (2 ^ 63) ≡ true = lt→ltb offset (2 ^ 63) small in
            rw (load_each, test)
              (ap (λ l. load_each true st.load file offsets (keep_loaded m psid l))
                  (ap st.load e ∙ st.loads b rest fits)
                ∙ next.returns);
        only = next.only;
        kept = λ other v e'. next.kept other v (insert_new-kept m psid other _ v e');
        each = λ other o e'. elim (Bool-cases (same psid other)) [
          | inl here ↦
              let (v, there) = insert_new-entered m psid other (some (st.loaded b)) here in
              (v, next.kept other v there)
          | inr away ↦
              let passed : find ((psid, offset) ∷ offsets) other ≡ find offsets other =
                rw (find, away) refl in
              next.each other o (sym passed ∙ e')
        ];
      }

  abbrev pub map_loaded : Option B → Option B
  map_loaded none = none
  map_loaded (some b) = some (st.loaded b)

  -- What the loop of `Load` makes of all the offsets of the entries: each psid finds the bitmap that
  -- was stored under it.
  pub record Restores (all : Map (Option B)) (result : ℤ × Map (Option B)) : Type 0 where
    pub after : Map (Option B)
    pub returns : result ≡ (pos 0, after)
    pub same_bitmaps : (psid : List ℕ) → lookup after psid ≡ map_loaded (lookup all psid)

  stored_or_null :
      (psid : List ℕ) (after all : Map (Option B)) (o : Option (Option B))
      → find all psid ≡ o
      → find after psid ≡ none
      → ((b : B) → o ≡ some (some b) → ⊥)
      → value_of (find after psid) ≡ map_loaded (value_of o)
  stored_or_null psid after all none e missing h = ap value_of missing
  stored_or_null psid after all (some none) e missing h = ap value_of missing
  stored_or_null psid after all (some (some b)) e missing h = absurd (h b refl)

  pub load_each-Restores :
      (all : Map (Option B)) (file : List ℕ) (offsets : Map ℕ)
      → All (IsPlaced st all file) offsets
      → ((psid : List ℕ) (b : B)
          → find all psid ≡ some (some b)
          → (o : ℕ) × (find offsets psid ≡ some o))
      → Restores all (load_each true st.load file offsets [])
  unfolding IsLoaded
  load_each-Restores all file offsets placed covered =
      let l = load_each-Loads all file offsets [] placed (λ psid v e. absurd (none-ne-some v e)) in
      record {
        after = l.after;
        returns = l.returns;
        same_bitmaps = λ psid. elim (Option-cases (find l.after psid)) [
          | inr (v, there) ↦
              let (b, e, e') = l.only psid v there in
              ap value_of there
              ∙ ap value_of (ap some e)
              ∙ sym (ap (λ o. map_loaded (value_of o)) e')
          | inl missing ↦ stored_or_null psid l.after all (find all psid) refl missing (λ b e.
              let (o, placed_there) = covered psid b e in
              let (v, there) = l.each psid o placed_there in none-ne-some v (sym missing ∙ there))
        ];
      }
