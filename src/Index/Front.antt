-- ===== src/Index/Front.antt =====
-- The front of the file of an index: the places that the end of `Dump` of src/index.cc writes over.
use high_dimensional_flow_re.Base.{ℕ, ◌+◌, ◌≤◌, ◌≡◌, ◌∙◌, List, ◌++◌, arith, length}
use high_dimensional_flow_re.Base.Files.{drop}
use high_dimensional_flow_re.Base.Seek.{
  overwrite, length-overwrite, overwrite-here, overwrite-before, overwrite-behind,
}
use high_dimensional_flow_re.Index.Files.{pv_offset_map_size, uv_offset_map_size, front_size}

-- What a file holds at the places of the front, and that it holds the same behind the front.
pub record IsFront (pv_bytes uv_bytes offset_bytes before after : List ℕ) : Type 0 where
  pub pv_rest : List ℕ
  pub pv_here : after ≡ pv_bytes ++ pv_rest
  pub uv_rest : List ℕ
  pub uv_here : drop pv_offset_map_size after ≡ uv_bytes ++ uv_rest
  pub offset_rest : List ℕ
  pub offset_here :
      drop (pv_offset_map_size + uv_offset_map_size) after ≡ offset_bytes ++ offset_rest
  pub behind : drop front_size after ≡ drop front_size before
  pub same_length : length after ≡ length before

abbrev pub fronted : (pv_bytes uv_bytes offset_bytes file : List ℕ) → List ℕ
fronted pv_bytes uv_bytes offset_bytes file =
    let file₁ = overwrite 0 pv_bytes file in
    let file₂ = overwrite pv_offset_map_size uv_bytes file₁ in
    overwrite (pv_offset_map_size + uv_offset_map_size) offset_bytes file₂

module _ (pv_bytes uv_bytes offset_bytes file : List ℕ)
    (pv_fits : length pv_bytes ≤ pv_offset_map_size)
    (uv_fits : length uv_bytes ≤ uv_offset_map_size) (eight : length offset_bytes ≡ 8)
    (long : front_size ≤ length file) where
  abbrev file₁ : List ℕ
  file₁ = overwrite 0 pv_bytes file

  abbrev file₂ : List ℕ
  file₂ = overwrite pv_offset_map_size uv_bytes file₁

  long₁ : length file₁ ≡ length file
  long₁ = length-overwrite 0 pv_bytes file (omega (arith, pv_fits, long))

  inside₁ : pv_offset_map_size + length uv_bytes ≤ length file₁
  inside₁ = omega (arith, uv_fits, long, long₁)

  long₂ : length file₂ ≡ length file₁
  long₂ = length-overwrite pv_offset_map_size uv_bytes file₁ inside₁

  inside₂ : pv_offset_map_size + uv_offset_map_size + length offset_bytes ≤ length file₂
  inside₂ = omega (arith, eight, long, long₁, long₂)

  pub fronted-IsFront :
      IsFront pv_bytes uv_bytes offset_bytes file (fronted pv_bytes uv_bytes offset_bytes file)
  fronted-IsFront =
      let places = pv_offset_map_size + uv_offset_map_size in
      let inside₀ : 0 + length pv_bytes ≤ length file = omega (arith, pv_fits, long) in
      let (pv_rest₁, pv₁) =
        overwrite-before pv_offset_map_size uv_bytes file₁ inside₁ 0 pv_bytes
          (drop (0 + length pv_bytes) file) (overwrite-here 0 pv_bytes file inside₀)
          (omega (arith, pv_fits)) in
      let (pv_rest₂, pv₂) =
        overwrite-before places offset_bytes file₂ inside₂ 0 pv_bytes pv_rest₁ pv₁
          (omega (arith, pv_fits)) in
      let (uv_rest₂, uv₂) =
        overwrite-before places offset_bytes file₂ inside₂ pv_offset_map_size uv_bytes
          (drop (pv_offset_map_size + length uv_bytes) file₁)
          (overwrite-here pv_offset_map_size uv_bytes file₁ inside₁) (omega (arith, uv_fits)) in
      record {
        pv_rest = pv_rest₂;
        pv_here = pv₂;
        uv_rest = uv_rest₂;
        uv_here = uv₂;
        offset_rest = drop (places + length offset_bytes) file₂;
        offset_here = overwrite-here places offset_bytes file₂ inside₂;
        behind =
            overwrite-behind places offset_bytes file₂ inside₂ front_size (omega (arith, eight))
            ∙ overwrite-behind pv_offset_map_size uv_bytes file₁ inside₁ front_size
                (omega (arith, uv_fits))
            ∙ overwrite-behind 0 pv_bytes file inside₀ front_size (omega (arith, pv_fits));
        same_length = length-overwrite places offset_bytes file₂ inside₂ ∙ long₂ ∙ long₁;
      }
