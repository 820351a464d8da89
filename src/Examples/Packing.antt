-- ===== src/Examples/Packing.antt =====
-- Runs of the packing of asynchronous values, of crates/transport/src/pack.rs.
use wrpc.Prelude.{◌≡◌, refl, ◌⊎◌, List, [], ◌∷◌, ok, err, invalid_data}
use wrpc.Pack.{Hole, fill, fill_holes, sort_holes, insert_hole, is_zero_at}
use wrpc.Pack.Plug.{plug}
use wrpc.Pack.Fits.{Fits, fill_cases}

-- A list of two values, which were written in the other order.
abbrev holes : List Hole
holes = (2, (1 ∷ 9 ∷ []) ∷ []) ∷ (1, (1 ∷ []) ∷ (7 ∷ 8 ∷ []) ∷ []) ∷ []

fills : fill holes (2 ∷ 0 ∷ 0 ∷ 5 ∷ []) ≡ ok (2 ∷ 1 ∷ 7 ∷ 8 ∷ 1 ∷ 9 ∷ 5 ∷ [])
unfolding fill fill_holes sort_holes insert_hole is_zero_at
fills = refl

refuses : fill holes (2 ∷ 0 ∷ 4 ∷ 5 ∷ []) ≡ err invalid_data
unfolding fill fill_holes sort_holes insert_hole is_zero_at
refuses = refl

fill_cases_example :
    (Fits (2 ∷ 0 ∷ 0 ∷ 5 ∷ []) holes
      × (fill holes (2 ∷ 0 ∷ 0 ∷ 5 ∷ []) ≡ ok (plug 0 holes (2 ∷ 0 ∷ 0 ∷ 5 ∷ []))))
    ⊎ ((¬ Fits (2 ∷ 0 ∷ 0 ∷ 5 ∷ []) holes) × (fill holes (2 ∷ 0 ∷ 0 ∷ 5 ∷ []) ≡ err invalid_data))
fill_cases_example = fill_cases holes (2 ∷ 0 ∷ 0 ∷ 5 ∷ [])
