-- ===== src/Pack.antt =====
-- `fill` of crates/transport/src/pack.rs, which puts the asynchronous values that a packed value
-- has, once they are there, in the place of the bytes that stand for them.
pub mod Plug
pub mod Fits
use wrpc.Prelude.{
  ℕ, zero, suc, ◌-◌, Bool, true, false, List, [], ◌∷◌, ◌++◌, Option, none, some, Bytes, Result, ok,
  err, invalid_data, if◌then◌else◌, ltb, ◌==◌, take, drop,
}
use wrpc.Conn.Outgoing.Chunks.{flatten}

-- An offset, and what is written there: what `Packer` collects.
abbrev pub Hole : Type 0
Hole = ℕ × List Bytes

-- `sort_unstable_by_key(|(offset, _)| *offset)`.
unfoldable pub insert_hole : Hole → List Hole → List Hole
insert_hole h [] = h ∷ []
insert_hole h (k ∷ ks) =
    let rest = insert_hole h ks in if ltb (k.0) (h.0) then k ∷ rest else h ∷ k ∷ ks

unfoldable pub sort_holes : List Hole → List Hole
sort_holes [] = []
sort_holes (h ∷ hs) = insert_hole h (sort_holes hs)

-- `dst.get(offset) != Some(&0x00)`, negated.
unfoldable pub is_zero_at : Bytes → ℕ → Bool
is_zero_at [] i = false
is_zero_at (b ∷ bs) zero = b == 0
is_zero_at (b ∷ bs) (suc i) = is_zero_at bs i

-- The loop over the holes, and the rest of `dst` behind the last one.
unfoldable pub fill_holes : Bytes → ℕ → List Hole → Bytes → Result Bytes
fill_holes dst prev [] out = ok (out ++ drop prev dst)
fill_holes dst prev ((offset, bufs) ∷ holes) out =
    let rest =
      fill_holes dst (suc offset) holes
        (out ++ (take (offset - prev) (drop prev dst) ++ flatten bufs)) in
    if ltb offset prev
    then err invalid_data
    else (if is_zero_at dst offset then rest else err invalid_data)

unfoldable pub fill : List Hole → Bytes → Result Bytes
fill holes dst = fill_holes dst 0 (sort_holes holes) []
