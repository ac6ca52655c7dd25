-- ===== src/Flow/Masks.antt =====
-- OFTonSGX/trusted/lib/flow.c: operations on masks, and the VLAN id of a compressed flow.
use ovs_sgx.Prelude.{
  ℕ, ◌+◌, ◌/◌, ◌^◌, bit_and, Bool, true, false, not, ◌&&◌, ◌||◌, List, [], ◌∷◌, ◌==◌, if◌then◌else◌,
}
use ovs_sgx.Hash.Endian.{ntohs}
use ovs_sgx.Flow.{Miniflow, Minimask, popcount, miniflow_get}

-- The loops over the bits set in both maps, or in either, go by words.
unfoldable pub combine_from : ℕ → (ℕ → ℕ) → List Bool → List Bool → List Bool × List ℕ
combine_from ofs get (x ∷ xs) (y ∷ ys) =
    let (m, vs) = combine_from (ofs + 1) get xs ys in
    if x && y && not (get ofs == 0) then (true ∷ m, get ofs ∷ vs) else (false ∷ m, vs)
combine_from ofs get [] ys = ([], [])
combine_from ofs get (x ∷ xs) [] = ([], [])

unfoldable pub minimask_combine : Minimask → Minimask → Minimask
unfolding combine_from miniflow_get
minimask_combine a b =
    let (m, vs) =
      combine_from 0 (λ ofs. bit_and (miniflow_get a ofs) (miniflow_get b ofs)) a.map b.map in
    record { map = m; values = vs }

unfoldable pub extra_from : ℕ → (ℕ → Bool) → List Bool → List Bool → Bool
extra_from ofs test [] [] = false
extra_from ofs test (x ∷ xs) [] = (x && test ofs) || extra_from (ofs + 1) test xs []
extra_from ofs test [] (y ∷ ys) = (y && test ofs) || extra_from (ofs + 1) test [] ys
extra_from ofs test (x ∷ xs) (y ∷ ys) = ((x || y) && test ofs) || extra_from (ofs + 1) test xs ys

unfoldable pub minimask_has_extra : Minimask → Minimask → Bool
unfolding extra_from miniflow_get
minimask_has_extra a b =
    extra_from 0
      (λ ofs. not (bit_and (miniflow_get a ofs) (miniflow_get b ofs) == miniflow_get b ofs)) a.map
      b.map

unfoldable pub minimask_is_catchall : Minimask → Bool
unfolding popcount
minimask_is_catchall mask = popcount mask.map == 0

-- `vlan_tci` lies at byte 142 of the flow: the upper half of word 35.
unfoldable pub miniflow_get_vid : Miniflow → ℕ
unfolding miniflow_get ntohs
miniflow_get_vid f = bit_and (ntohs (miniflow_get f 35 / 2 ^ 16)) 0x0fff

unfoldable pub minimask_get_vid_mask : Minimask → ℕ
unfolding miniflow_get_vid
minimask_get_vid_mask mask = miniflow_get_vid mask
