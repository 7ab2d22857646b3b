-- ===== src/Alloc.antt =====
-- Allocation of VxLAN network identifiers and of bridge indices: `GetAvailableVNIs` and
-- `GetAvailableBrIndex` (api/v1beta1/link.go), over any implementation of the bit set.
pub mod Bits
pub mod Taken
pub mod Sound
pub mod Complete
use knl.Common.{
  ℕ, zero, suc, ◌+◌, ◌≤◌, String, Bool, true, false, Option, none, some, List, [], ◌∷◌, ltb, Map,
  lookup, if◌then◌else◌, Result, ok, err, panic, ◌>>=◌, ℤ, to_uint64,
}
use knl.Text.{atoi}
use knl.Alloc.Bits.{BitSet}

-- The errors of the two functions.
pub data AllocError : Type 0 where
  list_failed invalid_label no_available : AllocError

abbrev pub max_vni : ℕ
max_vni = 16777215

abbrev pub max_bridge_index : ℕ
max_bridge_index = 16777215

module _ (B : BitSet) where
  -- The allocation loop of both functions: `required` rounds, from `next` on.
  unfoldable pub take_clear : ℕ → B.Bits → ℕ → ℕ → Result AllocError (List ℕ)
  take_clear limit bset zero next = ok []
  take_clear limit bset (suc required) next = elim (B.next_clear bset next) [
    | none ↦ err no_available
    | some found ↦
        if ltb limit found
        then err no_available
        else do rest ← take_clear limit bset required (found + 1); ok (found ∷ rest)
  ]

  -- `bset.Set(uint(*lan.Spec.VNI))` for the listed LANs; a nil VNI panics. VNIs are not negative.
  unfoldable pub mark_vnis : B.Bits → List (Option ℕ) → Result AllocError B.Bits
  mark_vnis bset [] = ok bset
  mark_vnis bset (none ∷ lans) = panic
  mark_vnis bset (some vni ∷ lans) = mark_vnis (B.set bset vni) lans

  -- `GetAvailableVNIs`, from the VNIs of the LANs that `clnt.List` returns, or its failure
  unfoldable pub get_available_vnis : Result Unit (List (Option ℕ)) → ℕ → Result AllocError (List ℕ)
  unfolding take_clear mark_vnis
  get_available_vnis (ok lans) required = do
    bset ← mark_vnis (B.set (B.new max_vni) 0) lans
    take_clear max_vni bset required 0
  get_available_vnis (err _) required = err list_failed
  get_available_vnis panic required = panic

  -- The loop over the listed definitions: `none` is one without the label.
  unfoldable pub mark_labels : B.Bits → List (Option String) → Result AllocError B.Bits
  mark_labels bset [] = ok bset
  mark_labels bset (none ∷ nads) = mark_labels bset nads
  mark_labels bset (some val ∷ nads) = elim (atoi val) [
    | none ↦ err invalid_label
    | some i ↦ mark_labels (B.set bset (to_uint64 i)) nads
  ]

  -- `GetAvailableBrIndex`, from the bridge labels of the network definitions that are listed
  unfoldable pub get_available_br_index :
      Result Unit (List (Option String)) → ℕ → Result AllocError (List ℕ)
  unfolding take_clear mark_labels
  get_available_br_index (ok nads) required = do
    bset ← mark_labels (B.set (B.new max_bridge_index) 0) nads
    take_clear max_bridge_index bset required 0
  get_available_br_index (err _) required = err list_failed
  get_available_br_index panic required = panic
