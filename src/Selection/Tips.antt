-- ===== src/Selection/Tips.antt =====
-- `TipSet` of src/parent_selection.rs.
use aether_sedc.Prelude.{ℕ, Bool, List, [], length, ◌==◌}
use aether_sedc.Dict
use aether_sedc.Dict.{Dict}
use aether_sedc.Transaction.{Transaction}
use aether_sedc.Storage.{values}

abbrev pub TipSet : Type 0
TipSet = Dict Transaction

abbrev pub new : TipSet
new = []

unfoldable pub add : TipSet → Transaction → TipSet
add tips tx = Dict.insert tx.id tx tips

unfoldable pub remove : TipSet → ℕ → TipSet
remove tips id = Dict.remove id tips

unfoldable pub get_tips : TipSet → List Transaction
get_tips tips = values tips

unfoldable pub len : TipSet → ℕ
len tips = length tips

unfoldable pub is_empty : TipSet → Bool
is_empty tips = length tips == 0
