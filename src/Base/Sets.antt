-- ===== src/Base/Sets.antt =====
-- `IterableSet` of texts: its elements in the order of insertion, none twice.
use Prim.Native.Nat.{◌+◌, ◌≤◌}
use mathlib.Core.Bool.{Bool, false, ◌||◌}
use mathlib.Core.List.{List, [], ◌∷◌, ◌++◌}
use native.Mathlib.Omega.{arith}
use hos_tla_contracts.Base.Tests.{if◌then◌else◌}
use hos_tla_contracts.Base.Bytes.{Text, length, length-append, text_eq}

unfoldable pub member : Text → List Text → Bool
member a [] = false
member a (x ∷ xs) = text_eq a x || member a xs

-- `insert` returns whether the set changed, which is that `a` was no member.
unfoldable pub add_member : Text → List Text → List Text
add_member a xs = if member a xs then xs else xs ++ a ∷ []

unfoldable pub drop_member : Text → List Text → List Text
drop_member a [] = []
drop_member a (x ∷ xs) = if text_eq a x then xs else x ∷ drop_member a xs

pub length-add_member_bounds :
    (a : Text) (xs : List Text)
    → (length xs ≤ length (add_member a xs)) × (length (add_member a xs) ≤ length xs + 1)
unfolding add_member
length-add_member_bounds a xs = ground (arith, length-append {0} xs (a ∷ []))

pub length-drop_member_bounds :
    (a : Text) (xs : List Text)
    → (length xs ≤ length (drop_member a xs) + 1) × (length (drop_member a xs) ≤ length xs)
unfolding drop_member
length-drop_member_bounds a [] = omega arith
length-drop_member_bounds a (x ∷ xs) = ground (arith, length-drop_member_bounds a xs)
