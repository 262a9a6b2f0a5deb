-- ===== src/Base/Alloc.antt =====
-- The outcomes of the allocation calls (malloc, calloc, realloc, strdup) that are still to come,
-- in the order of the calls: `false` is a call that returns NULL. Calls past the end succeed.
use Prim.Native.Nat.{ℕ, ◌*◌}
use mathlib.Core.Bool.{Bool, true}
use mathlib.Core.Option.{Option, none, some}
use mathlib.Core.List.{List, [], ◌∷◌}
use lib_apg.Base.Tests.{◌==◌, if◌then◌else◌}

abbrev pub Allocs : Type 0
Allocs = List Bool

-- Does the next call succeed?
abbrev pub granted : Allocs → Bool
granted [] = true
granted (b ∷ _) = b

-- The calls after it.
abbrev pub later : Allocs → Allocs
later [] = []
later (_ ∷ bs) = bs

-- Room for one more element in an array that doubles: a full array is reallocated, with `initial`
-- slots if it has none. The new capacity, or `none` if realloc fails.
unfoldable pub grow : ℕ → ℕ → ℕ → Allocs → Option ℕ × Allocs
grow count cap initial allocs =
    if count == cap
    then if granted allocs
      then (some (if cap == 0 then initial else cap * 2), later allocs)
      else (none, later allocs)
    else (some cap, allocs)
