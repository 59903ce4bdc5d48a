-- ===== src/Prelude/Dict.antt =====
-- A Python dictionary as its items in insertion order, and the sets that the code builds from lists.
use mathlib.Core.Bool.{Bool, true, false}
use mathlib.Core.List.{List, [], ◌∷◌, ◌++◌}
use reasoning_engine.Prelude.Tests.{if◌then◌else◌}
use reasoning_engine.Prelude.Equality.{Eq, mem}

module _ {K V : Type 0} ⦃e : Eq K⦄ where
  -- `dictionary[k] = v`
  unfoldable pub assign : K → V → List (K × V) → List (K × V)
  assign k v [] = (k, v) ∷ []
  assign k v ((j, u) ∷ d) = if e.beq k j then (j, v) ∷ d else (j, u) ∷ assign k v d

  pub dict_from : List (K × V) → List (K × V) → List (K × V)
  dict_from d [] = d
  dict_from d ((k, v) ∷ items) = dict_from (assign k v d) items

  -- `dict(items)`
  unfoldable pub dict_of : List (K × V) → List (K × V)
  unfolding assign dict_from
  dict_of items = dict_from [] items

module _ {K : Type 0} ⦃e : Eq K⦄ where
  -- `set.add`
  abbrev pub add_to : K → List K → List K
  add_to a s = if mem a s then s else s ++ a ∷ []

  -- `set(xs)`, in the order of first occurrence
  abbrev pub union_from : List K → List K → List K
  union_from s [] = s
  union_from s (x ∷ xs) = union_from (add_to x s) xs

  -- `set(xs) <= set(ys)`
  abbrev pub is_subset : List K → List K → Bool
  is_subset [] ys = true
  is_subset (x ∷ xs) ys = if mem x ys then is_subset xs ys else false

  -- `len(set(xs)) != len(xs)`
  abbrev pub has_repeat : List K → Bool
  has_repeat [] = false
  has_repeat (x ∷ xs) = if mem x xs then true else has_repeat xs
