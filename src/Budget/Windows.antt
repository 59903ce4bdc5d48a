-- ===== src/Budget/Windows.antt =====
-- The two windows that `burn_rate` of src/fre/runtime/budget_meter.py cuts from the recorded usage.
use Prim.Native.Nat.{min}
use reasoning_engine.Prelude.{
  ℕ, zero, suc, ◌-◌, ◌*◌, ◌≤◌, ◌<◌, ◌≡◌, refl, List, [], ◌∷◌, ◌++◌, length, take, drop, arith,
}
use reasoning_engine.Budget.Types.{ResourceVector}
use reasoning_engine.Budget.Burn.{from_end, current_events, previous_events}

take-append-drop : {A : Type 0} (n : ℕ) (xs : List A) → take n xs ++ drop n xs ≡ xs
take-append-drop zero xs = refl
take-append-drop (suc n) [] = refl
take-append-drop (suc n) (x ∷ xs) = rw (take-append-drop n xs)

-- A slice and what follows it.
slice-append-drop :
    {A : Type 0} (a b : ℕ) (xs : List A) → a ≤ b → take (b - a) (drop a xs) ++ drop b xs ≡ drop a xs
slice-append-drop zero b xs h =
    let same : b - 0 ≡ b = omega arith in rw same (take-append-drop b xs)
slice-append-drop (suc a) zero xs h = elim h [ ]
slice-append-drop (suc a) (suc b) [] h = rw (take_nil (suc b - suc a))
  where
    take_nil : {A : Type 0} (n : ℕ) → take n (let nothing : List A = [] in nothing) ++ [] ≡ []
    take_nil zero = refl
    take_nil (suc n) = refl
slice-append-drop (suc a) (suc b) (x ∷ xs) h =
    let same : suc b - suc a ≡ b - a = omega arith in
    rw same (slice-append-drop a b xs (omega arith))

length-drop : {A : Type 0} (n : ℕ) (xs : List A) → length (drop n xs) ≡ length xs - n
length-drop zero xs = omega arith
length-drop (suc n) [] = omega arith
length-drop (suc n) (x ∷ xs) = omega (arith, length-drop n xs)

-- For a positive window the previous and the current events, in this order, are the last two windows
-- of the recorded usage, and the current ones are as many as the window, or all if there are fewer.
pub windows_split :
    (window : ℕ) (events : List ResourceVector)
    → 0 < window
    → (previous_events window events ++ current_events window events
        ≡ drop (length events - 2 * window) events)
      × (length (current_events window events) ≡ min window (length events))
unfolding current_events previous_events
windows_split window events h =
    let n = length events in
    let one : from_end n window ≡ n - window = ground arith in
    let two : from_end n (2 * window) ≡ n - 2 * window = ground arith in
    (
      rw (one, two) (slice-append-drop (n - 2 * window) (n - window) events (omega arith)),
      rw one (omega (arith, length-drop (n - window) events)),
    )
