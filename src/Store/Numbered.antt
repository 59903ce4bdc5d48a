-- ===== src/Store/Numbered.antt =====
-- Rows whose sequence numbers count up by one, as `_append_locked` of
-- src/fre/adapters/storage_sqlite/store.py gives them.
use reasoning_engine.Prelude.{
  ℕ, zero, suc, ◌+◌, ◌≤◌, ◌<◌, ◌≡◌, refl, sym, subst, true, false, List, [], ◌∷◌, ◌++◌, keep,
  length, take, ap, drop, ltb, leb, All, IsSorted, keep-All, arith,
}
use reasoning_engine.Store.{UncommittedEvent, EventRow, seq_le, stored_from}

module _ {P : Type 0} where
  pub seq_le_total : (x y : EventRow P) → seq_le x y ≡ false → seq_le y x ≡ true
  seq_le_total x y h = ground arith

  pub seq_le_trans :
      (x y z : EventRow P) → seq_le x y ≡ true → seq_le y z ≡ true → seq_le x z ≡ true
  seq_le_trans x y z h k = ground arith

  -- The numbers are n + 1, n + 2 and so on.
  abbrev pub Numbered : ℕ → List (EventRow P) → Type 0
  Numbered n [] = Unit {0}
  Numbered n (row ∷ rows) = (row.sequence ≡ suc n) × Numbered (suc n) rows

  pub Numbered-append :
      (n : ℕ) (xs ys : List (EventRow P))
      → Numbered n xs
      → Numbered (n + length xs) ys
      → Numbered n (xs ++ ys)
  Numbered-append n [] ys h k =
      let same : n + 0 ≡ n = omega arith in subst (λ m. Numbered m ys) same k
  Numbered-append n (x ∷ xs) ys h k =
      let same : n + suc (length xs) ≡ suc n + length xs = omega arith in
      (h.0, Numbered-append (suc n) xs ys h.1 (subst (λ m. Numbered m ys) same k))

  pub Numbered-stored_from :
      (n : ℕ) (events : List (UncommittedEvent P)) → Numbered n (stored_from n events)
  unfolding stored_from
  Numbered-stored_from n [] = tt
  Numbered-stored_from n (event ∷ events) = (refl, Numbered-stored_from (suc n) events)

  All-map :
      (p q : EventRow P → Type 0)
      → ((row : EventRow P) → p row → q row)
      → (rows : List (EventRow P)) → All p rows
      → All q rows
  All-map p q f [] h = tt
  All-map p q f (row ∷ rows) h = (f row h.0, All-map p q f rows h.1)

  Numbered-above :
      (n m : ℕ) (rows : List (EventRow P))
      → n ≤ m
      → Numbered m rows
      → All (λ (row : EventRow P). n < row.sequence) rows
  Numbered-above n m [] h k = tt
  Numbered-above n m (row ∷ rows) h k =
      (omega arith, Numbered-above n (suc m) rows (omega arith) k.1)

  pub Numbered-IsSorted :
      (n : ℕ) (rows : List (EventRow P)) → Numbered n rows → IsSorted seq_le rows
  Numbered-IsSorted n [] h = tt
  Numbered-IsSorted n (row ∷ rows) h = (
    All-map (λ r. suc n < r.sequence) (λ r. seq_le row r ≡ true)
        (λ r k. let same : row.sequence ≡ suc n = h.0 in ground (arith, k, same)) rows
        (Numbered-above (suc n) (suc n) rows (omega arith) h.1),
    Numbered-IsSorted (suc n) rows h.1,
  )

  -- The rows after the first k.
  pub keep-above-drop :
      (n k : ℕ) (rows : List (EventRow P))
      → Numbered n rows
      → keep (λ row. ltb (n + k) row.sequence) rows ≡ drop k rows
  keep-above-drop n zero rows h =
      keep-All (λ row. ltb (n + 0) row.sequence) rows
        (All-map (λ r. n < r.sequence) (λ r. ltb (n + 0) r.sequence ≡ true) (λ r k. ground arith)
          rows (Numbered-above n n rows (omega arith) h))
  keep-above-drop n (suc k) [] h = refl
  keep-above-drop n (suc k) (row ∷ rows) h =
      let below : ltb (n + suc k) row.sequence ≡ false =
        (let same : row.sequence ≡ suc n = h.0 in ground arith) in
      let same : n + suc k ≡ suc n + k = omega arith in
      let rest : keep (λ r. ltb (n + suc k) r.sequence) rows ≡ drop k rows =
        subst (λ m. keep (λ (r : EventRow P). ltb m r.sequence) rows ≡ drop k rows) (sym same)
          (keep-above-drop (suc n) k rows h.1) in
      rw below rest

  pub Numbered-drop :
      (n k : ℕ) (rows : List (EventRow P)) → Numbered n rows → Numbered (n + k) (drop k rows)
  Numbered-drop n zero rows h =
      let same : n + 0 ≡ n = omega arith in subst (λ m. Numbered m rows) (sym same) h
  Numbered-drop n (suc k) [] h = tt
  Numbered-drop n (suc k) (row ∷ rows) h =
      let same : suc n + k ≡ n + suc k = omega arith in
      subst (λ m. Numbered m (drop k rows)) same (Numbered-drop (suc n) k rows h.1)

  -- The first k rows.
  pub keep-below-take :
      (n k : ℕ) (rows : List (EventRow P))
      → Numbered n rows
      → keep (λ row. leb row.sequence (n + k)) rows ≡ take k rows
  keep-below-take n zero [] h = refl
  keep-below-take n (suc k) [] h = refl
  keep-below-take n zero (row ∷ rows) h =
      let above : leb row.sequence (n + 0) ≡ false =
        (let same : row.sequence ≡ suc n = h.0 in ground arith) in
      rw above (keep-none_above n (suc n) rows (omega arith) h.1)
    where
      keep-none_above :
          (n m : ℕ) (rows : List (EventRow P))
          → n ≤ m
          → Numbered m rows
          → keep (λ row. leb row.sequence (n + 0)) rows ≡ []
      keep-none_above n m [] le k = refl
      keep-none_above n m (row ∷ rows) le k =
          let above : leb row.sequence (n + 0) ≡ false =
            (let same : row.sequence ≡ suc m = k.0 in ground arith) in
          rw above (keep-none_above n (suc m) rows (omega arith) k.1)
  keep-below-take n (suc k) (row ∷ rows) h =
      let below : leb row.sequence (n + suc k) ≡ true =
        (let same : row.sequence ≡ suc n = h.0 in ground arith) in
      let same : suc n + k ≡ n + suc k = omega arith in
      let rest : keep (λ r. leb r.sequence (n + suc k)) rows ≡ take k rows =
        subst (λ m. keep (λ (r : EventRow P). leb r.sequence m) rows ≡ take k rows) same
          (keep-below-take (suc n) k rows h.1) in
      rw below (ap (◌∷◌ row) rest)
