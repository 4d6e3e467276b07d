-- ===== src/Discovery/Cycle.antt =====
-- Taking the elements of a list by a cursor that grows by one and wraps around.
use native.Mathlib.Nat.{mod-eq_of_lt, mod_self, mod-add-mod}
use mathlib.Core.List.{map-append}
use weisley_rpc_framework.Prelude.{
  ℕ, zero, suc, ◌+◌, ◌-◌, ◌%◌, ◌≤◌, ◌<◌, ◌≡◌, ◌≢◌, refl, sym, ap, ◌∙◌, Option, some, List, [], ◌∷◌,
  ◌++◌, map, take, drop, length, get_elem?, arith, length-drop, take_all,
}

next_mod : (c n r : ℕ) → c % n ≡ r → r + 1 < n → (c + 1) % n ≡ r + 1
next_mod c n r e h = sym (mod-add-mod c n 1) ∙ ap (λ t. (t + 1) % n) e ∙ mod-eq_of_lt h

wrap_mod : (c n r : ℕ) → c % n ≡ r → r ≤ n → (c + (n - r)) % n ≡ 0
wrap_mod c n r e h =
    sym (mod-add-mod c n (n - r))
    ∙ ap (λ t. (t + (n - r)) % n) e
    ∙ ap (λ t. t % n) (omega arith)
    ∙ mod_self n

module _ {ℓ} {A : Type ℓ} where
  -- The elements at the cursors c, c + 1, …, for k turns.
  abbrev pub picks : List A → ℕ → ℕ → List (Option A)
  picks xs c zero = []
  picks xs c (suc k) = get_elem? xs (c % length xs) ∷ picks xs (c + 1) k

  -- The list turned so that it begins at place r.
  abbrev pub turned : ℕ → List A → List A
  turned r xs = drop r xs ++ take r xs

  drop_get :
      (xs : List A) (r : ℕ)
      → r < length xs
      → (x : A) × (get_elem? xs r ≡ some x) × (drop r xs ≡ x ∷ drop (r + 1) xs)
  drop_get [] r h = elim h [ ]
  drop_get (x ∷ xs) zero h = (x, refl, refl)
  drop_get (x ∷ xs) (suc r) h =
      let (y, found, rest) = drop_get xs r (omega arith) in
      let e : suc r + 1 ≡ suc (r + 1) = omega arith in (y, found, rw e rest)

  -- Up to the end of the list the turns give its elements from place r on.
  picks_before :
      (k : ℕ) (xs : List A) (c r : ℕ)
      → c % length xs ≡ r
      → r + k ≤ length xs
      → picks xs c k ≡ map some (take k (drop r xs))
  picks_before zero xs c r e h = refl
  picks_before (suc zero) xs c r e h =
      let (x, found, rest) = drop_get xs r (omega arith) in rw (e, found, rest)
  picks_before (suc (suc k)) xs c r e h =
      let (x, found, rest) = drop_get xs r (omega arith) in
      rw (e, found, rest)
        (ap (◌∷◌ (some x)) (
          picks_before (suc k) xs (c + 1) (r + 1) (next_mod c (length xs) r e (omega arith))
            (omega arith)))

  picks_add :
      (j k : ℕ) (xs : List A) (c : ℕ) → picks xs c (j + k) ≡ picks xs c j ++ picks xs (c + j) k
  picks_add zero k xs c =
      let e : 0 + k ≡ k = omega arith in let d : c + 0 ≡ c = omega arith in rw (e, d)
  picks_add (suc j) k xs c =
      let e : suc j + k ≡ suc (j + k) = omega arith in
      let d : c + suc j ≡ c + 1 + j = omega arith in
      rw (e, d) (ap (◌∷◌ (get_elem? xs (c % length xs))) (picks_add j k xs (c + 1)))

  -- In as many turns as there are elements, from any cursor, each place of the list comes up once,
  -- in the list's order.
  pub picks_cycle :
      (xs : List A) (c : ℕ)
      → xs ≢ []
      → picks xs c (length xs) ≡ map some (turned (c % length xs) xs)
  picks_cycle xs c h = cycle_at (c % length xs) refl (ground arith)
    where
      cycle_at :
          (r : ℕ)
          → c % length xs ≡ r
          → r < length xs
          → picks xs c (length xs) ≡ map some (turned r xs)
      cycle_at r e lt =
          let n : length xs ≡ length xs - r + r = omega arith in
          let front = picks_before (length xs - r) xs c r e (omega arith) in
          let back =
            picks_before r xs (c + (length xs - r)) 0 (wrap_mod c (length xs) r e (omega arith))
              (omega arith) in
          ap (picks xs c) n
          ∙ picks_add (length xs - r) r xs c
          ∙ rw (front, back, take_all (length xs - r) (drop r xs) (omega (arith, length-drop r xs)))
              (sym (map-append some (drop r xs) (take r xs)))
