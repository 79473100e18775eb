-- ===== src/Prelude/Lists.antt =====
-- Lists measured by native numbers, under the library's names.
use Prim.Native.Nat.{ℕ, zero, suc, ◌+◌, ◌-◌, ◌≤◌, ◌<◌}
use mathlib.Core.Path.{◌≡◌, refl, ap, sym, ◌≡⟨◌⟩◌, ◌∎}
use native.Mathlib.Decide.{dec_le}
use mathlib.Core.List.{List, [], ◌∷◌, ◌++◌}
use mathlib.Core.Option.{Option, none, some}
use mathlib.Core.Logic.{◌⊎◌, inl, inr}
use faas_provider.Prelude.Tests.{ltb, ltb→lt, if◌then◌else◌, Bool-cases}
use native.Mathlib.Omega.{arith}

module _ {ℓ} {A : Type ℓ} where
  abbrev pub length : List A → ℕ
  length [] = 0
  length (x ∷ xs) = suc (length xs)

  abbrev pub take : ℕ → List A → List A
  take zero xs = []
  take (suc n) [] = []
  take (suc n) (x ∷ xs) = x ∷ take n xs

  abbrev pub drop : ℕ → List A → List A
  drop zero xs = xs
  drop (suc n) [] = []
  drop (suc n) (x ∷ xs) = drop n xs

  -- `xs[len(xs)-1]`, if there is one.
  abbrev pub last? : List A → Option A
  last? [] = none
  last? (x ∷ []) = some x
  last? (x ∷ y ∷ xs) = last? (y ∷ xs)

  -- `xs[1:]`
  abbrev pub rest : List A → List A
  rest [] = []
  rest (x ∷ xs) = xs

  abbrev pub All {κ} : (A → Type κ) → List A → Type κ
  All P [] = Unit
  All P (x ∷ xs) = P x × All P xs

  pub length-append : (xs ys : List A) → length (xs ++ ys) ≡ length xs + length ys
  length-append [] ys = omega arith
  length-append (x ∷ xs) ys = omega (arith, length-append xs ys)

  pub length-drop : (n : ℕ) (xs : List A) → length (drop n xs) ≡ length xs - n
  length-drop zero xs = omega arith
  length-drop (suc n) [] = omega arith
  length-drop (suc n) (x ∷ xs) = omega (arith, length-drop n xs)

  pub length-take-le : (n : ℕ) (xs : List A) → length (take n xs) ≤ length xs
  length-take-le zero xs = omega arith
  length-take-le (suc n) [] = omega arith
  length-take-le (suc n) (x ∷ xs) = omega (arith, length-take-le n xs)

  pub drop-length-le : (n : ℕ) (xs : List A) → length xs ≤ n → drop n xs ≡ []
  drop-length-le zero [] h = refl
  drop-length-le zero (x ∷ xs) h = absurd (omega arith)
  drop-length-le (suc n) [] h = refl
  drop-length-le (suc n) (x ∷ xs) h = drop-length-le n xs (omega arith)

  pub take-append-drop : (n : ℕ) (xs : List A) → take n xs ++ drop n xs ≡ xs
  take-append-drop zero xs = refl
  take-append-drop (suc n) [] = refl
  take-append-drop (suc n) (x ∷ xs) = ap (◌∷◌ x) (take-append-drop n xs)

  pub All-append {κ} : (P : A → Type κ) (xs ys : List A) → All P xs → All P ys → All P (xs ++ ys)
  All-append P [] ys p q = q
  All-append P (x ∷ xs) ys (p, ps) q = (p, All-append P xs ys ps q)

  pub last?-append : (xs : List A) (x : A) → last? (xs ++ (x ∷ [])) ≡ some x
  last?-append [] x = refl
  last?-append (y ∷ []) x = refl
  last?-append (y ∷ z ∷ xs) x = last?-append (z ∷ xs) x

  -- The last `n` elements of a list, or all of them.
  abbrev pub take_last : ℕ → List A → List A
  take_last n xs = drop (length xs - n) xs

  pub length-take_last-le : (n : ℕ) (xs : List A) → length (take_last n xs) ≤ n
  length-take_last-le n xs = omega (arith, length-drop (length xs - n) xs)

  pub drop-append : (n : ℕ) (xs ys : List A) → n ≤ length xs → drop n (xs ++ ys) ≡ drop n xs ++ ys
  drop-append zero xs ys h = refl
  drop-append (suc n) [] ys h = absurd (omega arith)
  drop-append (suc n) (x ∷ xs) ys h = drop-append n xs ys (omega arith)

  pub drop-one : (xs : List A) → drop 1 xs ≡ rest xs
  drop-one [] = refl
  drop-one (x ∷ xs) = refl

  pub rest-drop : (n : ℕ) (xs : List A) → rest (drop n xs) ≡ drop (suc n) xs
  rest-drop zero [] = refl
  rest-drop zero (x ∷ xs) = refl
  rest-drop (suc n) [] = refl
  rest-drop (suc n) (x ∷ xs) = rest-drop n xs

  -- To keep the last `w` elements, an element at the end needs only those kept so far.
  pub take_last-take_last :
      (w : ℕ) (xs : List A) (x : A)
      → 0 < w
      → take_last w (take_last w xs ++ (x ∷ [])) ≡ take_last w (xs ++ (x ∷ []))
  take_last-take_last w xs x pos = elim (dec_le (length xs) w) [
    | yes short ↦ let e : length xs - w ≡ 0 = omega arith in rw e
    | no long ↦
        let n = length xs - w in
        let kept : length (drop n xs ++ (x ∷ [])) - w ≡ 1 =
          omega (arith, length-append (drop n xs) (x ∷ []), length-drop n xs) in
        let all : length (xs ++ (x ∷ [])) - w ≡ suc n = omega (arith, length-append xs (x ∷ [])) in
        rw (kept, all)
          (drop 1 (drop n xs ++ (x ∷ []))
            ≡⟨ ap (drop 1) (sym (drop-append n xs (x ∷ []) (omega arith))) ⟩
              drop 1 (drop n (xs ++ (x ∷ [])))
            ≡⟨ drop-one (drop n (xs ++ (x ∷ []))) ⟩ rest (drop n (xs ++ (x ∷ [])))
            ≡⟨ rest-drop n (xs ++ (x ∷ [])) ⟩ drop (suc n) (xs ++ (x ∷ [])) ∎)
  ]

  pub length-rest : (xs : List A) → length (rest xs) ≡ length xs - 1
  length-rest [] = refl
  length-rest (x ∷ xs) = omega arith

  -- A bounded log: an append, and the drop of the first element where the bound is passed.
  pub slide :
      (w : ℕ) (log : List A) (a : A)
      → length log ≤ w
      → (if ltb w (length (log ++ (a ∷ []))) then rest (log ++ (a ∷ [])) else log ++ (a ∷ []))
        ≡ take_last w (log ++ (a ∷ []))
  slide w log a h = elim (Bool-cases (ltb w (length (log ++ (a ∷ []))))) [
    | inl full ↦
        let one : length (log ++ (a ∷ [])) - w ≡ 1 =
          omega (arith, ltb→lt _ _ full, length-append log (a ∷ [])) in
        rw (full, one) (sym (drop-one (log ++ (a ∷ []))))
    | inr room ↦ let fits : length (log ++ (a ∷ [])) - w ≡ 0 = ground arith in rw (room, fits)
  ]

  -- What was appended last is kept.
  pub last?-take_last :
      (w : ℕ) (xs : List A) (x : A) → 0 < w → last? (take_last w (xs ++ (x ∷ []))) ≡ some x
  last?-take_last w xs x pos =
      let n = length (xs ++ (x ∷ [])) - w in
      rw (drop-append n xs (x ∷ []) (omega (arith, length-append xs (x ∷ []))))
        (last?-append (drop n xs) x)

  pub take_last_of_le : (w : ℕ) (xs : List A) → length xs ≤ w → take_last w xs ≡ xs
  take_last_of_le w xs h = let fits : length xs - w ≡ 0 = omega arith in rw fits

  pub All-mono {κ μ} :
      (P : A → Type κ) (Q : A → Type μ) (xs : List A) → ((x : A) → P x → Q x) → All P xs → All Q xs
  All-mono P Q [] f h = tt
  All-mono P Q (x ∷ xs) f (h, hs) = (f x h, All-mono P Q xs f hs)

  pub List-cases : (xs : List A) → (xs ≡ []) ⊎ ((x : A) × (ys : List A) × (xs ≡ x ∷ ys))
  List-cases [] = inl refl
  List-cases (x ∷ xs) = inr (x, xs, refl)
