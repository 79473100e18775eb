-- ===== src/Prelude/Maps.antt =====
-- Go's `map[string]V` as an association list. A `range` over a map visits the entries in the
-- list's order; Go leaves the order open, so what is proved for every list holds for every order.
use Prim.Native.String.{String}
use Prim.Native.Nat.{suc}
use mathlib.Core.Path.{◌≡◌, refl}
use mathlib.Core.Logic.{◌≢◌, inl, inr}
use mathlib.Core.List.{List, [], ◌∷◌}
use mathlib.Core.Option.{Option, none, some}
use native.Mathlib.Omega.{arith}
use text.Mathlib.TextEquality.{eq_iff}
use text.Mathlib.TextPositions.{eq_refl}
use faas_provider.Prelude.Tests.{str_eq, if◌then◌else◌, Bool-cases}
use faas_provider.Prelude.Lists.{length, All, All-mono}

abbrev pub Map {ℓ} : Type ℓ → Type ℓ
Map V = List (String × V)

module _ {ℓ} {V : Type ℓ} where
  -- `v, exists := m[k]`
  unfoldable pub lookup : String → Map V → Option V
  lookup k [] = none
  lookup k ((j, v) ∷ m) = if str_eq j k then some v else lookup k m

  -- `m[k] = v`
  unfoldable pub insert : String → V → Map V → Map V
  insert k v [] = (k, v) ∷ []
  insert k v ((j, w) ∷ m) = if str_eq j k then (j, v) ∷ m else (j, w) ∷ insert k v m

  -- Every key stands once.
  abbrev pub IsFresh : String → Map V → Type 0
  IsFresh k m = All (λ e. e.0 ≢ k) m

  abbrev pub HasDistinctKeys : Map V → Type 0
  HasDistinctKeys [] = Unit
  HasDistinctKeys ((k, v) ∷ m) = IsFresh k m × HasDistinctKeys m

  -- The written key reads as what was written, every other key as before.
  pub lookup-insert :
      (written asked : String) (new : V) (entries : Map V)
      → lookup asked (insert written new entries)
        ≡ (if str_eq written asked then some new else lookup asked entries)
  unfolding insert lookup
  lookup-insert written asked new [] = refl
  lookup-insert written asked new ((first, old) ∷ entries) =
      let later = lookup-insert written asked new entries in
      ground (arith, later, eq_iff first asked, eq_iff first written, eq_iff written asked)

  pub lookup-insert_self :
      (key : String) (new : V) (entries : Map V) → lookup key (insert key new entries) ≡ some new
  lookup-insert_self key new entries = rw (lookup-insert key key new entries, eq_refl key) refl

  IsFresh-insert :
      (i k : String) (v : V) (m : Map V) → i ≢ k → IsFresh k m → IsFresh k (insert i v m)
  unfolding insert
  IsFresh-insert i k v [] n h = (n, tt)
  IsFresh-insert i k v ((j, w) ∷ m) n (p, h) =
      ground (arith, eq_iff j i, IsFresh-insert i k v m n h)

  pub insert-HasDistinctKeys :
      (k : String) (v : V) (m : Map V) → HasDistinctKeys m → HasDistinctKeys (insert k v m)
  unfolding insert
  insert-HasDistinctKeys k v [] h = (tt, tt)
  insert-HasDistinctKeys k v ((j, w) ∷ m) (f, d) = elim (Bool-cases (str_eq j k)) [
    | inl e ↦ rw e (f, d)
    | inr e ↦
        rw e (
          IsFresh-insert k j v m (λ p. ground (arith, eq_iff j k)) f,
          insert-HasDistinctKeys k v m d,
        )
  ]

  -- The number of entries grows by one exactly at a new key.
  pub length-insert :
      (k : String) (v : V) (m : Map V)
      → length (insert k v m) ≡ (elim (lookup k m) [ none ↦ suc (length m) | some _ ↦ length m ])
  unfolding lookup insert
  length-insert k v [] = refl
  length-insert k v ((j, w) ∷ m) = ground (arith, length-insert k v m)

  pub All-insert {κ} :
      (P : String × V → Type κ) (k : String) (v : V) (m : Map V)
      → ((j : String) → j ≡ k → P (j, v))
      → All P m
      → All P (insert k v m)
  unfolding insert
  All-insert P k v [] p h = (p k refl, tt)
  All-insert P k v ((j, w) ∷ m) p (q, h) = elim (Bool-cases (str_eq j k)) [
    | inl e ↦ rw e (p j ((eq_iff j k).0 e), h)
    | inr e ↦ rw e (q, All-insert P k v m p h)
  ]

  pub lookup_fresh : (k : String) (m : Map V) → IsFresh k m → lookup k m ≡ none
  unfolding lookup
  lookup_fresh k [] h = refl
  lookup_fresh k ((j, v) ∷ m) (n, h) = ground (arith, eq_iff j k, lookup_fresh k m h)

  -- A key that is found behind a fresh one is found.
  pub lookup_other :
      (k q : String) (v u : V) (m : Map V)
      → IsFresh k m
      → lookup q m ≡ some u
      → lookup q ((k, v) ∷ m) ≡ some u
  unfolding lookup
  lookup_other k q v u m f found = ground (arith, eq_iff k q, lookup_fresh k m f)

  -- Where every key stands once, every entry is found.
  pub All-lookup : (m : Map V) → HasDistinctKeys m → All (λ e. lookup e.0 m ≡ some e.1) m
  unfolding lookup
  All-lookup [] d = tt
  All-lookup ((k, v) ∷ m) (f, d) = (
    rw (eq_refl k) refl,
    All-mono _ _ m (λ e found. lookup_other k e.0 v e.1 m f found) (All-lookup m d),
  )
