-- ===== src/Prelude/Table.antt =====
-- A table of the SQLite file: its rows in order of insertion, found by a text column.
use Prim.Native.String.{String}
use mathlib.Core.Path.{◌≡◌, refl}
use mathlib.Core.Option
use mathlib.Core.Option.{Option, none, some}
use mathlib.Core.List.{List, [], ◌∷◌, ◌++◌, map}
use native.Mathlib.Omega.{arith}
use text.Mathlib.Text.{◌==◌}
use text.Mathlib.TextEquality.{eq_iff}
use vermay_agent.Prelude.Tests.{if◌then◌else◌}

-- The first value, or else the second.
abbrev pub or_else {ℓ} : {A : Type ℓ} → Option A → Option A → Option A
or_else none b = b
or_else (some a) b = some a

module _ {ℓ} {A : Type ℓ} (key : A → String) where
  -- SELECT ... WHERE key = k
  unfoldable pub lookup : String → List A → Option A
  lookup k [] = none
  lookup k (r ∷ rows) = if key r == k then some r else lookup k rows

  -- UPDATE ... WHERE key = k
  unfoldable pub update : String → (A → A) → List A → List A
  update k f [] = []
  update k f (r ∷ rows) = (if key r == k then f r else r) ∷ update k f rows

  -- DELETE ... WHERE key = k
  unfoldable pub remove : String → List A → List A
  remove k [] = []
  remove k (r ∷ rows) = let rest = remove k rows in if key r == k then rest else r ∷ rest

  -- INSERT
  unfoldable pub insert : A → List A → List A
  insert r rows = rows ++ r ∷ []

  pub lookup-insert :
      (k : String) (r : A) (rows : List A)
      → lookup k (insert r rows) ≡ or_else (lookup k rows) (if key r == k then some r else none)
  unfolding lookup insert
  lookup-insert k r [] = refl
  lookup-insert k r (x ∷ rows) = ground (arith, lookup-insert k r rows)

  pub lookup-remove :
      (k j : String) (rows : List A)
      → lookup j (remove k rows) ≡ (if k == j then none else lookup j rows)
  unfolding lookup remove
  lookup-remove k j [] = ground arith
  lookup-remove k j (r ∷ rows) =
      ground (arith, lookup-remove k j rows, eq_iff (key r) k, eq_iff (key r) j, eq_iff k j)

  pub lookup-update :
      (k j : String) (f : A → A) (rows : List A)
      → ((r : A) → key (f r) ≡ key r)
      → lookup j (update k f rows)
        ≡ (if k == j then Option.map f (lookup j rows) else lookup j rows)
  unfolding lookup update
  lookup-update k j f [] same = ground arith
  lookup-update k j f (r ∷ rows) same =
      ground (
        arith,
        same r,
        lookup-update k j f rows same,
        eq_iff (key r) k,
        eq_iff (key r) j,
        eq_iff k j,
      )

  pub lookup-map :
      (j : String) (f : A → A) (rows : List A)
      → ((r : A) → key (f r) ≡ key r)
      → lookup j (map f rows) ≡ Option.map f (lookup j rows)
  unfolding lookup
  lookup-map j f [] same = refl
  lookup-map j f (r ∷ rows) same = ground (arith, same r, lookup-map j f rows same)

  -- What a lookup returns has the key that was asked for.
  pub key-lookup : (k : String) (rows : List A) (r : A) → lookup k rows ≡ some r → key r ≡ k
  unfolding lookup
  key-lookup k [] r h = ground arith
  key-lookup k (x ∷ rows) r h = ground (arith, eq_iff (key x) k, key-lookup k rows r)
