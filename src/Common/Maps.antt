-- ===== src/Common/Maps.antt =====
-- A Go map as an association list. Iteration visits the pairs in list order; a theorem that holds
-- for every list holds for every order of iteration.
use blob_indexer_api.Common.{◌≡◌, refl, ite, List, [], ◌∷◌, Option, none, some, arith}

module _ {ℓ} {K : Type 0} {V : Type ℓ} (eq? : Discrete K) where
  unfoldable pub lookup : K → List (K × V) → Option V
  lookup k [] = none
  lookup k ((j, v) ∷ m) = ite (eq? j k) (some v) (lookup k m)

  unfoldable pub insert : K → V → List (K × V) → List (K × V)
  insert k v [] = (k, v) ∷ []
  insert k v ((j, w) ∷ m) = ite (eq? j k) ((k, v) ∷ m) ((j, w) ∷ insert k v m)

  unfoldable pub delete : K → List (K × V) → List (K × V)
  delete k [] = []
  delete k ((j, w) ∷ m) = ite (eq? j k) (delete k m) ((j, w) ∷ delete k m)

  pub lookup-insert :
      (k j : K) (v : V) (m : List (K × V))
      → lookup j (insert k v m) ≡ ite (eq? k j) (some v) (lookup j m)
  unfolding lookup insert
  lookup-insert k j v [] = refl
  lookup-insert k j v ((i, w) ∷ m) = ground (arith, lookup-insert k j v m)

  pub lookup-delete :
      (k j : K) (m : List (K × V)) → lookup j (delete k m) ≡ ite (eq? k j) none (lookup j m)
  unfolding lookup delete
  lookup-delete k j [] = ground arith
  lookup-delete k j ((i, w) ∷ m) = ground (arith, lookup-delete k j m)

pub ite_yes {ℓ} : {A : Type ℓ} {P : Type 0} (d : Dec P) (x y : A) → P → ite d x y ≡ x
ite_yes (yes p) x y q = refl
ite_yes (no n) x y q = absurd (n q)

pub ite_no {ℓ} : {A : Type ℓ} {P : Type 0} (d : Dec P) (x y : A) → ¬ P → ite d x y ≡ y
ite_no (yes p) x y q = absurd (q p)
ite_no (no n) x y q = refl
