-- ===== src/Base/Dict.antt =====
-- Python's `dict`: an association list in insertion order. Only `put` and `remove` build one, so
-- a key stands in it at most once.
use mathlib.Core.Path.{◌≡◌, refl, sym, ◌∙◌, subst}
use mathlib.Core.Logic.{◌≢◌, ◌⊎◌, inl, inr}
use mathlib.Core.Bool.{Bool, true, false}
use mathlib.Core.Option.{Option, none, some}
use mathlib.Core.List.{List, [], ◌∷◌}
use native.Mathlib.Omega.{arith}
use lem.Base.Tests.{Eq, ◌==◌, if◌then◌else◌, Bool-cases}

abbrev pub Dict {ℓ κ} : Type ℓ → Type κ → Type (ℓ ⊔ κ)
Dict K V = List (K × V)

some-inj {ℓ} : {A : Type ℓ} (x y : A) → some x ≡ some y → x ≡ y
some-inj x y h = cc

module _ {ℓ κ} {K : Type ℓ} {V : Type κ} ⦃e : Eq K⦄ where
  -- `d.get(k)`
  unfoldable pub lookup : K → Dict K V → Option V
  lookup k [] = none
  lookup k ((j, v) ∷ d) = if j == k then some v else lookup k d

  -- `d[k] = v`
  unfoldable pub put : K → V → Dict K V → Dict K V
  put k v [] = (k, v) ∷ []
  put k v ((j, w) ∷ d) = if j == k then (j, v) ∷ d else (j, w) ∷ put k v d

  -- `del d[k]`
  unfoldable pub remove : K → Dict K V → Dict K V
  remove k [] = []
  remove k ((j, w) ∷ d) = let rest = remove k d in if j == k then rest else (j, w) ∷ rest

  -- `k in d`
  unfoldable pub contains : K → Dict K V → Bool
  contains k d = elim (lookup k d) [ none ↦ false | some v ↦ true ]

  pub lookup-put :
      (k j : K) (v : V) (d : Dict K V)
      → lookup j (put k v d) ≡ (if k == j then some v else lookup j d)
  unfolding lookup put
  lookup-put k j v [] = refl
  lookup-put k j v ((i, w) ∷ d) =
      ground (arith, e.beq_iff k j, e.beq_iff i k, e.beq_iff i j, lookup-put k j v d)

  pub lookup-remove :
      (k j : K) (d : Dict K V) → lookup j (remove k d) ≡ (if k == j then none else lookup j d)
  unfolding lookup remove
  lookup-remove k j [] = ground arith
  lookup-remove k j ((i, w) ∷ d) =
      ground (arith, e.beq_iff k j, e.beq_iff i k, e.beq_iff i j, lookup-remove k j d)

  pub contains-put :
      (k j : K) (v : V) (d : Dict K V)
      → contains j (put k v d) ≡ (if k == j then true else contains j d)
  unfolding contains
  contains-put k j v d = ground (arith, lookup-put k j v d)

  pub contains-remove :
      (k j : K) (d : Dict K V) → contains j (remove k d) ≡ (if k == j then false else contains j d)
  unfolding contains
  contains-remove k j d = ground (arith, lookup-remove k j d)

  pub contains-found : (k : K) (v : V) (d : Dict K V) → lookup k d ≡ some v → contains k d ≡ true
  unfolding contains
  contains-found k v d h = ground (arith, h)

  -- What stands under a key behind a write, and behind a removal.
  pub put_self : (k : K) (v : V) (d : Dict K V) → lookup k (put k v d) ≡ some v
  put_self k v d = ground (arith, lookup-put k k v d, e.beq_iff k k)

  pub put_other : (k j : K) (v : V) (d : Dict K V) → k ≢ j → lookup j (put k v d) ≡ lookup j d
  put_other k j v d n = ground (arith, lookup-put k j v d, e.beq_iff k j, n)

  pub put_found :
      (k j : K) (v x : V) (d : Dict K V)
      → lookup j (put k v d) ≡ some x
      → ((k ≡ j) × (v ≡ x)) ⊎ ((k ≢ j) × (lookup j d ≡ some x))
  put_found k j v x d h = elim (Bool-cases (k == j)) [
    | inl same ↦ inl ((e.beq_iff k j).0 same, ground (arith, lookup-put k j v d, h, same))
    | inr other ↦
        inr ((λ q. cc ((e.beq_iff k j).1 q)), ground (arith, lookup-put k j v d, h, other))
  ]

  -- What holds of the value under each key still does, if it does of the value that is written.
  pub put_holds {μ} :
      (P : V → Type μ) (k j : K) (v v' x : V) (d : Dict K V)
      → lookup k d ≡ some v
      → (P v → P v')
      → lookup j d ≡ some x
      → P x
      → (u : V) × (lookup j (put k v' d) ≡ some u) × P u
  put_holds P k j v v' x d has f there p = elim (Bool-cases (k == j)) [
    | inl same ↦
        let q = (e.beq_iff k j).0 same in
        (
          v',
          subst (λ t. lookup t (put k v' d) ≡ some v') q (put_self k v' d),
          f (subst P (some-inj x v (sym there ∙ subst (λ t. lookup t d ≡ some v) q has)) p),
        )
    | inr other ↦ (x, put_other k j v' d (λ q. cc ((e.beq_iff k j).1 q)) ∙ there, p)
  ]

  -- A second write replaces the first, and a write of what stands there changes nothing.
  pub put-put : (k : K) (v w : V) (d : Dict K V) → put k v (put k w d) ≡ put k v d
  unfolding put
  put-put k v w [] = ground (arith, e.beq_iff k k)
  put-put k v w ((j, x) ∷ d) = ground (arith, put-put k v w d)

  pub put_same : (k : K) (v : V) (d : Dict K V) → lookup k d ≡ some v → put k v d ≡ d
  unfolding put lookup
  put_same k v [] h = cc
  put_same k v ((j, x) ∷ d) h = ground (arith, h, put_same k v d)

  pub remove_found :
      (k j : K) (x : V) (d : Dict K V)
      → lookup j (remove k d) ≡ some x
      → (k ≢ j) × (lookup j d ≡ some x)
  remove_found k j x d h = elim (Bool-cases (k == j)) [
    | inl same ↦ ground (arith, lookup-remove k j d, h, same)
    | inr other ↦ ((λ q. cc ((e.beq_iff k j).1 q)), ground (arith, lookup-remove k j d, h, other))
  ]

  pub remove_other : (k j : K) (d : Dict K V) → k ≢ j → lookup j (remove k d) ≡ lookup j d
  remove_other k j d n = ground (arith, lookup-remove k j d, e.beq_iff k j, n)

pub beq_refl {ℓ} : {K : Type ℓ} ⦃e : Eq K⦄ (k : K) → (k == k) ≡ true
beq_refl ⦃e⦄ k = (e.beq_iff k k).1 refl

pub ruleset dict_laws = (lookup-put, lookup-remove, contains-put, contains-remove, beq_refl)
