-- ===== src/Tables.antt =====
-- The two maps of Rust's standard library that the checker keeps facts in, as association lists.
-- A `HashMap` keeps its entries in some order, here the order of the list. A `BTreeMap` keeps them by key.
use mathlib.Core.Path.{subst}
use deed.Prelude.{
  ◌≡◌, refl, ◌↔◌, Bool, true, Option, none, some, List, [], ◌∷◌, if◌then◌else◌, All, Bool-cases,
  Option-cases, inl, inr, arith,
}

pub record Key (K : Type 0) : Type 0 where
  pub beq : K → K → Bool
  pub beq_iff : (a b : K) → (beq a b ≡ true) ↔ (a ≡ b)
  pub before : K → K → Bool

-- Every entry of the map has the property.
abbrev pub Entries : {K V : Type 0} → (K → V → Type 0) → List (K × V) → Type 0
Entries {K} {V} P = All (λ (e : K × V). P e.0 e.1)

abbrev pub unwrap_or : {V : Type 0} → Option V → V → V
unwrap_or (some v) d = v
unwrap_or none d = d

module _ {K V : Type 0} ⦃key : Key K⦄ where
  unfoldable pub lookup : K → List (K × V) → Option V
  lookup k [] = none
  lookup k ((j, v) ∷ m) = if key.beq j k then some v else lookup k m

  unfoldable pub insert : K → V → List (K × V) → List (K × V)
  insert k v [] = (k, v) ∷ []
  insert k v ((j, w) ∷ m) = if key.beq j k then (k, v) ∷ m else (j, w) ∷ insert k v m

  unfoldable pub retain : (K → Bool) → List (K × V) → List (K × V)
  retain keep [] = []
  retain keep ((j, w) ∷ m) = let rest = retain keep m in if keep j then (j, w) ∷ rest else rest

  -- The search in a map kept by key stops at the first larger key.
  unfoldable pub sorted_get : K → List (K × V) → Option V
  sorted_get k [] = none
  sorted_get k ((j, v) ∷ m) =
      if key.beq j k then some v else if key.before k j then none else sorted_get k m

  unfoldable pub sorted_insert : K → V → List (K × V) → List (K × V)
  sorted_insert k v [] = (k, v) ∷ []
  sorted_insert k v ((j, w) ∷ m) =
      if key.beq j k
      then (k, v) ∷ m
      else if key.before k j
      then (k, v) ∷ (j, w) ∷ m
      else (j, w) ∷ sorted_insert k v m

  unfoldable pub sorted_remove : K → List (K × V) → List (K × V)
  sorted_remove k [] = []
  sorted_remove k ((j, w) ∷ m) =
      if key.beq j k then m else if key.before k j then (j, w) ∷ m else (j, w) ∷ sorted_remove k m

  pub lookup-insert :
      (k j : K) (v : V) (m : List (K × V))
      → lookup j (insert k v m) ≡ (if key.beq k j then some v else lookup j m)
  unfolding lookup insert
  lookup-insert k j v [] = refl
  lookup-insert k j v ((i, w) ∷ m) =
      ground (arith, key.beq_iff k j, key.beq_iff i k, key.beq_iff i j, lookup-insert k j v m)

  module _ (P : K → V → Type 0) where
    pub lookup-Entries :
        (k : K) (m : List (K × V)) {v : V} → Entries P m → lookup k m ≡ some v → P k v
    unfolding lookup
    lookup-Entries k [] h e = cc
    lookup-Entries k ((j, w) ∷ m) {v} h e = elim (Bool-cases (key.beq j k)) [
      | inl same ↦
          let found : w ≡ v = ground arith in
          subst (λ x. P k x) found (subst (λ x. P x w) ((key.beq_iff j k).0 same) h.0)
      | inr other ↦ lookup-Entries k m h.1 (rw other at e)
    ]

    pub insert-Entries :
        (k : K) (v : V) (m : List (K × V)) → P k v → Entries P m → Entries P (insert k v m)
    unfolding insert
    insert-Entries k v [] p h = (p, tt)
    insert-Entries k v ((j, w) ∷ m) p h = elim (Bool-cases (key.beq j k)) [
      | inl same ↦ rw same (p, h.1)
      | inr other ↦ rw other (h.0, insert-Entries k v m p h.1)
    ]

    pub retain-Entries :
        (keep : K → Bool) (m : List (K × V)) → Entries P m → Entries P (retain keep m)
    unfolding retain
    retain-Entries keep [] h = tt
    retain-Entries keep ((j, w) ∷ m) h = elim (Bool-cases (keep j)) [
      | inl kept ↦ rw kept (h.0, retain-Entries keep m h.1)
      | inr gone ↦ rw gone (retain-Entries keep m h.1)
    ]

    pub unwrap-Entries :
        (k : K) (m : List (K × V)) (d : V) → Entries P m → P k d → P k (unwrap_or (lookup k m) d)
    unwrap-Entries k m d h p = elim (Option-cases (lookup k m)) [
      | inl missing ↦ rw missing p
      | inr (v, found) ↦ rw found (lookup-Entries k m h found)
    ]
