-- ===== src/Dict.antt =====
-- Python's `dict` with text keys, as an association list in insertion order.
use writ_ai.Prelude.{
  any, ap, sym, subst, String, Bool, true, false, List, [], ◌∷◌, Option, none, some, ◌≡◌, refl,
  ◌==◌, ◌||◌, eq_iff, arith, contains, if◌then◌else◌, Bool-cases, inl, inr, Each, length, suc,
}

abbrev pub Dict {ℓ} : Type ℓ → Type ℓ
Dict V = List (String × V)

module _ {ℓ} {V : Type ℓ} where
  -- `d.get(k)`
  unfoldable pub lookup : String → Dict V → Option V
  lookup k [] = none
  lookup k ((j, v) ∷ d) = if j == k then some v else lookup k d

  -- `d[k] = v`: in place, or at the end.
  unfoldable pub insert : String → V → Dict V → Dict V
  insert k v [] = (k, v) ∷ []
  insert k v ((j, w) ∷ d) = if j == k then (j, v) ∷ d else (j, w) ∷ insert k v d

  abbrev pub keys : Dict V → List String
  keys [] = []
  keys ((k, v) ∷ d) = k ∷ keys d

  abbrev pub values : Dict V → List V
  values [] = []
  values ((k, v) ∷ d) = v ∷ values d

  -- `k in d`
  abbrev pub has_key : Dict V → String → Bool
  has_key d k = contains (keys d) k

  pub lookup-insert :
      (k j : String) (v : V) (d : Dict V)
      → lookup j (insert k v d) ≡ (if k == j then some v else lookup j d)
  unfolding lookup insert
  lookup-insert k j v [] = refl
  lookup-insert k j v ((i, w) ∷ d) =
      ground (arith, eq_iff k j, eq_iff i k, eq_iff i j, lookup-insert k j v d)

  pub has_key-insert :
      (k j : String) (v : V) (d : Dict V) → has_key (insert k v d) j ≡ (k == j || has_key d j)
  unfolding insert
  has_key-insert k j v [] = refl
  has_key-insert k j v ((i, w) ∷ d) =
      ground (arith, eq_iff k j, eq_iff i k, eq_iff i j, has_key-insert k j v d)

  -- Assigning to a present key adds no key.
  pub keys-insert :
      (k : String) (v : V) (d : Dict V) → has_key d k ≡ true → keys (insert k v d) ≡ keys d
  unfolding insert
  keys-insert k v [] h = ground arith
  keys-insert k v ((i, w) ∷ d) h = ground (arith, keys-insert k v d)

  pub lookup_of_has_key :
      (k : String) (d : Dict V) → has_key d k ≡ true → (v : V) × (lookup k d ≡ some v)
  unfolding lookup
  lookup_of_has_key k [] h = absurd (ground arith)
  lookup_of_has_key k ((i, w) ∷ d) h = elim (Bool-cases (i == k)) [
    | inl here ↦ (w, ground arith)
    | inr later ↦ let (v, p) = lookup_of_has_key k d (ground arith) in (v, ground arith)
  ]

  pub has_key_of_lookup :
      (k : String) (d : Dict V) (v : V) → lookup k d ≡ some v → has_key d k ≡ true
  unfolding lookup
  has_key_of_lookup k [] v h = ground arith
  has_key_of_lookup k ((i, w) ∷ d) v h = ground (arith, has_key_of_lookup k d v)

  pub lookup_of_no_key : (k : String) (d : Dict V) → has_key d k ≡ false → lookup k d ≡ none
  unfolding lookup
  lookup_of_no_key k [] h = refl
  lookup_of_no_key k ((i, w) ∷ d) h = ground (arith, lookup_of_no_key k d)

module _ {ℓ κ} {V : Type ℓ} (P : String → V → Type κ) where
  -- A predicate on every entry.
  abbrev pub EachEntry : Dict V → Type κ
  EachEntry [] = Unit
  EachEntry ((k, v) ∷ d) = P k v × EachEntry d

  pub EachEntry-insert :
      (k : String) (v : V) (d : Dict V) → EachEntry d → P k v → EachEntry (insert k v d)
  unfolding insert
  EachEntry-insert k v [] h p = (p, tt)
  EachEntry-insert k v ((j, w) ∷ d) h p = elim (Bool-cases (j == k)) [
    | inl same ↦ rw same (subst (λ i. P i v) (sym ((eq_iff j k).0 same)) p, h.1)
    | inr other ↦ rw other (h.0, EachEntry-insert k v d h.1 p)
  ]

  pub EachEntry-lookup :
      (k : String) (v : V) (d : Dict V) → EachEntry d → lookup k d ≡ some v → P k v
  unfolding lookup
  EachEntry-lookup k v [] h e = absurd (ground arith)
  EachEntry-lookup k v ((j, w) ∷ d) h e = elim (Bool-cases (j == k)) [
    | inl same ↦ subst (P k) (ground arith) (subst (λ i. P i w) ((eq_iff j k).0 same) h.0)
    | inr other ↦ EachEntry-lookup k v d h.1 (rw other at e)
  ]

module _ {ℓ} {V : Type ℓ} where
  -- The values of a dictionary, tested one by one.
  pub any-values :
      (p : V → Bool) (q : String → Bool) (d : Dict V)
      → EachEntry (λ k v. p v ≡ q k) d
      → any p (values d) ≡ any q (keys d)
  any-values p q [] h = refl
  any-values p q ((k, v) ∷ d) h = ground (arith, h.0, any-values p q d h.1)

  pub length-keys : (d : Dict V) → length (keys d) ≡ length d
  length-keys [] = refl
  length-keys ((k, v) ∷ d) = ap suc (length-keys d)

module _ {ℓ κ} {V : Type ℓ} (P : String → V → Type κ) (Q : V → Type κ) where
  pub Each-values :
      ((k : String) (v : V) → P k v → Q v) → (d : Dict V) → EachEntry P d → Each Q (values d)
  Each-values more [] h = tt
  Each-values more ((k, v) ∷ d) h = (more k v h.0, Each-values more d h.1)
