-- ===== src/Deliveries/Reclaimed.antt =====
-- A delivery that was reserved and not completed.
use writ_ai.Prelude.{
  ℕ, Bool, true, false, not, ◌≡◌, refl, ap, ◌∙◌, List, [], ◌∷◌, none, some, any, filter, length,
  arith, Bool-cases, inl, inr,
}
use writ_ai.Exec.{ok}
use writ_ai.Domain.Value.{Fields}
use writ_ai.Deliveries.{
  Call, Deliveries, Keys, completes, complete, get_delivery, grants, is_completed, is_reservation,
  perform, reserve_again, reserves,
}
use writ_ai.Deliveries.Kept.{same_first}

module _ {Key : Type 0} (keys : Keys Key) where
  -- The store holds no completed record of the delivery.
  abbrev pub is_open : Key → Deliveries Key → Bool
  is_open k deliveries = elim (get_delivery keys k deliveries) [
    | none ↦ true
    | some item ↦ not (is_completed item.status)
  ]

  -- The call completes this delivery.
  abbrev pub is_completion : Key → Call Key → Bool
  is_completion k (reserves j) = false
  is_completion k (completes j result) = keys.same j k

  abbrev pub count_reservations : Key → List (Call Key) → ℕ
  count_reservations k calls = length (filter (is_reservation keys (reserve_again keys) k) calls)

  granted-reserve_again :
      (k : Key) (deliveries : Deliveries Key)
      → (reserve_again keys k deliveries).0 ≡ ok (is_open k deliveries)
  unfolding reserve_again get_delivery
  granted-reserve_again k [] = refl
  granted-reserve_again k (x ∷ rest) = ground (arith, granted-reserve_again k rest)

  open-reserve_again :
      (k j : Key) (deliveries : Deliveries Key)
      → is_open k deliveries ≡ true
      → is_open k (reserve_again keys j deliveries).1 ≡ true
  unfolding reserve_again get_delivery
  open-reserve_again k j [] free = ground arith
  open-reserve_again k j (x ∷ rest) free =
      ground (arith, free, open-reserve_again k j rest, same_first keys x.key j k)

  open-complete :
      (k j : Key) (result : Fields) (deliveries : Deliveries Key)
      → keys.same j k ≡ false
      → is_open k deliveries ≡ true
      → is_open k (complete keys j result deliveries).1 ≡ true
  unfolding complete get_delivery
  open-complete k j result [] other free = refl
  open-complete k j result (x ∷ rest) other free =
      ground (arith, free, other, open-complete k j result rest, same_first keys x.key j k)

  -- As long as a delivery is not completed, the CrustData store grants every reservation of it, so that
  -- one that was lost on the way is handled again: given that the calls do not complete it and the store
  -- holds no completed record of it.
  pub grants-reserve_again :
      (k : Key) (calls : List (Call Key)) (deliveries : Deliveries Key)
      → any (is_completion k) calls ≡ false
      → is_open k deliveries ≡ true
      → grants keys (reserve_again keys) k calls deliveries ≡ count_reservations k calls
  unfolding grants perform
  grants-reserve_again k [] deliveries unfinished free = refl
  grants-reserve_again k (reserves j ∷ calls) deliveries unfinished free =
      let later =
        grants-reserve_again k calls (reserve_again keys j deliveries).1
          (ground (arith, unfinished)) (open-reserve_again k j deliveries free) in
      elim (Bool-cases (keys.same j k)) [
        | inr other ↦ ground (arith, other, later)
        | inl same ↦
            let given : (reserve_again keys j deliveries).0 ≡ ok true =
              granted-reserve_again j deliveries
              ∙ (ap (λ (x : Key). ok (is_open x deliveries)) ((keys.same_iff j k).0 same)
                  ∙ ap (λ (b : Bool). ok b) free) in
            ground (arith, same, later, given)
      ]
  grants-reserve_again k (completes j result ∷ calls) deliveries unfinished free =
      let later =
        grants-reserve_again k calls (complete keys j result deliveries).1
          (ground (arith, unfinished))
          (open-complete k j result deliveries (ground (arith, unfinished)) free) in
      ground (arith, later)
