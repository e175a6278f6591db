-- ===== src/Deliveries/Once.antt =====
-- How often a delivery is granted.
use writ_ai.Prelude.{
  Bool, true, not, ◌&&◌, ◌||◌, ◌≡◌, refl, ap, List, [], ◌∷◌, any, any-append, arith, Bool-cases,
  inl, inr, if◌then◌else◌,
}
use writ_ai.Exec.{ok}
use writ_ai.Domain.Value.{Fields}
use writ_ai.Deliveries.{
  Call, Deliveries, DeliveryRecord, Keys, completes, complete, fresh, grants, is_reservation,
  perform, reserve_once, reserves,
}

module _ {Key : Type 0} (keys : Keys Key) where
  -- The store holds a record of the delivery.
  abbrev pub holds : Key → Deliveries Key → Bool
  holds k = any (λ (item : DeliveryRecord Key). keys.same item.key k)

  holds_same :
      (j k : Key) (deliveries : Deliveries Key)
      → keys.same j k ≡ true
      → holds j deliveries ≡ holds k deliveries
  holds_same j k deliveries h = ap (λ (x : Key). holds x deliveries) ((keys.same_iff j k).0 h)

  holds-complete :
      (k j : Key) (result : Fields) (deliveries : Deliveries Key)
      → holds k (complete keys j result deliveries).1 ≡ holds k deliveries
  unfolding complete
  holds-complete k j result [] = refl
  holds-complete k j result (item ∷ rest) = ground (arith, holds-complete k j result rest)

  holds-reserve_once :
      (k j : Key) (deliveries : Deliveries Key)
      → holds k (reserve_once keys j deliveries).1 ≡ (holds k deliveries || keys.same j k)
  unfolding reserve_once
  holds-reserve_once k j deliveries = elim (Bool-cases (holds j deliveries)) [
    | inl there ↦ ground (arith, there, holds_same j k deliveries)
    | inr absent ↦ ground (
      arith,
      absent,
      any-append (λ (item : DeliveryRecord Key). keys.same item.key k) deliveries (fresh j ∷ []),
    )
  ]

  granted :
      (j : Key) (deliveries : Deliveries Key)
      → (reserve_once keys j deliveries).0 ≡ ok (not (holds j deliveries))
  unfolding reserve_once
  granted j deliveries = ground arith

  -- However the Slack store is called, a delivery is granted at most once: never if the store
  -- holds it already, and otherwise exactly if the calls reserve it at all.
  pub grants-reserve_once :
      (k : Key) (calls : List (Call Key)) (deliveries : Deliveries Key)
      → grants keys (reserve_once keys) k calls deliveries ≡ (
          if not (holds k deliveries) && any (is_reservation keys (reserve_once keys) k) calls
          then 1
          else 0)
  unfolding grants perform
  grants-reserve_once k [] deliveries = ground arith
  grants-reserve_once k (reserves j ∷ calls) deliveries =
      let after = (reserve_once keys j deliveries).1 in
      let later = grants-reserve_once k calls after in
      let holding = holds-reserve_once k j deliveries in
      elim (Bool-cases (holds j deliveries)) [
        | inl there ↦
            ground (arith, later, holding, holds_same j k deliveries, there, granted j deliveries)
        | inr absent ↦
            ground (arith, later, holding, holds_same j k deliveries, absent, granted j deliveries)
      ]
  grants-reserve_once k (completes j result ∷ calls) deliveries = ground (
    arith,
    grants-reserve_once k calls (complete keys j result deliveries).1,
    holds-complete k j result deliveries,
  )
