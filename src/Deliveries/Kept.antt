-- ===== src/Deliveries/Kept.antt =====
-- A completed delivery.
use writ_ai.Prelude.{
  true, false, ◌&&◌, ◌≡◌, refl, sym, ap, ◌∙◌, List, [], ◌∷◌, ◌++◌, some, any, arith, Bool-cases,
  inl, inr,
}
use writ_ai.Exec.{ok}
use writ_ai.Domain.Value.{Fields}
use writ_ai.Deliveries.{
  Call, Deliveries, DeliveryRecord, Keys, Reserve, completes, complete, fresh, get_delivery, grants,
  is_completed, is_granted, is_reservation, perform, reserve_again, reserve_once, reserves, run,
}

module _ {Key : Type 0} (keys : Keys Key) where
  -- The store holds this completed record of a delivery.
  abbrev pub IsDone : Key → DeliveryRecord Key → Deliveries Key → Type 0
  IsDone k item deliveries =
      (get_delivery keys k deliveries ≡ some item) × (is_completed item.status ≡ true)

  pub same_first : (i j k : Key) → keys.same i j ≡ true → keys.same j k ≡ keys.same i k
  same_first i j k h = ap (λ (x : Key). keys.same x k) (sym ((keys.same_iff i j).0 h))

  get-complete :
      (k j : Key) (result : Fields) (item : DeliveryRecord Key) (deliveries : Deliveries Key)
      → get_delivery keys k deliveries ≡ some item
      → is_completed item.status ≡ true
      → get_delivery keys k (complete keys j result deliveries).1 ≡ some item
  unfolding complete get_delivery
  get-complete k j result item [] found finished = absurd (ground (arith, found))
  get-complete k j result item (x ∷ rest) found finished =
      ground (arith, found, finished, get-complete k j result item rest)

  get-reserve_again :
      (k j : Key) (item : DeliveryRecord Key) (deliveries : Deliveries Key)
      → get_delivery keys k deliveries ≡ some item
      → is_completed item.status ≡ true
      → get_delivery keys k (reserve_again keys j deliveries).1 ≡ some item
  unfolding reserve_again get_delivery
  get-reserve_again k j item [] found finished = absurd (ground (arith, found))
  get-reserve_again k j item (x ∷ rest) found finished =
      ground (arith, found, finished, get-reserve_again k j item rest, same_first x.key j k)

  refused-reserve_again :
      (k : Key) (item : DeliveryRecord Key) (deliveries : Deliveries Key)
      → get_delivery keys k deliveries ≡ some item
      → is_completed item.status ≡ true
      → (reserve_again keys k deliveries).0 ≡ ok false
  unfolding reserve_again get_delivery
  refused-reserve_again k item [] found finished = absurd (ground (arith, found))
  refused-reserve_again k item (x ∷ rest) found finished =
      ground (arith, found, finished, refused-reserve_again k item rest)

  get-append :
      (k : Key) (item : DeliveryRecord Key) (deliveries more : Deliveries Key)
      → get_delivery keys k deliveries ≡ some item
      → get_delivery keys k (deliveries ++ more) ≡ some item
  unfolding get_delivery
  get-append k item [] more found = absurd (ground (arith, found))
  get-append k item (x ∷ rest) more found = ground (arith, found, get-append k item rest more)

  refused-reserve_once :
      (k : Key) (item : DeliveryRecord Key) (deliveries : Deliveries Key)
      → get_delivery keys k deliveries ≡ some item
      → any (λ (x : DeliveryRecord Key). keys.same x.key k) deliveries ≡ true
  unfolding get_delivery
  refused-reserve_once k item [] found = absurd (ground (arith, found))
  refused-reserve_once k item (x ∷ rest) found =
      ground (arith, found, refused-reserve_once k item rest)

  get-reserve_once :
      (k j : Key) (item : DeliveryRecord Key) (deliveries : Deliveries Key)
      → get_delivery keys k deliveries ≡ some item
      → get_delivery keys k (reserve_once keys j deliveries).1 ≡ some item
  unfolding reserve_once
  get-reserve_once k j item deliveries found =
      ground (arith, found, get-append k item deliveries (fresh j ∷ []))

  module _ (reserve : Reserve Key)
      (keeps : (k j : Key) (item : DeliveryRecord Key) (deliveries : Deliveries Key)
        → get_delivery keys k deliveries ≡ some item
        → is_completed item.status ≡ true
        → get_delivery keys k (reserve j deliveries).1 ≡ some item)
      (refuses : (k : Key) (item : DeliveryRecord Key) (deliveries : Deliveries Key)
        → get_delivery keys k deliveries ≡ some item
        → is_completed item.status ≡ true
        → (reserve k deliveries).0 ≡ ok false) where
    get-perform :
        (k : Key) (item : DeliveryRecord Key) (c : Call Key) (deliveries : Deliveries Key)
        → get_delivery keys k deliveries ≡ some item
        → is_completed item.status ≡ true
        → get_delivery keys k (perform keys reserve c deliveries).1 ≡ some item
    unfolding perform
    get-perform k item (reserves j) deliveries found finished =
        keeps k j item deliveries found finished
    get-perform k item (completes j result) deliveries found finished =
        get-complete k j result item deliveries found finished

    refused-perform :
        (k : Key) (item : DeliveryRecord Key) (c : Call Key) (deliveries : Deliveries Key)
        → get_delivery keys k deliveries ≡ some item
        → is_completed item.status ≡ true
        → (is_reservation keys reserve k c
            && is_granted keys reserve (perform keys reserve c deliveries).0)
          ≡ false
    unfolding perform
    refused-perform k item (reserves j) deliveries found finished =
        elim (Bool-cases (keys.same j k)) [
          | inr other ↦ ground (arith, other)
          | inl same ↦
              let refused : (reserve j deliveries).0 ≡ ok false =
                ap (λ (x : Key). (reserve x deliveries).0) ((keys.same_iff j k).0 same)
                ∙ refuses k item deliveries found finished in
              ground (arith, same, refused)
        ]
    refused-perform k item (completes j result) deliveries found finished = refl

    kept :
        (k : Key) (item : DeliveryRecord Key) (calls : List (Call Key))
        (deliveries : Deliveries Key)
        → get_delivery keys k deliveries ≡ some item
        → is_completed item.status ≡ true
        → (get_delivery keys k (run keys reserve calls deliveries) ≡ some item)
          × (grants keys reserve k calls deliveries ≡ 0)
    unfolding run grants
    kept k item [] deliveries found finished = (found, refl)
    kept k item (c ∷ calls) deliveries found finished =
        let (stays, none_more) =
          kept k item calls (perform keys reserve c deliveries).1
            (get-perform k item c deliveries found finished) finished in
        (stays, ground (arith, none_more, refused-perform k item c deliveries found finished))

  -- A completed delivery stays as it is, with its result, however either store is called from then on, and is
  -- never granted again.
  pub completed_kept :
      (k : Key) (item : DeliveryRecord Key) (calls : List (Call Key)) (deliveries : Deliveries Key)
      → get_delivery keys k deliveries ≡ some item
      → is_completed item.status ≡ true
      → ((get_delivery keys k (run keys (reserve_again keys) calls deliveries) ≡ some item)
          × (grants keys (reserve_again keys) k calls deliveries ≡ 0))
        × ((get_delivery keys k (run keys (reserve_once keys) calls deliveries) ≡ some item)
            × (grants keys (reserve_once keys) k calls deliveries ≡ 0))
  unfolding reserve_once
  completed_kept k item calls deliveries found finished = (
    kept (reserve_again keys) get-reserve_again refused-reserve_again k item calls deliveries found
        finished,
    kept (reserve_once keys) (λ k j item d found finished. get-reserve_once k j item d found)
        (λ k item d found finished. ground (arith, refused-reserve_once k item d found)) k item
        calls deliveries found finished,
  )
