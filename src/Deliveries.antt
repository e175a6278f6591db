-- ===== src/Deliveries.antt =====
-- backend/writai/intake/replay.py: the stores that reserve each external delivery before it is handled.
-- The document is the list of its records, a call that raises writes nothing, and the time of a
-- reservation is left out. The two stores differ in their keys and in what a second reservation gets.
pub mod Once
pub mod Kept
pub mod Reclaimed
use writ_ai.Prelude.{
  ℕ, ◌+◌, String, Bool, true, false, not, ◌&&◌, ◌==◌, ◌≡◌, ◌↔◌, List, [], ◌∷◌, ◌++◌, Option, none,
  some, any, eqb, eq_iff, eq_refl, arith, if◌then◌else◌,
}
use writ_ai.Exec.{Error, Result, ok, err, Exec, runtime_error}
use writ_ai.Domain.Value.{Fields, object, eq_value}

pub record SlackDeliveryKey : Type 0 where
  pub workspace_id : String
  pub connection_user_id : String
  pub trigger_kind : String
  pub event_id : String

pub record CrustDataDeliveryKey : Type 0 where
  pub watch_id : ℕ
  pub run_id : ℕ
  pub notification_id : String

-- Keys that can be compared.
pub record Keys (Key : Type 0) : Type 0 where
  pub same : Key → Key → Bool
  pub same_iff : (j k : Key) → (same j k ≡ true) ↔ (j ≡ k)

abbrev same_slack_key : SlackDeliveryKey → SlackDeliveryKey → Bool
same_slack_key j k =
    (j.workspace_id == k.workspace_id)
    && (j.connection_user_id == k.connection_user_id)
    && (j.trigger_kind == k.trigger_kind)
    && (j.event_id == k.event_id)

pub same_slack_key_iff : (j k : SlackDeliveryKey) → (same_slack_key j k ≡ true) ↔ (j ≡ k)
same_slack_key_iff j k = (
  λ h. ground (
    arith,
    h,
    eq_iff j.workspace_id k.workspace_id,
    eq_iff j.connection_user_id k.connection_user_id,
    eq_iff j.trigger_kind k.trigger_kind,
    eq_iff j.event_id k.event_id,
  ),
  λ h. ground (
    arith,
    h,
    eq_refl j.workspace_id,
    eq_refl j.connection_user_id,
    eq_refl j.trigger_kind,
    eq_refl j.event_id,
  ),
)

abbrev same_crustdata_key : CrustDataDeliveryKey → CrustDataDeliveryKey → Bool
same_crustdata_key j k =
    eqb j.watch_id k.watch_id && eqb j.run_id k.run_id && (j.notification_id == k.notification_id)

pub same_crustdata_key_iff :
    (j k : CrustDataDeliveryKey) → (same_crustdata_key j k ≡ true) ↔ (j ≡ k)
same_crustdata_key_iff j k = (
  λ h. ground (arith, h, eq_iff j.notification_id k.notification_id),
  λ h. ground (arith, h, eq_refl j.notification_id),
)

abbrev pub slack_keys : Keys SlackDeliveryKey
slack_keys = record { same = same_slack_key; same_iff = same_slack_key_iff }

abbrev pub crustdata_keys : Keys CrustDataDeliveryKey
crustdata_keys = record { same = same_crustdata_key; same_iff = same_crustdata_key_iff }

pub data DeliveryStatus : Type 0 where
  reserved completed : DeliveryStatus

-- `SlackDeliveryRecord`, `CrustDataDeliveryRecord`
pub record DeliveryRecord (Key : Type 0) : Type 0 where
  pub key : Key
  pub status : DeliveryStatus
  pub result : Option Fields

abbrev pub Deliveries : Type 0 → Type 0
Deliveries Key = List (DeliveryRecord Key)

abbrev pub fresh : {Key : Type 0} → Key → DeliveryRecord Key
fresh k = record { key = k; status = reserved; result = none }

abbrev pub is_completed : DeliveryStatus → Bool
is_completed completed = true
is_completed reserved = false

-- `item.result == result`
abbrev pub same_result : Option Fields → Fields → Bool
same_result none result = false
same_result (some r) result = eq_value (object r) (object result)

-- A record in front of those that a call changed.
abbrev pub passed_over :
    {Key : Type 0}
    → DeliveryRecord Key
    → Result Bool × Deliveries Key
    → Result Bool × Deliveries Key
passed_over item (answer, rest) = (answer, item ∷ rest)

module _ {Key : Type 0} (keys : Keys Key) where
  -- `get`
  unfoldable pub get_delivery : Key → Deliveries Key → Option (DeliveryRecord Key)
  get_delivery k [] = none
  get_delivery k (item ∷ rest) =
      let later = get_delivery k rest in if keys.same item.key k then some item else later

  -- `reserve` of the Slack store
  unfoldable pub reserve_once : Key → Exec (Deliveries Key) Bool
  reserve_once k deliveries =
      if any (λ (item : DeliveryRecord Key). keys.same item.key k) deliveries
      then (ok false, deliveries)
      else (ok true, deliveries ++ fresh k ∷ [])

  -- `reserve` of the CrustData store
  unfoldable pub reserve_again : Key → Exec (Deliveries Key) Bool
  reserve_again k [] = (ok true, fresh k ∷ [])
  reserve_again k (item ∷ rest) =
      let later = passed_over item (reserve_again k rest) in
      if not (keys.same item.key k)
      then later
      else if is_completed item.status
      then (ok false, item ∷ rest)
      else (ok true, fresh k ∷ rest)

  -- `complete`
  unfoldable pub complete : Key → Fields → Exec (Deliveries Key) Bool
  complete k result [] =
      (err (runtime_error "The delivery was not reserved before completion."), [])
  complete k result (item ∷ rest) =
      let later = passed_over item (complete k result rest) in
      if not (keys.same item.key k)
      then later
      else if is_completed item.status
      then (if same_result item.result result
          then (ok true, item ∷ rest)
          else (err (runtime_error "A completed delivery result is immutable."), item ∷ rest))
      else (ok true, record item { status = completed; result = some result } ∷ rest)

-- The calls that a client makes of a store.
pub data Call (Key : Type 0) : Type 0 where
  reserves : Key → Call Key
  completes : Key → Fields → Call Key

-- A way to reserve.
abbrev pub Reserve : Type 0 → Type 0
Reserve Key = Key → Exec (Deliveries Key) Bool

module _ {Key : Type 0} (keys : Keys Key) (reserve : Reserve Key) where
  unfoldable pub perform : Call Key → Exec (Deliveries Key) Bool
  unfolding complete
  perform (reserves k) deliveries = reserve k deliveries
  perform (completes k result) deliveries = complete keys k result deliveries

  unfoldable pub run : List (Call Key) → Deliveries Key → Deliveries Key
  unfolding perform
  run [] deliveries = deliveries
  run (c ∷ cs) deliveries = run cs (perform c deliveries).1

  abbrev pub is_granted : Result Bool → Bool
  is_granted (ok b) = b
  is_granted (err e) = false

  -- The call reserves this key.
  abbrev pub is_reservation : Key → Call Key → Bool
  is_reservation k (reserves j) = keys.same j k
  is_reservation k (completes j result) = false

  -- How often the calls get the key granted.
  unfoldable pub grants : Key → List (Call Key) → Deliveries Key → ℕ
  unfolding perform
  grants k [] deliveries = 0
  grants k (c ∷ cs) deliveries =
      let (answer, after) = perform c deliveries in
      (if is_reservation k c && is_granted answer then 1 else 0) + grants k cs after
