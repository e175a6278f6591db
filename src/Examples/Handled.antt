-- ===== src/Examples/Handled.antt =====
-- Deliveries that arrive more than once.
use writ_ai.Prelude.{◌≡◌, refl, List, [], ◌∷◌, some}
use writ_ai.Domain.Value.{end}
use writ_ai.Deliveries.{
  Call, CrustDataDeliveryKey, DeliveryRecord, DeliveryStatus, SlackDeliveryKey, completes,
  crustdata_keys, fresh, get_delivery, grants, reserve_again, reserve_once, reserves, run,
  slack_keys,
}
use writ_ai.Deliveries.Once.{grants-reserve_once}
use writ_ai.Deliveries.Kept.{completed_kept}
use writ_ai.Deliveries.Reclaimed.{grants-reserve_again}

abbrev message : SlackDeliveryKey
message = record {
  workspace_id = "W";
  connection_user_id = "ann";
  trigger_kind = "message";
  event_id = "E1";
}

abbrev slack_calls : List (Call SlackDeliveryKey)
slack_calls = reserves message ∷ completes message end ∷ reserves message ∷ []

grants-reserve_once_example : grants slack_keys (reserve_once slack_keys) message slack_calls [] ≡ 1
grants-reserve_once_example = grants-reserve_once slack_keys message slack_calls []

abbrev watch : CrustDataDeliveryKey
watch = record { watch_id = 1; run_id = 2; notification_id = "N" }

abbrev watch_calls : List (Call CrustDataDeliveryKey)
watch_calls = reserves watch ∷ reserves watch ∷ []

grants-reserve_again_example :
    grants crustdata_keys (reserve_again crustdata_keys) watch watch_calls (fresh watch ∷ []) ≡ 2
unfolding get_delivery
grants-reserve_again_example =
    grants-reserve_again crustdata_keys watch watch_calls (fresh watch ∷ []) refl refl

abbrev finished : DeliveryRecord CrustDataDeliveryKey
finished = record { key = watch; status = DeliveryStatus.completed; result = some end }

completed_kept_example :
    ((get_delivery crustdata_keys watch
          (run crustdata_keys (reserve_again crustdata_keys) watch_calls (finished ∷ []))
        ≡ some finished)
      × (grants crustdata_keys (reserve_again crustdata_keys) watch watch_calls (finished ∷ [])
          ≡ 0))
    × ((get_delivery crustdata_keys watch
            (run crustdata_keys (reserve_once crustdata_keys) watch_calls (finished ∷ []))
          ≡ some finished)
        × (grants crustdata_keys (reserve_once crustdata_keys) watch watch_calls (finished ∷ [])
            ≡ 0))
unfolding get_delivery
completed_kept_example =
    completed_kept crustdata_keys watch finished watch_calls (finished ∷ []) refl refl
