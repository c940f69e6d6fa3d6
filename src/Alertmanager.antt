-- ===== src/Alertmanager.antt =====
-- internal/alertmanager/payload.go: the webhook payload, its validation and its firing test.
use tgpager.Base.{Bool, List, [], Bytes, codes, str_eq, ℤ, Result, ok, err, if◌then◌else◌}

abbrev pub Labels : Type 0
Labels = List (Bytes × Bytes)

-- Times are nanoseconds since the epoch.
pub record Alert : Type 0 where
  pub status : Bytes
  pub labels : Labels
  pub annotations : Labels
  pub starts_at : ℤ
  pub ends_at : ℤ
  pub generator_url : Bytes
  pub fingerprint : Bytes

pub record WebhookPayload : Type 0 where
  pub version : Bytes
  pub group_key : Bytes
  pub status : Bytes
  pub receiver : Bytes
  pub group_labels : Labels
  pub common_labels : Labels
  pub common_annotations : Labels
  pub external_url : Bytes
  pub alerts : List Alert
  pub truncated_alerts : ℤ

-- The three errors of `Validate`.
pub data Invalid : Type 0 where
  version_required group_key_required status_required : Invalid

-- `WebhookPayload.Validate`.
unfoldable pub validate : WebhookPayload → Result Invalid (Unit {0})
validate p =
    if str_eq p.version []
    then err version_required
    else if str_eq p.group_key []
    then err group_key_required
    else if str_eq p.status []
    then err status_required
    else ok tt

-- `WebhookPayload.IsFiring`.
unfoldable pub is_firing : WebhookPayload → Bool
is_firing p = str_eq p.status (codes "firing")
