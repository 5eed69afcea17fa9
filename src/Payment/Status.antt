-- ===== src/Payment/Status.antt =====
-- The payment statuses of internal/db/gen/models.go, and what the callbacks of internal/payment call them
-- (webhook.go, midtrans.go, xendit.go).
use toko_api.Prelude.{
  Bool, true, false, ◌||◌, if◌then◌else◌, Text, codes, text_eq, trim_space, to_lower, to_upper,
}

pub data Status : Type 0 where
  pending paid failed expired refunded : Status

unfoldable pub is_paid : Status → Bool
is_paid paid = true
is_paid _ = false

unfoldable pub of_webhook_label : Text → Status
of_webhook_label label =
    if text_eq label (codes "PAID")
      || text_eq label (codes "SUCCESS")
      || text_eq label (codes "SETTLED")
    then paid
    else if text_eq label (codes "FAILED")
        || text_eq label (codes "CANCELED")
        || text_eq label (codes "DENY")
    then failed
    else if text_eq label (codes "EXPIRED")
    then expired
    else pending

-- `normaliseWebhookStatus`
unfoldable pub normalise_webhook_status : Text → Status
unfolding of_webhook_label
normalise_webhook_status status = of_webhook_label (to_upper (trim_space status))

unfoldable pub of_midtrans_label : Text → Text
of_midtrans_label label =
    if text_eq label (codes "capture") || text_eq label (codes "settlement")
    then codes "PAID"
    else if text_eq label (codes "pending")
    then codes "PENDING"
    else if text_eq label (codes "deny") || text_eq label (codes "cancel")
    then codes "FAILED"
    else if text_eq label (codes "expire")
    then codes "EXPIRED"
    else if text_eq label (codes "refund")
    then codes "REFUNDED"
    else codes "PENDING"

-- `normaliseMidtransStatus`
unfoldable pub normalise_midtrans_status : Text → Text
unfolding of_midtrans_label
normalise_midtrans_status status = of_midtrans_label (to_lower (trim_space status))
