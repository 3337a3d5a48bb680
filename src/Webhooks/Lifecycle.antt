-- ===== src/Webhooks/Lifecycle.antt =====
-- The life of a delivery of backend/src/services/webhookService.ts: its re-drives.
use Prim.Native.String.{String}
use remitlend.Base.{ℕ, ◌+◌, none, some}
use remitlend.Webhooks.{Delivery}

-- The row that a re-drive writes.
abbrev redriven : {P : Type 0} → ℕ → String → Delivery P → Delivery P
redriven now actor d = record d {
  dead_lettered_at = none;
  dead_letter_reason = none;
  attempt_count = 0;
  delivery_generation = d.delivery_generation + 1;
  next_retry_at = some now;
  last_redriven_at = some now;
  last_redriven_by = some actor;
}
