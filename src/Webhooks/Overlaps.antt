-- ===== src/Webhooks/Overlaps.antt =====
-- webhookService.ts: two retries of one delivery at the same time.
use Prim.Native.String.{String}
