-- ===== src/Backend/Outbox/Counts.antt =====
-- `outbox_health`: what the monitoring reads off the table.
use myaqi_iot_platform.Prelude.{
  ℕ, ◌+◌, ◌≡◌, refl, Bool, true, false, List, [], ◌∷◌, arith, length, if◌then◌else◌,
}
use myaqi_iot_platform.Backend.Models.{OutboxEvent, Status, published}
use myaqi_iot_platform.Backend.Outbox.{
  count_status, is_pending, is_processing, is_dead, outbox_health,
}

abbrev pub is_published : Status → Bool
is_published published = true
is_published _ = false

count_status-cons :
    (p : Status → Bool) (e : OutboxEvent) (es : List OutboxEvent)
    → count_status p (e ∷ es) ≡ (if p e.status then 1 else 0) + count_status p es
unfolding count_status
count_status-cons p e es = ground arith

count_cases :
    (s : Status)
    → (if is_pending s then 1 else 0)
        + (if is_processing s then 1 else 0)
        + (if is_dead s then 1 else 0)
        + (if is_published s then 1 else 0)
      ≡ 1
count_cases s = ground arith

-- Every row is counted once: what is not pending, processing or dead is published.
pub outbox_health_partition :
    (now : ℕ) (table : List OutboxEvent)
    → let h = outbox_health now table in
      h.pending_count + h.processing_count + h.dead_count + count_status is_published table
      ≡ length table
unfolding outbox_health
outbox_health_partition now [] = unfold count_status in refl
outbox_health_partition now (e ∷ es) =
    rw
      (
        count_status-cons is_pending e es,
        count_status-cons is_processing e es,
        count_status-cons is_dead e es,
        count_status-cons is_published e es,
      )
      (omega (arith, count_cases e.status, outbox_health_partition now es))
