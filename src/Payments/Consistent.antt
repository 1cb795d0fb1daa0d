-- ===== src/Payments/Consistent.antt =====
-- The ledger's books under callbacks, and under any sequence of calls of
-- apps/api/src/core/payments/payments.service.ts.
use saziqo_platform.Store.{Store, payment_key}
