-- ===== src/Bank/PublicTransaction/Replay.antt =====
-- How a key in use is answered.
use sitbank.Bank.Request.{Request}
