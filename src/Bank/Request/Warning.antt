-- ===== src/Bank/Request/Warning.antt =====
-- When the warning about a daily limit is sent.
use sitbank.Base.{◌≡◌, true, false, arith, ◌≤◌, ◌+◌}
use sitbank.Bank.Request.{crosses_warning, Cents}

-- Of two transfers of one day, of which the second is made when at least the first's usage and
-- amount are used, at most one crosses the warning threshold of the same limit.
pub crosses_warning_once :
    (used amount used2 amount2 limit : Cents)
    → used + amount ≤ used2
    → crosses_warning used amount limit ≡ true
    → crosses_warning used2 amount2 limit ≡ false
unfolding crosses_warning
crosses_warning_once used amount used2 amount2 limit later first = ground arith
