-- ===== src/Task/Queue/Missed.antt =====
-- What the loop of `_claim` does not find: an idle message behind ten that are not.
-- Code: `_claim` of src/app/task/queue.py, which ends where an answer of `XAUTOCLAIM` is empty.
use fin_agent_platform.Prelude.{
  ℕ, ◌≡◌, refl, ap, ◌∙◌, false, none, List, [], ◌∷◌, ◌++◌, length, All, arith,
}
use fin_agent_platform.Task.Queue.{
  PendingMessage, Queue, Limits, is_idle, scan, from_id, autoclaim, nothing_idle, claim_from,
  claim_idle_message,
}

scan_fresh :
    (l : Limits) (now : ℕ) (fresh rest : List PendingMessage)
    → All (λ (p : PendingMessage). is_idle l now p ≡ false) fresh
    → (scan l now (length fresh) (fresh ++ rest)).0 ≡ none
unfolding scan
scan_fresh l now [] [] h = refl
scan_fresh l now [] (p ∷ rest) h = refl
scan_fresh l now (p ∷ fresh) rest h = ground (arith, scan_fresh l now fresh rest h.1)

from_zero : (ps : List PendingMessage) → from_id 0 ps ≡ ps
unfolding from_id
from_zero [] = refl
from_zero (p ∷ ps) = ground arith

autoclaim_missed :
    (l : Limits) (now : ℕ) (ps fresh rest : List PendingMessage)
    → ps ≡ fresh ++ rest
    → length fresh ≡ 10
    → All (λ (p : PendingMessage). is_idle l now p ≡ false) fresh
    → (autoclaim l now 0 ps).0 ≡ none
unfolding autoclaim
autoclaim_missed l now ps fresh rest e ten h =
    let unread : (scan l now 10 (fresh ++ rest)).0 ≡ none =
      rw ten at (scan_fresh l now fresh rest h) in
    ap (λ x. (scan l now 10 x).0) (from_zero ps ∙ e) ∙ unread

-- Where the first ten messages of the pending list were touched of late, nothing is claimed, however
-- long the messages behind them have been idle.
pub claim_idle_message_misses :
    (l : Limits) (now : ℕ) (q : Queue) (fresh rest : List PendingMessage)
    → q.unacked ≡ fresh ++ rest
    → length fresh ≡ 10
    → All (λ (p : PendingMessage). is_idle l now p ≡ false) fresh
    → claim_idle_message l now q ≡ (nothing_idle, q)
unfolding claim_idle_message claim_from
claim_idle_message_misses l now q fresh rest e ten h =
    rw (autoclaim_missed l now q.unacked fresh rest e ten h, claim_from)
