-- ===== src/Task/Queue/History.antt =====
-- The queue over any history of its operations.
-- Code: src/app/task/queue.py.
use fin_agent_platform.Prelude.{ℕ, suc, List, [], ◌∷◌, length}
use fin_agent_platform.Task.Queue.{Queue, Limits, claim_idle_message, reserve}
use fin_agent_platform.Task.Queue.Kept.{
  Op, publishes, reserves, acks, touches, after_op, acked_after, IsKept, IsLegal, publish-IsKept,
  touch-IsKept,
}
use fin_agent_platform.Task.Queue.Delivery.{ack-IsKept, claim_from-IsKept, reserve_after-IsKept}

after_op-IsKept :
    (l : Limits) (o : Op) (acked : List ℕ) (q : Queue)
    → IsLegal o q
    → IsKept acked q
    → IsKept (acked_after o acked) (after_op l o q)
unfolding after_op acked_after reserve claim_idle_message
after_op-IsKept l (publishes id task) acked q legal h = publish-IsKept id task acked q legal h
after_op-IsKept l (reserves now) acked q legal h =
    reserve_after-IsKept now acked _ (claim_from-IsKept l now (suc (length q.unacked)) 0 acked q h)
after_op-IsKept l (acks id) acked q legal h = ack-IsKept id acked q legal h
after_op-IsKept l (touches id now) acked q legal h = touch-IsKept id now acked q h

-- A history of operations, each of them allowed when it comes.
unfoldable pub after_ops : Limits → List Op → Queue → Queue
unfolding after_op
after_ops l [] q = q
after_ops l (o ∷ os) q = after_ops l os (after_op l o q)

unfoldable pub acked_all : List Op → List ℕ → List ℕ
unfolding acked_after
acked_all [] acked = acked
acked_all (o ∷ os) acked = acked_all os (acked_after o acked)

abbrev pub AreLegal : Limits → List Op → Queue → Type 0
AreLegal l [] q = Unit
AreLegal l (o ∷ os) q = IsLegal o q × AreLegal l os (after_op l o q)

pub after_ops-IsKept :
    (l : Limits) (os : List Op) (acked : List ℕ) (q : Queue)
    → AreLegal l os q
    → IsKept acked q
    → IsKept (acked_all os acked) (after_ops l os q)
unfolding after_ops acked_all
after_ops-IsKept l [] acked q legal h = h
after_ops-IsKept l (o ∷ os) acked q legal h =
    after_ops-IsKept l os (acked_after o acked) _ legal.1 (after_op-IsKept l o acked q legal.0 h)
