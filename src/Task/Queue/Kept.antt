-- ===== src/Task/Queue/Kept.antt =====
-- The queue over any history: each message is not yet delivered, pending, or acknowledged.
-- Code: src/app/task/queue.py.
use fin_agent_platform.Prelude.{
  ℕ, ◌≡◌, ◌≤◌, ◌<◌, refl, ◌∙◌, inl, inr, Bool, true, false, not, ◌&&◌, ◌||◌, List, [], ◌∷◌, ◌++◌,
  ◌==◌, leb, contains, map, All-map, All-append, Bool-cases, All, arith,
}
use fin_agent_platform.Run.Executor.{RunTask}
use fin_agent_platform.Task.Queue.{
  Message, PendingMessage, Queue, Limits, publish, renew, reserve, ack, touch,
}
use fin_agent_platform.Task.Queue.Claim.{IsRising, renew-IsRising}

-- What can be done to a queue whose group is there; a publication comes with the identifier that
-- the server assigns.
pub data Op : Type 0 where
  publishes : ℕ → RunTask → Op
  reserves : ℕ → Op
  acks : ℕ → Op
  touches : ℕ → ℕ → Op

unfoldable pub after_op : Limits → Op → Queue → Queue
unfolding publish reserve ack touch
after_op l (publishes id task) q = publish id task q
after_op l (reserves now) q = (reserve l now q).1
after_op l (acks id) q = ack id q
after_op l (touches id now) q = touch id now q

-- The identifiers that have been acknowledged.
unfoldable pub acked_after : Op → List ℕ → List ℕ
acked_after (acks id) acked = id ∷ acked
acked_after _ acked = acked

unfoldable pub has_pending : ℕ → List PendingMessage → Bool
has_pending id [] = false
has_pending id (p ∷ ps) = p.id == id || has_pending id ps

-- The identifiers of a stream rise above `n`.
abbrev pub IsOrdered : ℕ → List Message → Type 0
IsOrdered n [] = Unit
IsOrdered n (m ∷ ms) = (n < m.id) × IsOrdered m.id ms

abbrev pub message_ids : List Message → List ℕ
message_ids l = map (λ (m : Message). m.id) l

-- A delivered message is pending exactly while it is not acknowledged; nothing else is pending, and
-- nothing is acknowledged before its delivery.
pub record IsKept (acked : List ℕ) (q : Queue) : Type 0 where
  pub ordered : IsOrdered 0 q.stream
  pub rising : IsRising 0 q.unacked
  pub delivered : All (λ (p : PendingMessage). p.id ≤ q.last_delivered) q.unacked
  pub present : All (λ (p : PendingMessage). contains p.id (message_ids q.stream) ≡ true) q.unacked
  pub done : All (λ a. a ≤ q.last_delivered) acked
  pub exact :
      All
        (λ (m : Message).
          has_pending m.id q.unacked ≡ (leb m.id q.last_delivered && not (contains m.id acked)))
        q.stream

-- The server assigns an identifier above all others, and only what was delivered is acknowledged.
abbrev pub IsLegal : Op → Queue → Type 0
IsLegal (publishes id task) q =
    All (λ (m : Message). m.id < id) q.stream × (0 < id) × (q.last_delivered < id)
IsLegal (reserves now) q = Unit
IsLegal (acks id) q = id ≤ q.last_delivered
IsLegal (touches id now) q = Unit

module _ {A : Type 0} where
  pub All-both : (P Q : A → Type 0) (xs : List A) → All P xs → All Q xs → All (λ x. P x × Q x) xs
  All-both P Q [] h k = tt
  All-both P Q (x ∷ xs) h k = ((h.0, k.0), All-both P Q xs h.1 k.1)

pub not_pending :
    (id n : ℕ) (ps : List PendingMessage)
    → All (λ (p : PendingMessage). p.id ≤ n) ps
    → n < id
    → has_pending id ps ≡ false
unfolding has_pending
not_pending id n [] h b = refl
not_pending id n (p ∷ ps) h b = ground (arith, not_pending id n ps h.1 b)

pub not_acked : (id n : ℕ) (l : List ℕ) → All (λ a. a ≤ n) l → n < id → contains id l ≡ false
unfolding contains
not_acked id n [] h b = refl
not_acked id n (a ∷ l) h b = ground (arith, not_acked id n l h.1 b)

IsOrdered-append :
    (n : ℕ) (l : List Message) (new : Message)
    → IsOrdered n l
    → All (λ (m : Message). m.id < new.id) l
    → n < new.id
    → IsOrdered n (l ++ new ∷ [])
IsOrdered-append n [] new h b c = (c, tt)
IsOrdered-append n (m ∷ l) new h b c = (h.0, IsOrdered-append m.id l new h.1 b.1 b.0)

contains-append :
    (id : ℕ) (l : List Message) (new : Message)
    → contains id (message_ids l) ≡ true
    → contains id (message_ids (l ++ new ∷ [])) ≡ true
unfolding contains
contains-append id [] new h = ground arith
contains-append id (m ∷ l) new h = ground (arith, contains-append id l new)

pub publish-IsKept :
    (id : ℕ) (task : RunTask) (acked : List ℕ) (q : Queue)
    → IsLegal (publishes id task) q
    → IsKept acked q
    → IsKept acked (publish id task q)
unfolding publish
publish-IsKept id task acked q (above, positive, later) h =
    let new : Message = record { id = id; task = task } in
    record {
      ordered = IsOrdered-append 0 q.stream new h.ordered above positive;
      rising = h.rising;
      delivered = h.delivered;
      present = All-map _ _ q.unacked (λ p e. contains-append p.id q.stream new e) h.present;
      done = h.done;
      exact =
          All-append _ q.stream (new ∷ []) h.exact
            (ground (arith, not_pending id q.last_delivered q.unacked h.delivered later), tt);
    }

pub has_pending-renew :
    (x id now : ℕ) (ps : List PendingMessage) → has_pending x (renew id now ps) ≡ has_pending x ps
unfolding has_pending renew
has_pending-renew x id now [] = refl
has_pending-renew x id now (p ∷ ps) = ground (arith, has_pending-renew x id now ps)

pub All-renew :
    (P : ℕ → Type 0) (id now : ℕ) (ps : List PendingMessage)
    → All (λ (p : PendingMessage). P p.id) ps
    → All (λ (p : PendingMessage). P p.id) (renew id now ps)
unfolding renew
All-renew P id now [] h = tt
All-renew P id now (p ∷ ps) h = elim (Bool-cases (p.id == id)) [
  | inl e ↦ let same : p.id ≡ id = ground arith in rw e (rw same at h.0, All-renew P id now ps h.1)
  | inr e ↦ rw e (h.0, All-renew P id now ps h.1)
]

pub touch-IsKept :
    (id now : ℕ) (acked : List ℕ) (q : Queue) → IsKept acked q → IsKept acked (touch id now q)
unfolding touch
touch-IsKept id now acked q h = record {
  ordered = h.ordered;
  rising = renew-IsRising id now 0 q.unacked h.rising;
  delivered = All-renew (λ n. n ≤ q.last_delivered) id now q.unacked h.delivered;
  present = All-renew (λ n. contains n (message_ids q.stream) ≡ true) id now q.unacked h.present;
  done = h.done;
  exact = All-map _ _ q.stream (λ m e. has_pending-renew m.id id now q.unacked ∙ e) h.exact;
}
