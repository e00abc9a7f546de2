-- ===== src/Task/Queue/Delivery.antt =====
-- The queue under a delivery and an acknowledgement.
-- Code: `reserve`, `_claim` and `ack` of src/app/task/queue.py.
use fin_agent_platform.Prelude.{
  ℕ, zero, suc, ◌≡◌, ◌≤◌, ◌<◌, refl, ap, inl, inr, ◌⊎◌, true, not, ◌&&◌, ◌||◌, some, List, [], ◌∷◌,
  ◌++◌, ◌==◌, ltb, leb, contains, All-map, All-append, Bool-cases, Option-cases, All, arith,
}
use fin_agent_platform.Task.Queue.{
  Message, PendingMessage, Queue, Limits, autoclaim, Claimed, out_of_fuel, nothing_idle, claimed,
  claim_from, first_after, read_new, reserve_after, remove_id, ack, touch,
}
use fin_agent_platform.Task.Queue.Claim.{IsRising}
use fin_agent_platform.Task.Queue.Kept.{
  has_pending, IsOrdered, message_ids, IsKept, All-both, not_acked, touch-IsKept,
}

has_pending-remove_id :
    (x id : ℕ) (ps : List PendingMessage)
    → has_pending x (remove_id id ps) ≡ (has_pending x ps && not (x == id))
unfolding has_pending remove_id
has_pending-remove_id x id [] = refl
has_pending-remove_id x id (p ∷ ps) = ground (arith, has_pending-remove_id x id ps)

All-remove_id :
    (P : ℕ → Type 0) (id : ℕ) (ps : List PendingMessage)
    → All (λ (p : PendingMessage). P p.id) ps
    → All (λ (p : PendingMessage). P p.id) (remove_id id ps)
unfolding remove_id
All-remove_id P id [] h = tt
All-remove_id P id (p ∷ ps) h = elim (Bool-cases (p.id == id)) [
  | inl e ↦ rw e (All-remove_id P id ps h.1)
  | inr e ↦ rw e (h.0, All-remove_id P id ps h.1)
]

IsRising-lower : (m n : ℕ) (ps : List PendingMessage) → m ≤ n → IsRising n ps → IsRising m ps
IsRising-lower m n [] le h = tt
IsRising-lower m n (p ∷ ps) le h = (omega (arith, h.0), h.1)

remove_id-IsRising :
    (id n : ℕ) (ps : List PendingMessage) → IsRising n ps → IsRising n (remove_id id ps)
unfolding remove_id
remove_id-IsRising id n [] h = tt
remove_id-IsRising id n (p ∷ ps) h = elim (Bool-cases (p.id == id)) [
  | inl e ↦ rw e (
      IsRising-lower n p.id (remove_id id ps) (omega (arith, h.0))
        (remove_id-IsRising id p.id ps h.1))
  | inr e ↦ rw e (h.0, remove_id-IsRising id p.id ps h.1)
]

pub ack-IsKept :
    (id : ℕ) (acked : List ℕ) (q : Queue)
    → id ≤ q.last_delivered
    → IsKept acked q
    → IsKept (id ∷ acked) (ack id q)
unfolding ack contains
ack-IsKept id acked q le h = record {
  ordered = h.ordered;
  rising = remove_id-IsRising id 0 q.unacked h.rising;
  delivered = All-remove_id (λ n. n ≤ q.last_delivered) id q.unacked h.delivered;
  present = All-remove_id (λ n. contains n (message_ids q.stream) ≡ true) id q.unacked h.present;
  done = (le, h.done);
  exact =
      All-map _ _ q.stream (λ m e. ground (arith, has_pending-remove_id m.id id q.unacked)) h.exact;
}

-- What is in the hands of the consumer plays no part.
held-IsKept :
    (hs acked : List ℕ) (q : Queue) → IsKept acked q → IsKept acked (record q { held = hs })
held-IsKept hs acked q h = record {
  ordered = h.ordered;
  rising = h.rising;
  delivered = h.delivered;
  present = h.present;
  done = h.done;
  exact = h.exact;
}

pub claim_from-IsKept :
    (l : Limits) (now fuel cursor : ℕ) (acked : List ℕ) (q : Queue)
    → IsKept acked q
    → IsKept acked (claim_from fuel l now cursor q).1
unfolding claim_from touch
claim_from-IsKept l now zero cursor acked q h = h
claim_from-IsKept l now (suc fuel) cursor acked q h =
    let following = (autoclaim l now cursor q.unacked).1 in
    elim (Option-cases (autoclaim l now cursor q.unacked).0) [
      | inl e ↦ rw (e, claim_from) h
      | inr (id, e) ↦
          let taken = touch-IsKept id now acked q h in
          elim (Bool-cases (contains id q.held)) [
            | inl own ↦ elim (Bool-cases (following == 0)) [
              | inl z ↦ rw (e, own, z, claim_from) taken
              | inr more ↦
                  rw (e, own, more, claim_from)
                    (claim_from-IsKept l now fuel following acked _ taken)
            ]
            | inr free ↦
                rw (e, free, claim_from) (held-IsKept (id ∷ q.held) acked (touch id now q) taken)
          ]
    ]

beyond :
    (n b k : ℕ) (l : List Message)
    → b ≤ k
    → IsOrdered k l
    → All (λ (x : Message). (x.id ≤ n) ⊎ (b ≤ x.id)) l
beyond n b k [] le h = tt
beyond n b k (x ∷ l) le h = (inr (omega (arith, h.0)), beyond n b x.id l (omega (arith, h.0)) h.1)

-- The message read is the first after the last one delivered.
first_after_lem :
    (n k : ℕ) (l : List Message) (m : Message)
    → IsOrdered k l
    → first_after n l ≡ some m
    → (n < m.id)
      × (contains m.id (message_ids l) ≡ true)
      × All (λ (x : Message). (x.id ≤ n) ⊎ (m.id ≤ x.id)) l
unfolding first_after contains
first_after_lem n k [] m h e = ground arith
first_after_lem n k (x ∷ l) m h e = elim (Bool-cases (ltb n x.id)) [
  | inl f ↦
      let same : x ≡ m = ground arith in
      let here : x.id ≡ m.id = ap (λ (y : Message). y.id) same in
      (ground arith, ground arith, (inr (omega arith), beyond n m.id x.id l (omega arith) h.1))
  | inr f ↦
      let (a, b, c) = first_after_lem n x.id l m h.1 (ground arith) in
      (a, ground arith, (inl (ground arith), c))
]

IsRising-append :
    (n now id : ℕ) (ps : List PendingMessage)
    → IsRising n ps
    → n < id
    → All (λ (p : PendingMessage). p.id < id) ps
    → IsRising n (ps ++ record { id = id; touched = now } ∷ [])
IsRising-append n now id [] h b c = (b, tt)
IsRising-append n now id (p ∷ ps) h b c = (h.0, IsRising-append p.id now id ps h.1 c.0 c.1)

has_pending-append :
    (x now id : ℕ) (ps : List PendingMessage)
    → has_pending x (ps ++ record { id = id; touched = now } ∷ []) ≡ (has_pending x ps || id == x)
unfolding has_pending
has_pending-append x now id [] = ground arith
has_pending-append x now id (p ∷ ps) = ground (arith, has_pending-append x now id ps)

read_exact :
    (now id n : ℕ) (acked : List ℕ) (ps : List PendingMessage) (x : Message)
    → n < id
    → All (λ a. a ≤ n) acked
    → (has_pending x.id ps ≡ (leb x.id n && not (contains x.id acked))) × ((x.id ≤ n) ⊎ (id ≤ x.id))
    → has_pending x.id (ps ++ record { id = id; touched = now } ∷ [])
      ≡ (leb x.id id && not (contains x.id acked))
read_exact now id n acked ps x less done (e, either) = elim either [
  | inl low ↦ ground (arith, has_pending-append x.id now id ps, e)
  | inr high ↦
      ground
        (arith, has_pending-append x.id now id ps, e, not_acked x.id n acked done (omega arith))
]

read_new-IsKept :
    (now : ℕ) (acked : List ℕ) (q : Queue) → IsKept acked q → IsKept acked (read_new now q).1
unfolding read_new
read_new-IsKept now acked q h = elim (Option-cases (first_after q.last_delivered q.stream)) [
  | inl e ↦ rw (e, read_new) h
  | inr (m, e) ↦
      let (less, inside, gap) = first_after_lem q.last_delivered 0 q.stream m h.ordered e in
      let one : PendingMessage = record { id = m.id; touched = now } in
      let read : Queue = record q { last_delivered = m.id; unacked = q.unacked ++ one ∷ [] } in
      let kept : IsKept acked read = record {
        ordered = h.ordered;
        rising =
            IsRising-append 0 now m.id q.unacked h.rising (omega arith)
              (All-map _ _ q.unacked (λ p b. omega arith) h.delivered);
        delivered =
            All-append _ q.unacked (one ∷ [])
              (All-map _ _ q.unacked (λ p b. omega arith) h.delivered) (omega arith, tt);
        present = All-append _ q.unacked (one ∷ []) h.present (inside, tt);
        done = All-map _ _ acked (λ a b. omega arith) h.done;
        exact =
            All-map _ _ q.stream
              (λ x both. read_exact now m.id q.last_delivered acked q.unacked x less h.done both)
              (All-both _ _ q.stream h.exact gap);
      } in
      rw (e, read_new) (held-IsKept _ acked read kept)
]

pub reserve_after-IsKept :
    (now : ℕ) (acked : List ℕ) (r : Claimed × Queue)
    → IsKept acked r.1
    → IsKept acked (reserve_after now r).1
reserve_after-IsKept now acked (claimed id, q) h = h
reserve_after-IsKept now acked (nothing_idle, q) h = read_new-IsKept now acked q h
reserve_after-IsKept now acked (out_of_fuel, q) h = h
