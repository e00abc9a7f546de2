-- ===== src/Task/Worker/Taken.antt =====
-- The hands of a consumer under `reserve`.
-- Code: `reserve` and `_claim` of src/app/task/queue.py.
use fin_agent_platform.Prelude.{
  ℕ, zero, suc, ◌≡◌, ◌≤◌, ◌<◌, refl, inl, inr, ◌⊎◌, true, false, Option, none, some, List, [], ◌∷◌,
  ◌==◌, ltb, length, contains, All, All-map, All-append, Bool-cases, Option-cases, arith,
}
use fin_agent_platform.Task.Queue.{
  Message, PendingMessage, Queue, Limits, renew, autoclaim, Claimed, out_of_fuel, nothing_idle,
  claimed, claim_from, claim_idle_message, first_after, read_new, reserve, reserve_after,
}
use fin_agent_platform.Task.Queue.Kept.{not_acked, All-renew}
use fin_agent_platform.Task.Queue.Claim.{idle_at, idle_at-autoclaim}

first_after_lt : (n : ℕ) (l : List Message) (m : Message) → first_after n l ≡ some m → n < m.id
unfolding first_after
first_after_lt n [] m e = ground arith
first_after_lt n (x ∷ l) m e = elim (Bool-cases (ltb n x.id)) [
  | inl f ↦ let same : x ≡ m = ground arith in rw (← same) (ground arith)
  | inr f ↦ first_after_lt n l m (ground arith)
]

-- What is pending has been delivered.
abbrev pub AreDelivered : ℕ → List PendingMessage → Type 0
AreDelivered n ps = All (λ (p : PendingMessage). p.id ≤ n) ps

-- What a delivery, or none, does to the hands.
pub record IsTaken (q : Queue) (o : Option ℕ) (q' : Queue) : Type 0 where
  pub later : q.last_delivered ≤ q'.last_delivered
  pub pending : AreDelivered q'.last_delivered q'.unacked
  pub hands :
      ((o ≡ none) × (q'.held ≡ q.held))
      ⊎ ((id : ℕ) × (o ≡ some id)
          × (q'.held ≡ id ∷ q.held)
          × (contains id q.held ≡ false)
          × (id ≤ q'.last_delivered))

idle_at-delivered :
    (l : Limits) (now id n : ℕ) (ps : List PendingMessage)
    → AreDelivered n ps
    → idle_at l now id ps ≡ true
    → id ≤ n
unfolding idle_at
idle_at-delivered l now id n [] h e = ground arith
idle_at-delivered l now id n (p ∷ ps) h e = ground (arith, idle_at-delivered l now id n ps h.1)

pub renewed :
    (id now n : ℕ) (ps : List PendingMessage) → AreDelivered n ps → AreDelivered n (renew id now ps)
renewed id now n ps h = All-renew (λ k. k ≤ n) id now ps h

abbrev found_of : Claimed → Option ℕ
found_of (claimed id) = some id
found_of nothing_idle = none
found_of out_of_fuel = none

claim_from-IsTaken :
    (l : Limits) (now fuel cursor : ℕ) (q : Queue)
    → AreDelivered q.last_delivered q.unacked
    → let (r, q') = claim_from fuel l now cursor q in IsTaken q (found_of r) q'
unfolding claim_from
claim_from-IsTaken l now zero cursor q h = record {
  later = omega arith;
  pending = h;
  hands = inl (refl, refl);
}
claim_from-IsTaken l now (suc fuel) cursor q h =
    let following = (autoclaim l now cursor q.unacked).1 in
    elim (Option-cases (autoclaim l now cursor q.unacked).0) [
      | inl e ↦
          rw (e, claim_from) (record { later = omega arith; pending = h; hands = inl (refl, refl) })
      | inr (id, e) ↦
          let fresh = renewed id now q.last_delivered q.unacked h in
          elim (Bool-cases (contains id q.held)) [
            | inl own ↦ elim (Bool-cases (following == 0)) [
              | inl z ↦
                  rw (e, own, z, claim_from)
                    (record { later = omega arith; pending = fresh; hands = inl (refl, refl) })
              | inr more ↦
                  let taken : Queue = record q { unacked = renew id now q.unacked } in
                  let rest = claim_from-IsTaken l now fuel following taken fresh in
                  rw (e, own, more, claim_from)
                    (record { later = rest.later; pending = rest.pending; hands = rest.hands })
            ]
            | inr free ↦
                let low =
                  idle_at-delivered l now id q.last_delivered q.unacked h
                    (idle_at-autoclaim l now cursor id q.unacked e) in
                rw (e, free, claim_from)
                  (record {
                    later = omega arith;
                    pending = fresh;
                    hands = inr (id, refl, refl, free, low);
                  })
          ]
    ]

-- The message after the last one delivered is in nobody's hands.
read_new-IsTaken :
    (now : ℕ) (q : Queue)
    → AreDelivered q.last_delivered q.unacked
    → All (λ a. a ≤ q.last_delivered) q.held
    → let (o, q') = read_new now q in IsTaken q o q'
unfolding read_new
read_new-IsTaken now q h hands = elim (Option-cases (first_after q.last_delivered q.stream)) [
  | inl e ↦ rw (e, read_new) (record { later = omega arith; pending = h; hands = inl (refl, refl) })
  | inr (m, e) ↦
      let less = first_after_lt q.last_delivered q.stream m e in
      let free = not_acked m.id q.last_delivered q.held hands less in
      let one : PendingMessage = record { id = m.id; touched = now } in
      rw (e, free, read_new)
        (record {
          later = omega arith;
          pending =
              All-append _ q.unacked (one ∷ []) (All-map _ _ q.unacked (λ p b. omega arith) h)
                (omega arith, tt);
          hands = inr (m.id, refl, refl, free, omega arith);
        })
]

-- A round that claimed nothing has left the hands as they were.
same_hands :
    (q q' : Queue) (o : Option ℕ) (q'' : Queue)
    → IsTaken q none q'
    → IsTaken q' o q''
    → IsTaken q o q''
same_hands q q' o q'' t u = elim t.hands [
  | inl (_, kept) ↦ record {
    later = omega (arith, t.later, u.later);
    pending = u.pending;
    hands = rw (← kept) u.hands;
  }
  | inr (id, bad, _, _, _) ↦ ground arith
]

kept_hands : (q q' : Queue) → IsTaken q none q' → q'.held ≡ q.held
kept_hands q q' t = elim t.hands [ inl (_, kept) ↦ kept | inr (id, bad, _, _, _) ↦ ground arith ]

reserve_after-IsTaken :
    (now : ℕ) (q : Queue) (c : Claimed × Queue)
    → IsTaken q (found_of c.0) c.1
    → All (λ a. a ≤ q.last_delivered) q.held
    → let (o, q') = reserve_after now c in IsTaken q o q'
reserve_after-IsTaken now q (claimed id, q') t hands = t
reserve_after-IsTaken now q (out_of_fuel, q') t hands = t
reserve_after-IsTaken now q (nothing_idle, q') t hands =
    let still : All (λ a. a ≤ q'.last_delivered) q'.held =
      rw (kept_hands q q' t) (All-map _ _ q.held (λ a b. omega (arith, t.later)) hands) in
    let (o, q'') = read_new now q' in
    same_hands q q' o q'' t (read_new-IsTaken now q' t.pending still)

pub reserve-IsTaken :
    (l : Limits) (now : ℕ) (q : Queue)
    → AreDelivered q.last_delivered q.unacked
    → All (λ a. a ≤ q.last_delivered) q.held
    → let (o, q') = reserve l now q in IsTaken q o q'
unfolding reserve claim_idle_message
reserve-IsTaken l now q h hands =
    reserve_after-IsTaken now q _ (claim_from-IsTaken l now (suc (length q.unacked)) 0 q h) hands
