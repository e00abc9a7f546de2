-- ===== src/Task/Queue/Claim.antt =====
-- The loop of `_claim`: it ends, and what it claims is idle and in nobody else's hands here.
-- Code: `_claim` of src/app/task/queue.py.
use fin_agent_platform.Prelude.{
  ℕ, zero, suc, ◌≡◌, ◌≢◌, ◌≤◌, ◌<◌, refl, sym, ap, ◌∙◌, inl, inr, ◌⊎◌, Bool, true, false, ◌&&◌,
  ◌||◌, some, List, [], ◌∷◌, ◌==◌, ltb, length, contains, Bool-cases, Option-cases, arith,
}
use fin_agent_platform.Task.Queue.{
  PendingMessage, Queue, Limits, renew, is_idle, scan, from_id, autoclaim, Claimed, out_of_fuel,
  nothing_idle, claimed, claim_from, claim_idle_message,
}

-- The identifiers of a pending list rise, and none is `0-0`.
abbrev pub IsRising : ℕ → List PendingMessage → Type 0
IsRising n [] = Unit
IsRising n (p ∷ ps) = (n < p.id) × IsRising p.id ps

pub renew-IsRising :
    (id now n : ℕ) (ps : List PendingMessage) → IsRising n ps → IsRising n (renew id now ps)
unfolding renew
renew-IsRising id now n [] h = tt
renew-IsRising id now n (p ∷ ps) h =
    let rises : (n < p.id) × IsRising p.id (renew id now ps) =
      (h.0, renew-IsRising id now p.id ps h.1) in
    elim (Bool-cases (p.id == id)) [
      | inl e ↦ let same : p.id ≡ id = ground arith in rw e (rw same at rises)
      | inr e ↦ rw e rises
    ]

length-renew : (id now : ℕ) (ps : List PendingMessage) → length (renew id now ps) ≡ length ps
unfolding renew
length-renew id now [] = refl
length-renew id now (p ∷ ps) = omega (arith, length-renew id now ps)

from_id-renew :
    (start id now : ℕ) (ps : List PendingMessage)
    → from_id start (renew id now ps) ≡ renew id now (from_id start ps)
unfolding from_id renew
from_id-renew start id now [] = refl
from_id-renew start id now (p ∷ ps) = ground (arith, from_id-renew start id now ps)

-- The position to go on from is the end or lies beyond the first entry looked at.
scan_beyond :
    (l : Limits) (now attempts : ℕ) (p : PendingMessage) (ps : List PendingMessage) (id : ℕ)
    → IsRising p.id ps
    → (scan l now attempts (p ∷ ps)).0 ≡ some id
    → ((scan l now attempts (p ∷ ps)).1 ≡ 0) ⊎ (p.id < (scan l now attempts (p ∷ ps)).1)
unfolding scan
scan_beyond l now zero p ps id h e = ground arith
scan_beyond l now (suc attempts) p [] id h e = elim (Bool-cases (is_idle l now p)) [
  | inl f ↦ inl (rw f)
  | inr f ↦ ground arith
]
scan_beyond l now (suc attempts) p (x ∷ ps) id h e = elim (Bool-cases (is_idle l now p)) [
  | inl f ↦ inr (rw f h.0)
  | inr f ↦
      let found : (scan l now attempts (x ∷ ps)).0 ≡ some id = rw f at e in
      elim (scan_beyond l now attempts x ps id h.1 found) [
        | inl z ↦ inl (rw f z)
        | inr b ↦ inr (rw f (omega (arith, h.0, b)))
      ]
]

length-from_id-le : (n : ℕ) (ps : List PendingMessage) → length (from_id n ps) ≤ length ps
unfolding from_id
length-from_id-le n [] = omega arith
length-from_id-le n (p ∷ ps) = ground (arith, length-from_id-le n ps)

from_id_head :
    (c : ℕ) (ps : List PendingMessage) (p : PendingMessage) (rest : List PendingMessage)
    → from_id c ps ≡ p ∷ rest
    → c ≤ p.id
unfolding from_id
from_id_head c [] p rest e = ground arith
from_id_head c (x ∷ ps) p rest e = elim (Bool-cases (ltb x.id c)) [
  | inl f ↦ from_id_head c ps p rest (ground arith)
  | inr f ↦ let same : x ≡ p = ground arith in rw (← same) (ground arith)
]

from_id_shorter :
    (c f : ℕ) (ps : List PendingMessage) (p : PendingMessage) (rest : List PendingMessage)
    → from_id c ps ≡ p ∷ rest
    → p.id < f
    → length (from_id f ps) ≤ length rest
unfolding from_id
from_id_shorter c f [] p rest e b = ground arith
from_id_shorter c f (x ∷ ps) p rest e b = elim (Bool-cases (ltb x.id c)) [
  | inl g ↦
      let later : from_id c ps ≡ p ∷ rest = ground arith in
      let low = from_id_head c ps p rest later in
      let out : ltb x.id f ≡ true = ground arith in rw out (from_id_shorter c f ps p rest later b)
  | inr g ↦
      let same : x ≡ p = ground arith in
      let out : ltb x.id f ≡ true = ground arith in
      let tail : ps ≡ rest = ground arith in rw (out, ← tail) (length-from_id-le f ps)
]

from_id-IsRising :
    (c n : ℕ) (ps : List PendingMessage) (p : PendingMessage) (rest : List PendingMessage)
    → IsRising n ps
    → from_id c ps ≡ p ∷ rest
    → IsRising p.id rest
unfolding from_id
from_id-IsRising c n [] p rest h e = ground arith
from_id-IsRising c n (x ∷ ps) p rest h e = elim (Bool-cases (ltb x.id c)) [
  | inl g ↦ from_id-IsRising c x.id ps p rest h.1 (ground arith)
  | inr g ↦
      let same : x ≡ p = ground arith in
      let tail : ps ≡ rest = ground arith in simp (← same, ← tail) h.1
]

-- A message of the pending list that has not been touched for long enough.
unfoldable pub idle_at : Limits → ℕ → ℕ → List PendingMessage → Bool
idle_at l now id [] = false
idle_at l now id (p ∷ ps) = (p.id == id && is_idle l now p) || idle_at l now id ps

idle_at-renew :
    (l : Limits) (now id j : ℕ) (ps : List PendingMessage)
    → j ≢ id
    → idle_at l now id (renew j now ps) ≡ true
    → idle_at l now id ps ≡ true
unfolding idle_at renew
idle_at-renew l now id j [] n h = h
idle_at-renew l now id j (p ∷ ps) n h = ground (arith, idle_at-renew l now id j ps n)

idle_at-scan :
    (l : Limits) (now attempts id : ℕ) (ps : List PendingMessage)
    → (scan l now attempts ps).0 ≡ some id
    → idle_at l now id ps ≡ true
unfolding idle_at scan
idle_at-scan l now attempts id [] e = ground arith
idle_at-scan l now zero id (p ∷ ps) e = ground arith
idle_at-scan l now (suc attempts) id (p ∷ ps) e = ground (arith, idle_at-scan l now attempts id ps)

idle_at-from_id :
    (l : Limits) (now c id : ℕ) (ps : List PendingMessage)
    → idle_at l now id (from_id c ps) ≡ true
    → idle_at l now id ps ≡ true
unfolding idle_at from_id
idle_at-from_id l now c id [] h = h
idle_at-from_id l now c id (p ∷ ps) h = ground (arith, idle_at-from_id l now c id ps)

pub idle_at-autoclaim :
    (l : Limits) (now c id : ℕ) (ps : List PendingMessage)
    → (autoclaim l now c ps).0 ≡ some id
    → idle_at l now id ps ≡ true
unfolding autoclaim
idle_at-autoclaim l now c id ps e =
    idle_at-from_id l now c id ps (idle_at-scan l now 10 id (from_id c ps) e)

List-cases :
    (ps : List PendingMessage)
    → (ps ≡ []) ⊎ ((p : PendingMessage) × (rest : List PendingMessage) × (ps ≡ p ∷ rest))
List-cases [] = inl refl
List-cases (p ∷ ps) = inr (p, ps, refl)

-- The loop ends: with nothing, or with a message that was idle and not in the own hands.
pub data IsClaim (l : Limits) (now : ℕ) (q : Queue) : Claimed → Type 0 where
  claims_nothing : IsClaim l now q nothing_idle
  claims :
      (id : ℕ)
      → contains id q.held ≡ false
      → idle_at l now id q.unacked ≡ true
      → IsClaim l now q (claimed id)

claims_before :
    (l : Limits) (now j : ℕ) (q : Queue) (r : Claimed)
    → contains j q.held ≡ true
    → IsClaim l now (record q { unacked = renew j now q.unacked }) r
    → IsClaim l now q r
claims_before l now j q out_of_fuel own h = elim h [ ]
claims_before l now j q nothing_idle own claims_nothing = claims_nothing
claims_before l now j q (claimed id) own (claims _ free idle) =
    claims id free (idle_at-renew l now id j q.unacked (λ e. ground arith) idle)

following_shorter :
    (l : Limits) (now c id : ℕ) (ps : List PendingMessage) (fuel : ℕ)
    → IsRising 0 ps
    → (autoclaim l now c ps).0 ≡ some id
    → ((autoclaim l now c ps).1 == 0) ≡ false
    → length (from_id c ps) < suc fuel
    → length (from_id (autoclaim l now c ps).1 (renew id now ps)) < fuel
unfolding autoclaim scan
following_shorter l now c id ps fuel h e more less = elim (List-cases (from_id c ps)) [
  | inl f ↦ absurd (ground (arith, ap (λ x. (scan l now 10 x).0) f))
  | inr (p, rest, f) ↦
      let following = (scan l now 10 (from_id c ps)).1 in
      let found : (scan l now 10 (p ∷ rest)).0 ≡ some id =
        ap (λ x. (scan l now 10 x).0) (sym f) ∙ e in
      let same : (scan l now 10 (p ∷ rest)).1 ≡ following = ap (λ x. (scan l now 10 x).1) (sym f) in
      elim (scan_beyond l now 10 p rest id (from_id-IsRising c 0 ps p rest h f) found) [
        | inl z ↦ absurd (ground arith)
        | inr b ↦
            let short = from_id_shorter c following ps p rest f (omega arith) in
            let kept : length (from_id following (renew id now ps))
                ≡ length (from_id following ps) =
              ap length (from_id-renew following id now ps)
              ∙ length-renew id now (from_id following ps) in
            let whole : length (from_id c ps) ≡ suc (length rest) = ap length f in omega arith
      ]
]

claim_from-IsClaim :
    (l : Limits) (now fuel c : ℕ) (q : Queue)
    → IsRising 0 q.unacked
    → length (from_id c q.unacked) < fuel
    → IsClaim l now q (claim_from fuel l now c q).0
unfolding claim_from autoclaim
claim_from-IsClaim l now zero c q h less = absurd (omega arith)
claim_from-IsClaim l now (suc fuel) c q h less =
    let following = (autoclaim l now c q.unacked).1 in
    elim (Option-cases (autoclaim l now c q.unacked).0) [
      | inl e ↦ rw (e, claim_from) claims_nothing
      | inr (id, e) ↦ elim (Bool-cases (contains id q.held)) [
        | inl own ↦ elim (Bool-cases (following == 0)) [
          | inl z ↦ rw (e, own, z, claim_from) claims_nothing
          | inr more ↦
              let rest =
                claim_from-IsClaim l now fuel following
                  (record q { unacked = renew id now q.unacked })
                  (renew-IsRising id now 0 q.unacked h)
                  (following_shorter l now c id q.unacked fuel h e more less) in
              rw (e, own, more, claim_from) (claims_before l now id q _ own rest)
        ]
        | inr free ↦
            rw (e, free, claim_from) (claims id free (idle_at-autoclaim l now c id q.unacked e))
      ]
    ]

-- On a pending list in its order, the loop of `_claim` ends; and it claims nothing, or a message that
-- nobody has touched for the claim idle time and that is not in the hands of this consumer.
pub claim_idle_message-IsClaim :
    (l : Limits) (now : ℕ) (q : Queue)
    → IsRising 0 q.unacked
    → IsClaim l now q (claim_idle_message l now q).0
unfolding claim_idle_message
claim_idle_message-IsClaim l now q h =
    claim_from-IsClaim l now (suc (length q.unacked)) 0 q h
      (omega (arith, length-from_id-le 0 q.unacked))
