-- ===== src/Task/Queue/Flight.antt =====
-- `in_flight` against the messages that nobody has acknowledged.
-- Code: `in_flight`, `_holding_run_id` and `_waiting_run_id` of src/app/task/queue.py.
use fin_agent_platform.Prelude.{
  ℕ, zero, suc, ◌≡◌, ◌≤◌, refl, sym, ap, ◌∙◌, inl, inr, Bool, true, false, not, ◌&&◌, ◌||◌, List,
  [], ◌∷◌, ◌++◌, ◌==◌, ltb, leb, length, contains, map, take, All, All-map, Text, text_eq,
  Bool-cases, arith,
}
use fin_agent_platform.Run.Sweep.{is_among}
use fin_agent_platform.Task.Queue.{
  Message, PendingMessage, Queue, Limits, first_from, holding_run_id, messages_after,
  waiting_run_id, in_flight,
}
use fin_agent_platform.Task.Queue.Kept.{has_pending, IsOrdered, message_ids, IsKept, not_acked}

-- Some message of the stream passes the test.
unfoldable pub any_message : (Message → Bool) → List Message → Bool
any_message p [] = false
any_message p (m ∷ ms) = p m || any_message p ms

-- A message of the run that is not acknowledged.
unfoldable pub is_outstanding : List ℕ → Text → Message → Bool
unfolding contains text_eq
is_outstanding acked run m = not (contains m.id acked) && text_eq m.task.run_id run

no_message : (l : List Message) → any_message (λ m. false) l ≡ false
unfolding any_message
no_message [] = refl
no_message (m ∷ l) = no_message l

every_message : {P : Message → Type 0} → ((m : Message) → P m) → (l : List Message) → All P l
every_message f [] = tt
every_message f (m ∷ l) = (f m, every_message f l)

is_among-append :
    (t : Text) (xs ys : List Text) → is_among t (xs ++ ys) ≡ (is_among t xs || is_among t ys)
is_among-append t [] ys = refl
is_among-append t (x ∷ xs) ys = ground (arith, is_among-append t xs ys)

any_message-or :
    (p q : Message → Bool) (l : List Message)
    → (any_message p l || any_message q l) ≡ any_message (λ m. p m || q m) l
unfolding any_message
any_message-or p q [] = refl
any_message-or p q (m ∷ l) = ground (arith, any_message-or p q l)

any_message_cong :
    (p q : Message → Bool) (l : List Message)
    → All (λ m. p m ≡ q m) l
    → any_message p l ≡ any_message q l
unfolding any_message
any_message_cong p q [] h = refl
any_message_cong p q (m ∷ l) h = ground (arith, any_message_cong p q l h.1)

abbrev of_run : Text → Message → Bool
of_run run m = text_eq m.task.run_id run

waiting-any :
    (run : Text) (n : ℕ) (l : List Message)
    → is_among run (map (λ (m : Message). m.task.run_id) (messages_after n l))
      ≡ any_message (λ m. ltb n m.id && of_run run m) l
unfolding messages_after any_message
waiting-any run n [] = refl
waiting-any run n (m ∷ l) = ground (arith, waiting-any run n l)

none_of :
    (run : Text) (id k : ℕ) (l : List Message)
    → id ≤ k
    → IsOrdered k l
    → any_message (λ m. m.id == id && of_run run m) l ≡ false
unfolding any_message
none_of run id k [] le h = refl
none_of run id k (m ∷ l) le h = ground (arith, none_of run id m.id l (omega (arith, h.0)) h.1)

not_in :
    (id k : ℕ) (l : List Message) → id ≤ k → IsOrdered k l → contains id (message_ids l) ≡ false
unfolding contains
not_in id k [] le h = refl
not_in id k (m ∷ l) le h = ground (arith, not_in id m.id l (omega (arith, h.0)) h.1)

-- `XRANGE` from the identifier of a message that is in the stream finds that message.
first-any :
    (run : Text) (id k : ℕ) (l : List Message)
    → IsOrdered k l
    → contains id (message_ids l) ≡ true
    → is_among run (map (λ (m : Message). m.task.run_id) (first_from id l))
      ≡ any_message (λ m. m.id == id && of_run run m) l
unfolding first_from any_message contains
first-any run id k [] h e = ground arith
first-any run id k (m ∷ l) h e = elim (Bool-cases (ltb m.id id)) [
  | inl below ↦
      let rest = first-any run id m.id l h.1 (ground arith) in
      let other : (m.id == id) ≡ false = ground arith in rw (below, other) rest
  | inr f ↦ elim (Bool-cases (m.id == id)) [
    | inl same ↦
        let none_later = none_of run id m.id l (ground arith) h.1 in rw (f, same, none_later) refl
    | inr other ↦ absurd (ground (arith, not_in id m.id l (ground arith) h.1))
  ]
]

holding-any :
    (run : Text) (ps : List PendingMessage) (l : List Message)
    → IsOrdered 0 l
    → All (λ (p : PendingMessage). contains p.id (message_ids l) ≡ true) ps
    → is_among run (holding_run_id ps l) ≡ any_message (λ m. has_pending m.id ps && of_run run m) l
unfolding holding_run_id has_pending
holding-any run [] l h e = sym (no_message l)
holding-any run (p ∷ ps) l h e =
    is_among-append run (map (λ (m : Message). m.task.run_id) (first_from p.id l))
      (holding_run_id ps l)
    ∙ ap (λ b. b || is_among run (holding_run_id ps l)) (first-any run p.id 0 l h e.0)
    ∙ ap (λ b. any_message (λ m. m.id == p.id && of_run run m) l || b) (holding-any run ps l h e.1)
    ∙ any_message-or _ _ l
    ∙ any_message_cong _ _ l (every_message (λ m. ground arith) l)

take_all : {A : Type 0} (n : ℕ) (xs : List A) → length xs ≤ n → take n xs ≡ xs
take_all zero [] h = refl
take_all (suc n) [] h = refl
take_all zero (x ∷ xs) h = absurd (omega arith)
take_all (suc n) (x ∷ xs) h = ap (λ l. x ∷ l) (take_all n xs (omega arith))

length-messages_after : (n : ℕ) (l : List Message) → length (messages_after n l) ≤ length l
unfolding messages_after
length-messages_after n [] = omega arith
length-messages_after n (m ∷ l) = ground (arith, length-messages_after n l)

outstanding_cases :
    (acked : List ℕ) (n : ℕ) (ps : List PendingMessage) (run : Text) (m : Message)
    → All (λ a. a ≤ n) acked
    → has_pending m.id ps ≡ (leb m.id n && not (contains m.id acked))
    → ((has_pending m.id ps && of_run run m) || (ltb n m.id && of_run run m))
      ≡ (not (contains m.id acked) && text_eq m.task.run_id run)
outstanding_cases acked n ps run m done e = elim (Bool-cases (ltb n m.id)) [
  | inl later ↦ ground (arith, not_acked m.id n acked done (ground arith))
  | inr f ↦ ground arith
]

-- While the pending list and the stream fit the limit of a query, `in_flight` answers a run exactly
-- if some message of the stream for it has not been acknowledged.
pub in_flight_exact :
    (l : Limits) (acked : List ℕ) (q : Queue) (run : Text)
    → q.has_group ≡ true
    → IsKept acked q
    → length q.unacked ≤ l.max_length
    → length q.stream ≤ l.max_length
    → is_among run (in_flight l q) ≡ any_message (is_outstanding acked run) q.stream
unfolding in_flight waiting_run_id is_outstanding text_eq
in_flight_exact l acked q run there h few short =
    let waiting = messages_after q.last_delivered q.stream in
    let all_pending : take l.max_length q.unacked ≡ q.unacked =
      take_all l.max_length q.unacked few in
    let all_waiting : take l.max_length waiting ≡ waiting =
      take_all l.max_length waiting
        (omega (arith, length-messages_after q.last_delivered q.stream)) in
    let both =
      is_among-append run (holding_run_id q.unacked q.stream)
        (map (λ (m : Message). m.task.run_id) waiting)
      ∙ ap (λ b. b || is_among run (map (λ (m : Message). m.task.run_id) waiting))
          (holding-any run q.unacked q.stream h.ordered h.present)
      ∙ ap (λ b. any_message (λ m. has_pending m.id q.unacked && of_run run m) q.stream || b)
          (waiting-any run q.last_delivered q.stream)
      ∙ any_message-or _ _ q.stream
      ∙ any_message_cong _ _ q.stream (
          All-map _ _ q.stream
            (λ m e. outstanding_cases acked q.last_delivered q.unacked run m h.done e) h.exact) in
    simp (there, all_pending, all_waiting) both
