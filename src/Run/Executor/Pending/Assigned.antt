-- ===== src/Run/Executor/Pending/Assigned.antt =====
-- Whose path an interrupt gets.
-- Code: `_pending_action_path` of src/app/run/executor.py.
use fin_agent_platform.Prelude.{
  ◌≡◌, ◌≢◌, refl, ap, ◌∙◌, text_eq_refl, inl, inr, Bool, true, false, some, List, [], ◌∷◌, Text,
  text_eq_iff, Has, here, there, filter, Bool-cases, Option-cases, arith,
}
use fin_agent_platform.Event.{InterruptAction, LoggedEvent, same_path}
use fin_agent_platform.Run.Executor.Pending.{
  PendingCall, has_text, completed_calls, tool_calls, pending_calls, fits, last_match, match_paths,
  all_same, pending_action_path,
}

-- Every action has a tool call of the log with its name, its arguments and the path `p`, which has
-- no result in the log and is no other action's.
pub data IsAssigned (history : List LoggedEvent) (p : List Text)
    : List Text → List InterruptAction → Type 0 where
  all_assigned : {used : List Text} → IsAssigned history p used []
  assigned :
      {used : List Text} {a : InterruptAction} {more : List InterruptAction} (c : PendingCall)
      → Has c (tool_calls history)
      → has_text c.id (completed_calls history) ≡ false
      → has_text c.id used ≡ false
      → c.name ≡ a.tool_name
      → c.args ≡ a.args
      → c.path ≡ p
      → IsAssigned history p (c.id ∷ used) more
      → IsAssigned history p used (a ∷ more)

same_path→≡ : (p q : List Text) → same_path p q ≡ true → p ≡ q
unfolding same_path
same_path→≡ [] [] h = refl
same_path→≡ [] (b ∷ q) h = ground arith
same_path→≡ (a ∷ p) [] h = ground arith
same_path→≡ (a ∷ p) (b ∷ q) h = ground (arith, same_path→≡ p q, text_eq_iff a b)

same_path_refl : (p : List Text) → same_path p p ≡ true
unfolding same_path
same_path_refl [] = refl
same_path_refl (a ∷ p) = ground (arith, same_path_refl p, text_eq_refl a)

last_match_lem :
    (used : List Text) (a : InterruptAction) (cs : List PendingCall) (c : PendingCall)
    → last_match used a cs ≡ some c
    → Has c cs × (fits used a c ≡ true)
unfolding last_match
last_match_lem used a [] c h = ground arith
last_match_lem used a (x ∷ cs) c h = elim (Option-cases (last_match used a cs)) [
  | inl e ↦ elim (Bool-cases (fits used a x)) [
    | inl f ↦ let same : x ≡ c = ground arith in (here same, rw (← same) f)
    | inr f ↦ ground arith
  ]
  | inr (y, e) ↦
      let same : y ≡ c = ground arith in
      let (m, f) = last_match_lem used a cs y e in rw (← same) (there m, f)
]

Has-filter :
    (q : PendingCall → Bool) (cs : List PendingCall) (c : PendingCall)
    → Has c (filter q cs)
    → Has c cs × (q c ≡ true)
unfolding filter
Has-filter q [] c h = elim h [ ]
Has-filter q (x ∷ cs) c h = elim (Bool-cases (q x)) [
  | inl e ↦
      let h' : Has c (x ∷ filter q cs) = rw e at h in
      elim h' [
        | here same ↦ (here same, rw (← same) e)
        | there m ↦ let (n, f) = Has-filter q cs c m in (there n, f)
      ]
  | inr e ↦
      let h' : Has c (filter q cs) = rw e at h in let (n, f) = Has-filter q cs c h' in (there n, f)
]

match_paths-IsAssigned :
    (history : List LoggedEvent) (p : List Text) (used : List Text) (as_ : List InterruptAction)
    (paths : List (List Text))
    → match_paths used as_ (pending_calls history) ≡ some paths
    → all_same p paths ≡ true
    → IsAssigned history p used as_
unfolding match_paths all_same pending_calls filter
match_paths-IsAssigned history p used [] paths h s = all_assigned
match_paths-IsAssigned history p used (a ∷ more) paths h s =
    elim (Option-cases (last_match used a (pending_calls history))) [
      | inl e ↦ ground arith
      | inr (c, e) ↦ elim (Option-cases (match_paths (c.id ∷ used) more (pending_calls history))) [
        | inl n ↦ ground arith
        | inr (rest, r) ↦
            let same : c.path ∷ rest ≡ paths = ground arith in
            let (m, f) = last_match_lem used a (pending_calls history) c e in
            let (n, g) = Has-filter _ (tool_calls history) c m in
            let all : all_same p (c.path ∷ rest) ≡ true = ap (all_same p) same ∙ s in
            assigned c n (ground arith) (ground arith)
              ((text_eq_iff c.name a.tool_name).0 (ground arith))
              ((text_eq_iff c.args a.args).0 (ground arith)) (same_path→≡ c.path p (ground arith))
              (match_paths-IsAssigned history p (c.id ∷ used) more rest r (ground arith))
      ]
    ]

-- The path of an interrupt that is not that of the main agent is the path of an unanswered tool
-- call of the log for each of its actions, with the action's name and arguments, a different one
-- for each.
pub pending_action_path-IsAssigned :
    (history : List LoggedEvent) (actions : List InterruptAction)
    → pending_action_path history actions ≢ []
    → IsAssigned history (pending_action_path history actions) [] actions
unfolding pending_action_path all_same
pending_action_path-IsAssigned history actions sub =
    elim (Option-cases (match_paths [] actions (pending_calls history))) [
      | inl e ↦ absurd (sub (rw (e, pending_action_path)))
      | inr ([], e) ↦ absurd (sub (rw (e, pending_action_path)))
      | inr (p ∷ ps, e) ↦ elim (Bool-cases (all_same p ps)) [
        | inl f ↦
            let all : all_same p (p ∷ ps) ≡ true = rw (same_path_refl p, f) in
            rw (e, f, pending_action_path)
              (match_paths-IsAssigned history p [] actions (p ∷ ps) e all)
        | inr f ↦ absurd (sub (rw (e, f, pending_action_path)))
      ]
    ]
