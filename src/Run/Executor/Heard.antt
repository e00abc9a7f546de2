-- ===== src/Run/Executor/Heard.antt =====
-- What a leg hears of its stream.
-- Code: the loop of `_consume` in src/app/run/executor.py.
use fin_agent_platform.Prelude.{
  ℕ, ◌≡◌, refl, sym, ap, ◌∙◌, inl, inr, Bool, ◌&&◌, Option, List, [], ◌∷◌, ◌++◌, Text,
  if◌then◌else◌, Bool-cases, arith,
}
use fin_agent_platform.Schema.{TokenUsage, no_tokens, add_tokens}
use fin_agent_platform.Event.{Event}
use fin_agent_platform.Run.Repository.{Failure}
use fin_agent_platform.Run.Executor.{
  RunTask, Snapshot, Stream, chunk, ends, recursion_error, other_error, Leg, Stage, Raised,
  run_cancelled_error, graph_recursion_error, other_exception, stop, settle, append_all,
  consume_from,
}
use fin_agent_platform.Run.Executor.Usage.{Chunk, token_usage}

-- A chunk at which the leg looks at the flag and finds it up.
abbrev pub is_stop : Chunk → Bool
is_stop c = c.is_updates && c.flagged

-- The events of the chunks before the stop.
unfoldable pub heard : Stream → List Event
heard (chunk c rest) = if is_stop c then [] else c.events ++ heard rest
heard (ends reported s) = []
heard (recursion_error m) = []
heard (other_error m) = []

abbrev pub chunk_usage : Chunk → TokenUsage
chunk_usage c = add_tokens c.reported (token_usage c.is_updates c.payload)

-- What was spent up to the stop, its chunk included, or to the end.
unfoldable pub spent : Stream → TokenUsage
unfolding token_usage
spent (chunk c rest) = add_tokens (chunk_usage c) (if is_stop c then no_tokens else spent rest)
spent (ends reported s) = reported
spent (recursion_error m) = no_tokens
spent (other_error m) = no_tokens

-- How it goes on from there.
pub data Close : Type 0 where
  stopped : Close
  settled : Snapshot → Close
  failed_with : Raised → Close

unfoldable pub close : Stream → Close
close (chunk c rest) = if is_stop c then stopped else close rest
close (ends reported s) = settled s
close (recursion_error m) = failed_with (graph_recursion_error m)
close (other_error m) = failed_with (other_exception m)

tokens_eq :
    (a b : TokenUsage)
    → a.input_cache_read ≡ b.input_cache_read
    → a.input_uncached ≡ b.input_uncached
    → a.output ≡ b.output
    → a ≡ b
tokens_eq a b p q r = λ i. record { input_cache_read = p i; input_uncached = q i; output = r i }

add_tokens_assoc :
    (a b c : TokenUsage) → add_tokens (add_tokens a b) c ≡ add_tokens a (add_tokens b c)
add_tokens_assoc a b c = tokens_eq _ _ (omega arith) (omega arith) (omega arith)

add_tokens_none : (a : TokenUsage) → add_tokens a no_tokens ≡ a
add_tokens_none a = tokens_eq _ _ (omega arith) (omega arith) (omega arith)

module _ (parse : Text → Option ℕ) (show : Failure → Text) (leg : Leg) (task : RunTask) where
  abbrev pub closing : TokenUsage → Close → Stage → Raised × Stage
  closing tokens stopped w = (run_cancelled_error, stop parse show leg task tokens w)
  closing tokens (settled s) w = settle parse show leg task tokens s w
  closing tokens (failed_with r) w = (r, w)

  append_all-append :
      (es fs : List Event) (w : Stage)
      → append_all parse show leg task (es ++ fs) w
        ≡ append_all parse show leg task fs (append_all parse show leg task es w)
  unfolding append_all
  append_all-append [] fs w = refl
  append_all-append (e ∷ es) fs w = append_all-append es fs _

  -- The loop pushes the events of the chunks before the one at which it finds the flag up, in their
  -- order and no other, and then stops, settles or fails with the tokens of all chunks up to there,
  -- that one included.
  pub consume_from_lem :
      (tokens : TokenUsage) (s : Stream) (w : Stage)
      → consume_from parse show leg task tokens s w
        ≡ closing
            (add_tokens tokens (spent s))
            (close s)
            (append_all parse show leg task (heard s) w)
  unfolding consume_from heard spent close append_all
  consume_from_lem tokens (ends reported s) w = refl
  consume_from_lem tokens (recursion_error m) w = refl
  consume_from_lem tokens (other_error m) w = refl
  consume_from_lem tokens (chunk c rest) w = elim (Bool-cases (is_stop c)) [
    | inl e ↦
        let sum : add_tokens (add_tokens tokens c.reported) (token_usage c.is_updates c.payload)
            ≡ add_tokens tokens (add_tokens (chunk_usage c) no_tokens) =
          add_tokens_assoc tokens c.reported _ ∙ ap (add_tokens tokens) (sym (add_tokens_none _)) in
        simp e (ap (λ t. (run_cancelled_error, stop parse show leg task t w)) sum)
    | inr e ↦
        let used = add_tokens (add_tokens tokens c.reported) (token_usage c.is_updates c.payload) in
        let sum : add_tokens used (spent rest)
            ≡ add_tokens tokens (add_tokens (chunk_usage c) (spent rest)) =
          ap (λ t. add_tokens t (spent rest)) (add_tokens_assoc tokens c.reported _)
          ∙ add_tokens_assoc tokens (chunk_usage c) (spent rest) in
        let after_chunk = append_all parse show leg task c.events w in
        simp e (
          consume_from_lem used rest after_chunk
          ∙ ap
              (λ t.
                closing t (close rest) (append_all parse show leg task (heard rest) after_chunk))
              sum
          ∙ ap (closing _ (close rest)) (sym (append_all-append c.events (heard rest) w)))
  ]
