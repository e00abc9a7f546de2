-- ===== src/Examples/Decisions.antt =====
-- The theorems on decisions, at two decisions given in the reverse order.
use fin_agent_platform.Prelude.{
  ℕ, ◌≡◌, ◌≢◌, ◌↔◌, refl, none, some, List, [], ◌∷◌, All, here, length, get_elem?, contains,
}
use fin_agent_platform.Run.Decision.{
  Decision, approve, reject, check, indexes, sort, range_from, to_resume, one, first_flaw, unique,
  is_subset,
}
use fin_agent_platform.Run.Decision.Resume.{IsComplete, check-none_iff, to_resume_aligned}

abbrev rejection : Decision
rejection = record { index = 1; type = reject; message = none; edited_action = none }

abbrev approval : Decision
approval = record { index = 0; type = approve; message = none; edited_action = none }

abbrev decisions : List Decision
decisions = rejection ∷ approval ∷ []

abbrev pending : ℕ
pending = 2

check-decisions : check decisions pending ≡ none
unfolding check first_flaw unique is_subset range_from contains
check-decisions = refl

check-none_iff_example :
    (check decisions pending ≡ none)
    ↔ ((pending ≢ 0) × (indexes (sort decisions) ≡ range_from 0 pending) × All IsComplete decisions)
check-none_iff_example = check-none_iff decisions pending

to_resume_aligned_example :
    (length (to_resume decisions) ≡ pending)
    × (get_elem? (to_resume decisions) 1 ≡ some (one rejection))
to_resume_aligned_example =
    to_resume_aligned decisions pending rejection check-decisions (here refl)
