-- ===== src/Quota/Rate/Window.antt =====
-- What any window of time sees of the requests that were let through, while calls overlap.
-- Code: `allow` of src/app/quota/rate.py.
use fin_agent_platform.Prelude.{
  ℕ, ◌+◌, ◌≡◌, ◌≤◌, ◌<◌, refl, inl, inr, Bool, true, false, ◌&&◌, List, [], ◌∷◌, leb, ltb, ◌==◌,
  if◌then◌else◌, length, filter, contains, Bool-cases, arith,
}
use fin_agent_platform.Prelude.Sql.{count_where}
use fin_agent_platform.Quota.Rate.{
  Rate, Limiter, is_recent, counting, begin_allow, remove_one, end_allow,
}

-- A request is counted at a time, or the one that was counted then is recorded.
pub data Pipeline : Type 0 where
  counts records : ℕ → Pipeline

-- The times of the requests let through so far, and the limiter.
pub record Past : Type 0 where
  pub allowed : List ℕ
  pub limiter : Limiter

abbrev pub no_past : Past
no_past = record { allowed = []; limiter = record { times = []; flying = [] } }

abbrev pub noted : ℕ → Bool × Limiter → Past → Past
noted now (true, l) p = record { allowed = now ∷ p.allowed; limiter = l }
noted now (false, l) p = record p { limiter = l }

unfoldable pub after_pipeline : Rate → Pipeline → Past → Past
unfolding begin_allow end_allow
after_pipeline r (counts now) p = noted now (begin_allow r now p.limiter) p
after_pipeline r (records t) p = record p { limiter = end_allow t p.limiter }

unfoldable pub after_requests : Rate → List Pipeline → Past → Past
unfolding after_pipeline
after_requests r [] p = p
after_requests r (e ∷ later) p = after_requests r later (after_pipeline r e p)

-- The clock does not go back, and at most `m` others are in flight when a request is counted.
unfoldable pub IsServed : Rate → ℕ → ℕ → List Pipeline → Past → Type 0
unfolding after_pipeline
IsServed r m n [] p = Unit
IsServed r m n (counts now ∷ later) p =
    (n ≤ now)
    × ((length p.limiter.flying ≤ m) × IsServed r m now later (after_pipeline r (counts now) p))
IsServed r m n (records t ∷ later) p = IsServed r m n later (after_pipeline r (records t) p)

abbrev pub is_inside : Rate → ℕ → ℕ → Bool
is_inside r a t = leb a t && ltb t (a + r.window)

-- The set and the requests in flight have what a later count is to see of the past, and no window has
-- seen more than the limit and those that may be in flight.
record IsLimited (r : Rate) (m now : ℕ) (p : Past) : Type 0 where
  seen :
      (u : ℕ)
      → now ≤ u
      → count_where (is_recent r u) p.allowed
        ≤ count_where (is_recent r u) p.limiter.times + count_where (is_recent r u) p.limiter.flying
  limited : (a : ℕ) → count_where (is_inside r a) p.allowed ≤ r.limit + m

count-filter :
    (r : Rate) (now u : ℕ) (l : List ℕ)
    → now ≤ u
    → count_where (is_recent r u) (counting r now l) ≡ count_where (is_recent r u) l
unfolding counting filter count_where
count-filter r now u [] le = refl
count-filter r now u (t ∷ l) le = ground (arith, count-filter r now u l le)

count-length : (q : ℕ → Bool) (l : List ℕ) → count_where q l ≤ length l
unfolding count_where
count-length q [] = omega arith
count-length q (t ∷ l) = ground (arith, count-length q l)

count-remove_one :
    (q : ℕ → Bool) (t : ℕ) (l : List ℕ)
    → contains t l ≡ true
    → count_where q l ≡ (if q t then 1 else 0) + count_where q (remove_one t l)
unfolding count_where contains remove_one
count-remove_one q t [] h = ground arith
count-remove_one q t (x ∷ l) h = elim (Bool-cases (x == t)) [
  | inl e ↦ let same : x ≡ t = ground arith in rw (e, same)
  | inr e ↦ let rest = count-remove_one q t l (ground arith) in rw e (omega (arith, rest))
]

-- What lies in a window with the present is recent.
inside_recent :
    (r : Rate) (a now : ℕ) (l : List ℕ)
    → now < a + r.window
    → count_where (is_inside r a) l ≤ count_where (is_recent r now) l
unfolding count_where
inside_recent r a now [] less = omega arith
inside_recent r a now (t ∷ l) less = ground (arith, inside_recent r a now l less)

now_limited :
    (r : Rate) (m n now a : ℕ) (p : Past)
    → n ≤ now
    → length p.limiter.flying ≤ m
    → IsLimited r m n p
    → length (counting r now p.limiter.times) < r.limit
    → count_where (is_inside r a) (now ∷ p.allowed) ≤ r.limit + m
unfolding count_where
now_limited r m n now a p le few h free = elim (Bool-cases (is_inside r a now)) [
  | inl inside ↦
      let less : now < a + r.window = ground arith in
      let before = inside_recent r a now p.allowed less in
      let kept = h.seen now le in
      let counted = count-filter r now now p.limiter.times (omega arith) in
      let stored = count-length (is_recent r now) (counting r now p.limiter.times) in
      let flying = count-length (is_recent r now) p.limiter.flying in rw inside (omega arith)
  | inr outside ↦ rw outside (omega (arith, h.limited a))
]

counted-IsLimited :
    (r : Rate) (m n now : ℕ) (p : Past)
    → n ≤ now
    → length p.limiter.flying ≤ m
    → IsLimited r m n p
    → IsLimited r m now (noted now (begin_allow r now p.limiter) p)
unfolding begin_allow count_where
counted-IsLimited r m n now p le few h =
    elim (Bool-cases (leb r.limit (length (counting r now p.limiter.times)))) [
      | inl full ↦ rw full (record {
        seen = λ u later.
            omega (arith, h.seen u (omega arith), count-filter r now u p.limiter.times later);
        limited = h.limited;
      })
      | inr free ↦ rw free (record {
        seen = λ u later.
            omega (arith, h.seen u (omega arith), count-filter r now u p.limiter.times later);
        limited = λ a. now_limited r m n now a p le few h (ground arith);
      })
    ]

recorded-IsLimited :
    (r : Rate) (m n t : ℕ) (p : Past)
    → IsLimited r m n p
    → IsLimited r m n (record p { limiter = end_allow t p.limiter })
unfolding end_allow count_where
recorded-IsLimited r m n t p h = elim (Bool-cases (contains t p.limiter.flying)) [
  | inl e ↦
      rw (e, end_allow)
        (record {
          seen = λ u later.
              omega (arith, h.seen u later, count-remove_one (is_recent r u) t p.limiter.flying e);
          limited = h.limited;
        })
  | inr e ↦ rw (e, end_allow) (record { seen = h.seen; limited = h.limited })
]

after_requests-IsLimited :
    (r : Rate) (m n : ℕ) (es : List Pipeline) (p : Past) (a : ℕ)
    → IsServed r m n es p
    → IsLimited r m n p
    → count_where (is_inside r a) (after_requests r es p).allowed ≤ r.limit + m
unfolding after_requests after_pipeline IsServed
after_requests-IsLimited r m n [] p a served h = h.limited a
after_requests-IsLimited r m n (counts now ∷ later) p a served h =
    after_requests-IsLimited r m now later _ a served.1.1
      (counted-IsLimited r m n now p served.0 served.1.0 h)
after_requests-IsLimited r m n (records t ∷ later) p a served h =
    after_requests-IsLimited r m n later _ a served (recorded-IsLimited r m n t p h)

no_past-IsLimited : (r : Rate) (m : ℕ) → IsLimited r m 0 no_past
unfolding count_where
no_past-IsLimited r m = record { seen = λ u later. omega arith; limited = λ a. omega arith }

-- From an empty set, however the two pipelines of the calls interleave, with a clock that does not go
-- back and at most `m` other requests counted but not yet recorded whenever one is counted: no window
-- of the given length, wherever it begins, has more requests let through than the limit and `m`. So it
-- is the limit itself where the calls come one after the other.
pub after_requests-limited :
    (r : Rate) (m : ℕ) (es : List Pipeline) (a : ℕ)
    → IsServed r m 0 es no_past
    → count_where (is_inside r a) (after_requests r es no_past).allowed ≤ r.limit + m
after_requests-limited r m es a served =
    after_requests-IsLimited r m 0 es no_past a served (no_past-IsLimited r m)
