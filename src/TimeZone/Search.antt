-- ===== src/TimeZone/Search.antt =====
-- The offset that is found is that of the last transition at or before the time.
use so_l.Common.{
  ℕ, zero, suc, ◌≡◌, inl, inr, refl, sym, ap, ◌∙◌, Bool, true, false, if◌then◌else◌, Bool-cases,
  Option, none, some, List, [], ◌∷◌, get_elem?, ◌>>=◌, arith,
}
use so_l.Common.Int.{ℤ, ltb_ℤ, eqb_ℤ, ltb_ℤ-le, ltb_ℤ-not, eqb_ℤ-lt, eqb_ℤ-neither}
use so_l.TimeZone.{
  Transition, Data, before, equal, lower_bound, last, step_back, settle, find_transition,
  is_before_all, find_localtime,
}

-- The time that transitions are compared by.
abbrev pub key : Bool → Transition → ℤ
key true t = t.gmttime
key false t = t.localtime

-- Each transition is later than the one before it.
abbrev pub IsSorted : Bool → List Transition → Type 0
IsSorted comp [] = Unit
IsSorted comp (t ∷ []) = Unit
IsSorted comp (t ∷ u ∷ ts) = (ltb_ℤ (key comp t) (key comp u) ≡ true) × IsSorted comp (u ∷ ts)

-- The last transition that is not after the time, or else `t`.
abbrev pub latest : Bool → ℤ → Transition → List Transition → Transition
latest comp time t [] = t
latest comp time t (u ∷ ts) = if ltb_ℤ time (key comp u) then t else latest comp time u ts

-- The place of the local time in force: that of the latest transition, or the first if there is none.
abbrev pub index_at : Bool → ℤ → List Transition → ℕ
index_at comp time [] = 0
index_at comp time (t ∷ ts) =
    if ltb_ℤ time (key comp t) then 0 else (latest comp time t ts).localtime_idx

before-key : (comp : Bool) (t u : Transition) → before comp t u ≡ ltb_ℤ (key comp t) (key comp u)
unfolding before
before-key true t u = refl
before-key false t u = refl

equal-key : (comp : Bool) (t u : Transition) → equal comp t u ≡ eqb_ℤ (key comp t) (key comp u)
unfolding equal
equal-key true t u = refl
equal-key false t u = refl

-- One step of the search, past a transition that is before the time and is not the last.
settle-step :
    (comp : Bool) (sentry t u : Transition) (ts : List Transition) (i : ℕ)
    → (r : Option Transition) → get_elem? (u ∷ ts) i ≡ r
    → (i ≡ 0 → equal comp sentry u ≡ true)
    → settle comp sentry (suc i) r (t ∷ u ∷ ts) ≡ settle comp sentry i r (u ∷ ts)
unfolding settle last step_back
settle-step comp sentry t u ts i none e at = refl
settle-step comp sentry t u ts zero (some v) e at =
    let same : equal comp sentry v ≡ true =
      ap (λ (o : Option Transition). elim o [ none ↦ true | some w ↦ equal comp sentry w ]) (sym e)
      ∙ at refl in
    rw same refl
settle-step comp sentry t u ts (suc i) (some v) e at = refl

find_transition-latest :
    (comp : Bool) (sentry t : Transition) (ts : List Transition)
    → IsSorted comp (t ∷ ts)
    → ltb_ℤ (key comp sentry) (key comp t) ≡ false
    → find_transition comp sentry (t ∷ ts) ≡ some (latest comp (key comp sentry) t ts)
unfolding find_transition lower_bound settle last step_back
find_transition-latest comp sentry t [] sorted late =
    elim (Bool-cases (ltb_ℤ (key comp t) (key comp sentry))) [
      | inl less ↦ rw (before-key comp t sentry, less) refl
      | inr not_less ↦
          rw
            (
              before-key comp t sentry,
              not_less,
              equal-key comp sentry t,
              eqb_ℤ-neither (key comp sentry) (key comp t) late not_less,
            )
            refl
    ]
find_transition-latest comp sentry t (u ∷ ts) (order, sorted) late =
    elim (Bool-cases (ltb_ℤ (key comp t) (key comp sentry))) [
      | inl less ↦ elim (Bool-cases (ltb_ℤ (key comp sentry) (key comp u))) [
        | inl early ↦
            rw
              (
                before-key comp t sentry,
                less,
                before-key comp u sentry,
                ltb_ℤ-not (key comp sentry) (key comp u) early,
                equal-key comp sentry u,
                eqb_ℤ-lt (key comp sentry) (key comp u) early,
                early,
              )
              refl
        | inr reached ↦
            rw (before-key comp t sentry, less, reached)
              (settle-step comp sentry t u ts (lower_bound comp sentry (u ∷ ts)) _ refl
                  (at_first reached)
                ∙ find_transition-latest comp sentry u ts sorted reached)
      ]
      | inr not_less ↦
          let after : ltb_ℤ (key comp sentry) (key comp u) ≡ true =
            ltb_ℤ-le (key comp sentry) (key comp t) (key comp u) not_less order in
          rw
            (
              before-key comp t sentry,
              not_less,
              equal-key comp sentry t,
              eqb_ℤ-neither (key comp sentry) (key comp t) late not_less,
              after,
            )
            refl
    ]
  where
    at_first :
        ltb_ℤ (key comp sentry) (key comp u) ≡ false
        → lower_bound comp sentry (u ∷ ts) ≡ 0
        → equal comp sentry u ≡ true
    at_first reached none_before = elim (Bool-cases (ltb_ℤ (key comp u) (key comp sentry))) [
      | inl less ↦
          let more : (suc (lower_bound comp sentry ts) ≡ 0) =
            sym (rw (before-key comp u sentry, less) refl) ∙ none_before in
          absurd (ground (arith, more))
      | inr not_less ↦
          equal-key comp sentry u ∙ eqb_ℤ-neither (key comp sentry) (key comp u) reached not_less
    ]

-- With sorted transitions, the local time that is found is that of the last transition that is not after
-- the time, and the first one for a time before all transitions; it is missing just when the list of local
-- times has none at that place.
pub find_localtime-index_at :
    (data_ : Data) (sentry : Transition) (comp : Bool)
    → IsSorted comp data_.transitions
    → find_localtime data_ sentry comp
      ≡ get_elem? data_.localtimes (index_at comp (key comp sentry) data_.transitions)
unfolding find_localtime is_before_all
find_localtime-index_at data_ sentry comp sorted = by_cases data_.transitions sorted
  where
    by_cases :
        (ts : List Transition)
        → IsSorted comp ts
        → (if is_before_all comp sentry ts
            then get_elem? data_.localtimes 0
            else (find_transition comp sentry ts >>= λ t.
                get_elem? data_.localtimes t.localtime_idx))
          ≡ get_elem? data_.localtimes (index_at comp (key comp sentry) ts)
    by_cases [] sorted = refl
    by_cases (t ∷ ts) sorted = elim (Bool-cases (ltb_ℤ (key comp sentry) (key comp t))) [
      | inl early ↦ rw (before-key comp sentry t, early) refl
      | inr late ↦
          rw (before-key comp sentry t, late, find_transition-latest comp sentry t ts sorted late)
            refl
    ]
