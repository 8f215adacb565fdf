-- ===== src/TimeZone/LocalTime.antt =====
-- A local time leads back to the time.
use so_l.Common.{
  ℕ, zero, suc, ◌≤◌, arith, ◌&&◌, sym, Bool, Option-cases, ◌≡◌, refl, ap, subst, ◌∙◌, true, false,
  leb, if◌then◌else◌, Bool-cases, inl, inr, some, List, [], ◌∷◌, length, get_elem?, Ensures,
}
use so_l.Common.Int.{
  ℤ, pos, negsuc, ◌+ℤ◌, ltb_ℤ, +ℤ-cancel, ltb_ℤ-irrefl, ltb_ℤ-le-lt, ltb_ℤ-le-le, ltb_ℤ-add,
}
use so_l.Calendar.Utc.{Tm}
use so_l.TimeZone.{Transition, Localtime, Data, LocalTm, to_local_time, from_local_time, adjust}
use so_l.TimeZone.Search.{IsSorted, latest, index_at, find_localtime-index_at}

-- The offset that a transition's local time was made by is that of its place.
abbrev pub AllConsistent : List Localtime → List Transition → Type 0
AllConsistent ls [] = Unit
AllConsistent ls (t ∷ ts) =
    Ensures (λ l. t.localtime ≡ t.gmttime +ℤ l.gmt_offset) (get_elem? ls t.localtime_idx)
    × AllConsistent ls ts

-- The local time `clock` at `seconds` is before that of the next transition, if there is one: the clock
-- will not be put back past it.
abbrev pub IsClear : ℤ → ℤ → List Transition → Type 0
IsClear seconds clock [] = Unit
IsClear seconds clock (t ∷ ts) =
    if ltb_ℤ seconds t.gmttime then ltb_ℤ clock t.localtime ≡ true else IsClear seconds clock ts

latest-gmttime :
    (seconds : ℤ) (t : Transition) (ts : List Transition)
    → ltb_ℤ seconds t.gmttime ≡ false
    → ltb_ℤ seconds (latest true seconds t ts).gmttime ≡ false
latest-gmttime seconds t [] h = h
latest-gmttime seconds t (u ∷ ts) h = elim (Bool-cases (ltb_ℤ seconds u.gmttime)) [
  | inl early ↦ rw early h
  | inr late ↦ rw late (latest-gmttime seconds u ts late)
]

latest-localtime :
    (seconds : ℤ) (t : Transition) (ts : List Transition)
    → IsSorted false (t ∷ ts)
    → ltb_ℤ (latest true seconds t ts).localtime t.localtime ≡ false
latest-localtime seconds t [] sorted = ltb_ℤ-irrefl t.localtime
latest-localtime seconds t (u ∷ ts) (order, sorted) = elim (Bool-cases (ltb_ℤ seconds u.gmttime)) [
  | inl early ↦ rw early (ltb_ℤ-irrefl t.localtime)
  | inr late ↦
      let l = latest true seconds u ts in
      rw late (
        ltb_ℤ-le-lt l.localtime u.localtime t.localtime (latest-localtime seconds u ts sorted)
          order)
]

latest-Consistent :
    (ls : List Localtime) (seconds : ℤ) (t : Transition) (ts : List Transition)
    → AllConsistent ls (t ∷ ts)
    → let l = latest true seconds t ts in
      Ensures (λ local. l.localtime ≡ l.gmttime +ℤ local.gmt_offset) (get_elem? ls l.localtime_idx)
latest-Consistent ls seconds t [] (c, cs) = c
latest-Consistent ls seconds t (u ∷ ts) (c, cs) = elim (Bool-cases (ltb_ℤ seconds u.gmttime)) [
  | inl early ↦ rw early c
  | inr late ↦ rw late (latest-Consistent ls seconds u ts cs)
]

-- A clock that has reached the last transition, and not the next one, is at the same place.
latest-clock :
    (seconds clock : ℤ) (t : Transition) (ts : List Transition)
    → IsSorted false (t ∷ ts)
    → ltb_ℤ clock (latest true seconds t ts).localtime ≡ false
    → IsClear seconds clock ts
    → latest false clock t ts ≡ latest true seconds t ts
latest-clock seconds clock t [] sorted reached clear = refl
latest-clock seconds clock t (u ∷ ts) (order, sorted) reached clear =
    elim (Bool-cases (ltb_ℤ seconds u.gmttime)) [
      | inl early ↦
          let stays : ltb_ℤ clock u.localtime ≡ true =
            subst (λ b. if b then ltb_ℤ clock u.localtime ≡ true else IsClear seconds clock ts)
              early clear in
          rw (early, stays) refl
      | inr late ↦
          let l = latest true seconds u ts in
          let reached_later : ltb_ℤ clock l.localtime ≡ false =
            subst (λ b. ltb_ℤ clock (if b then t else l).localtime ≡ false) late reached in
          let clear_later : IsClear seconds clock ts =
            subst (λ b. if b then ltb_ℤ clock u.localtime ≡ true else IsClear seconds clock ts) late
              clear in
          let passed : ltb_ℤ clock u.localtime ≡ false =
            ltb_ℤ-le-le clock l.localtime u.localtime reached_later
              (latest-localtime seconds u ts sorted) in
          rw (late, passed) (latest-clock seconds clock u ts sorted reached_later clear_later)
    ]

-- So the clock finds the local time that is in force.
index_at-clock :
    (ls : List Localtime) (seconds : ℤ) (ts : List Transition) (local : Localtime)
    → IsSorted false ts
    → AllConsistent ls ts
    → get_elem? ls (index_at true seconds ts) ≡ some local
    → IsClear seconds (seconds +ℤ local.gmt_offset) ts
    → index_at false (seconds +ℤ local.gmt_offset) ts ≡ index_at true seconds ts
index_at-clock ls seconds [] local sorted consistent found clear = refl
index_at-clock ls seconds (t ∷ ts) local sorted consistent found clear =
    elim (Bool-cases (ltb_ℤ seconds t.gmttime)) [
      | inl early ↦
          let stays : ltb_ℤ (seconds +ℤ local.gmt_offset) t.localtime ≡ true =
            subst
              (λ b.
                if b
                then ltb_ℤ (seconds +ℤ local.gmt_offset) t.localtime ≡ true
                else IsClear seconds (seconds +ℤ local.gmt_offset) ts)
              early clear in
          rw (early, stays) refl
      | inr late ↦
          let l = latest true seconds t ts in
          let clock = seconds +ℤ local.gmt_offset in
          let there : get_elem? ls l.localtime_idx ≡ some local =
            subst (λ b. get_elem? ls (if b then 0 else l.localtime_idx) ≡ some local) late found in
          let clear_later : IsClear seconds clock ts =
            subst (λ b. if b then ltb_ℤ clock t.localtime ≡ true else IsClear seconds clock ts) late
              clear in
          let made : l.localtime ≡ l.gmttime +ℤ local.gmt_offset =
            subst (Ensures (λ (x : Localtime). l.localtime ≡ l.gmttime +ℤ x.gmt_offset)) there
              (latest-Consistent ls seconds t ts consistent) in
          let reached : ltb_ℤ clock l.localtime ≡ false =
            ap (ltb_ℤ clock) made
            ∙ ltb_ℤ-add seconds l.gmttime local.gmt_offset
            ∙ latest-gmttime seconds t ts late in
          let passed : ltb_ℤ clock t.localtime ≡ false =
            ltb_ℤ-le-le clock l.localtime t.localtime reached
              (latest-localtime seconds t ts sorted) in
          rw (late, passed)
            (ap (λ (x : Transition). x.localtime_idx)
              (latest-clock seconds clock t ts sorted reached clear_later))
    ]

abbrev local_tm_at : (ℤ → Tm) → ℤ → Localtime → LocalTm
local_tm_at gmtime seconds local = record {
  tm = gmtime (seconds +ℤ local.gmt_offset);
  tm_isdst = local.is_dst;
  tm_gmtoff = local.gmt_offset;
  tm_zone = local.arrb_idx;
}

to_local_time-eq :
    (gmtime : ℤ → Tm) (data_ : Data) (seconds : ℤ) (local : Localtime)
    → IsSorted true data_.transitions
    → get_elem? data_.localtimes (index_at true seconds data_.transitions) ≡ some local
    → leb local.arrb_idx (length data_.abbreviation) ≡ true
    → to_local_time gmtime data_ seconds ≡ some (local_tm_at gmtime seconds local)
unfolding to_local_time
to_local_time-eq gmtime data_ seconds local sorted in_force named =
    rw
      (
        find_localtime-index_at data_
            (record { gmttime = seconds; localtime = pos 0; localtime_idx = 0 }) true sorted,
        in_force,
        named,
      )
      refl

from_local_time-eq :
    (gmtime : ℤ → Tm) (timegm : Tm → ℤ) (data_ : Data) (seconds : ℤ) (local : Localtime)
    → IsSorted false data_.transitions
    → timegm (gmtime (seconds +ℤ local.gmt_offset)) ≡ seconds +ℤ local.gmt_offset
    → get_elem? data_.localtimes (index_at false (seconds +ℤ local.gmt_offset) data_.transitions)
      ≡ some local
    → to_local_time gmtime data_ seconds ≡ some (local_tm_at gmtime seconds local)
    → from_local_time gmtime timegm data_ (local_tm_at gmtime seconds local) ≡ some seconds
unfolding from_local_time adjust
from_local_time-eq gmtime timegm data_ seconds local sorted inverse in_force again =
    let clock = seconds +ℤ local.gmt_offset in
    let found =
      find_localtime-index_at data_
        (record { gmttime = pos 0; localtime = clock; localtime_idx = 0 }) false sorted in
    elim (Bool-cases local.is_dst) [
      | inl dst ↦
          rw (inverse, found, in_force) (simp (dst, +ℤ-cancel seconds local.gmt_offset, again))
      | inr standard ↦
          rw (inverse, found, in_force) (simp (standard, +ℤ-cancel seconds local.gmt_offset))
    ]

-- There is a local time in force.
in_force-exists :
    (ls : List Localtime) (seconds : ℤ) (ts : List Transition)
    → 1 ≤ length ls
    → AllConsistent ls ts
    → (local : Localtime) × (get_elem? ls (index_at true seconds ts) ≡ some local)
in_force-exists [] seconds ts some_local consistent = absurd (omega (arith, some_local))
in_force-exists (l ∷ ls) seconds [] some_local consistent = (l, refl)
in_force-exists (l ∷ ls) seconds (t ∷ ts) some_local consistent =
    elim (Bool-cases (ltb_ℤ seconds t.gmttime)) [
      | inl early ↦ rw early (l, refl)
      | inr late ↦
          let there = latest-Consistent (l ∷ ls) seconds t ts consistent in
          rw late
            (elim (Option-cases (get_elem? (l ∷ ls) (latest true seconds t ts).localtime_idx)) [
              | inl missing ↦ absurd (
                  subst
                    (Ensures (λ (x : Localtime).
                      (latest true seconds t ts).localtime
                      ≡ (latest true seconds t ts).gmttime +ℤ x.gmt_offset))
                    missing there)
              | inr found ↦ found
            ])
    ]

-- The names of the local times are in the abbreviations.
abbrev pub AllNamed : List ℕ → List Localtime → Type 0
AllNamed abbreviation [] = Unit
AllNamed abbreviation (l ∷ ls) =
    (leb l.arrb_idx (length abbreviation) ≡ true) × AllNamed abbreviation ls

named_at :
    (abbreviation : List ℕ) (ls : List Localtime) (i : ℕ) (local : Localtime)
    → AllNamed abbreviation ls
    → get_elem? ls i ≡ some local
    → leb local.arrb_idx (length abbreviation) ≡ true
named_at abbreviation [] i local named e = absurd (ground (arith, e))
named_at abbreviation (l ∷ ls) zero local (here, named) e =
    subst (Ensures (λ (x : Localtime). leb x.arrb_idx (length abbreviation) ≡ true)) e here
named_at abbreviation (l ∷ ls) (suc i) local (here, named) e =
    named_at abbreviation ls i local named e

-- Times less than 2 ^ 55 seconds from the epoch, whose years fit an `int`.
abbrev pub in_years : ℤ → Bool
in_years x = ltb_ℤ (negsuc 36028797018963968) x && ltb_ℤ x (pos 36028797018963968)

-- gmtime_r makes a civil form that timegm leads back from, for years that fit.
abbrev pub AreInverse : (ℤ → Tm) → (Tm → ℤ) → Type 0
AreInverse gmtime timegm = (x : ℤ) → in_years x ≡ true → timegm (gmtime x) ≡ x

-- The clock, by the local time in force, is in those years, and before the next transition.
abbrev pub IsSettled : Data → ℤ → Type 0
IsSettled data_ seconds =
    (local : Localtime)
    → get_elem? data_.localtimes (index_at true seconds data_.transitions) ≡ some local
    → (in_years (seconds +ℤ local.gmt_offset) ≡ true)
      × IsClear seconds (seconds +ℤ local.gmt_offset) data_.transitions

-- If there is a local time, and the names of all are in the abbreviations; the transitions are sorted, by
-- both their times, and each was made by the offset of the local time of its place, which exists; timegm
-- leads back from what gmtime_r makes, for times less than 2 ^ 55 seconds from the epoch; and at a
-- time the clock, by any local time in force, is within those and before the local time of the next
-- transition: then there is a local time at that time, and it leads back to the time, daylight saving or
-- not.
pub from_local_time-to_local_time :
    (gmtime : ℤ → Tm) (timegm : Tm → ℤ) (data_ : Data) (seconds : ℤ)
    → AreInverse gmtime timegm
    → 1 ≤ length data_.localtimes
    → AllNamed data_.abbreviation data_.localtimes
    → IsSorted true data_.transitions
    → IsSorted false data_.transitions
    → AllConsistent data_.localtimes data_.transitions
    → IsSettled data_ seconds
    → Ensures
        (λ t. from_local_time gmtime timegm data_ t ≡ some seconds)
        (to_local_time gmtime data_ seconds)
from_local_time-to_local_time gmtime timegm data_ seconds inverse some_local named by_gmt by_local
      consistent settled =
    let (local, in_force) =
      in_force-exists data_.localtimes seconds data_.transitions some_local consistent in
    let (in_range, clear) = settled local in_force in
    let there = to_local_time-eq gmtime data_ seconds local by_gmt in_force (
      named_at data_.abbreviation data_.localtimes (index_at true seconds data_.transitions) local
        named in_force) in
    let same =
      index_at-clock data_.localtimes seconds data_.transitions local by_local consistent in_force
        clear in
    subst (Ensures (λ t. from_local_time gmtime timegm data_ t ≡ some seconds)) (sym there) (
      from_local_time-eq gmtime timegm data_ seconds local by_local
        (inverse (seconds +ℤ local.gmt_offset) in_range)
        (ap (get_elem? data_.localtimes) same ∙ in_force) there)
