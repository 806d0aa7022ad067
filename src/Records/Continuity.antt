-- ===== src/Records/Continuity.antt =====
-- models.py: `merge_zone_history_continuity`, what a logical zone takes over from a retained history.
-- The `==` of whole histories is the one that a dataclass has, and is a parameter.
use text.Mathlib.Text.{◌==◌ as str_eq}
use moisture_loop.Base.{
  ℕ, ◌≡◌, ◌≤◌, refl, max, ltb, ◌==◌, Bool, true, false, Option, none, some, if◌then◌else◌, Result,
  ok, raised, value_error, ◌>>=◌, Bool-cases, inl, inr, Returns, arith,
}
use moisture_loop.Accounting.{ZoneDailyRuntime, daily_ok, conservative_merge_daily_runtime}
use moisture_loop.Accounting.Merge.{Agrees, Merged, daily_merge_is_conservative}
use moisture_loop.Records.History.{ZoneHistory, history_ok}

-- `ZoneHistory(...)`.
abbrev pub make_history : ZoneHistory → Result ZoneHistory
make_history h = if history_ok h then ok h else raised value_error

unfoldable pub latest : Option ℕ → Option ℕ → Option ℕ
latest none right = right
latest (some left) none = some left
latest (some left) (some right) = some (max left right)

-- The daily runtime that goes on.
unfoldable pub merge_daily :
    Option ZoneDailyRuntime → Option ZoneDailyRuntime → Result (Option ZoneDailyRuntime)
merge_daily none retained = ok retained
merge_daily (some continuing) none = ok (some continuing)
merge_daily (some continuing) (some retained) =
    if continuing.date_local == retained.date_local
    then (conservative_merge_daily_runtime continuing retained >>= λ d. ok (some d))
    else ok (some (if ltb continuing.date_local retained.date_local then retained else continuing))

unfoldable pub continued : ZoneHistory → ZoneHistory → Option ZoneDailyRuntime → ZoneHistory
unfolding latest
continued continuing retained daily = record continuing {
  last_session_end_utc = latest continuing.last_session_end_utc retained.last_session_end_utc;
  last_auto_session_start_utc =
      latest continuing.last_auto_session_start_utc retained.last_auto_session_start_utc;
  daily = daily;
}

module _ (same_history : ZoneHistory → ZoneHistory → Bool) where
  unfoldable pub merge_zone_history_continuity : ZoneHistory → ZoneHistory → Result ZoneHistory
  unfolding merge_daily continued
  merge_zone_history_continuity continuing retained =
      if str_eq continuing.zone_history_id retained.zone_history_id
      then if same_history continuing retained then ok continuing else raised value_error
      else (merge_daily continuing.daily retained.daily >>= λ daily.
          make_history (continued continuing retained daily))

-- The runtime that counts against the budget of a day.
abbrev pub used : ℕ → Option ZoneDailyRuntime → ℕ
used day none = 0
used day (some d) = if d.date_local == day then d.runtime_s else 0

abbrev pub NotAfter : Option ZoneDailyRuntime → ℕ → Type 0
NotAfter none day = Unit
NotAfter (some d) day = d.date_local ≤ day

-- There is an instant in the second if there is one in the first, and it is not earlier.
abbrev pub Reaches : Option ℕ → Option ℕ → Type 0
Reaches none b = Unit
Reaches (some a) none = ⊥
Reaches (some a) (some b) = a ≤ b

abbrev pub DailyOk : Option ZoneDailyRuntime → Type 0
DailyOk none = Unit
DailyOk (some d) = daily_ok d ≡ true

-- What stands in both runtimes under one id, where they are of one day, is the same.
abbrev pub DailyAgree : Option ZoneDailyRuntime → Option ZoneDailyRuntime → Type 0
DailyAgree (some c) (some r) = c.date_local ≡ r.date_local → Agrees c.contributions r.contributions
DailyAgree _ _ = Unit

-- A history that is the first one, with the evidence of the second.
pub record Continues (continuing retained merged : ZoneHistory) : Type 0 where
  pub same_id : merged.zone_history_id ≡ continuing.zone_history_id
  pub same_subentry : merged.active_subentry_id ≡ continuing.active_subentry_id
  pub same_runtime : merged.zone_runtime ≡ continuing.zone_runtime
  pub end_of_continuing : Reaches continuing.last_session_end_utc merged.last_session_end_utc
  pub end_of_retained : Reaches retained.last_session_end_utc merged.last_session_end_utc
  pub start_of_continuing :
      Reaches continuing.last_auto_session_start_utc merged.last_auto_session_start_utc
  pub start_of_retained :
      Reaches retained.last_auto_session_start_utc merged.last_auto_session_start_utc
  pub budget_of_continuing :
      (day : ℕ) → NotAfter retained.daily day → used day continuing.daily ≤ used day merged.daily
  pub budget_of_retained :
      (day : ℕ) → NotAfter continuing.daily day → used day retained.daily ≤ used day merged.daily

Reaches-left : (a b : Option ℕ) → Reaches a (latest a b)
unfolding latest
Reaches-left none b = tt
Reaches-left (some a) none = omega arith
Reaches-left (some a) (some b) = omega arith

Reaches-right : (a b : Option ℕ) → Reaches b (latest a b)
unfolding latest
Reaches-right none none = tt
Reaches-right (some a) none = tt
Reaches-right none (some b) = omega arith
Reaches-right (some a) (some b) = omega arith

-- No budget comes back.
record KeepsBudget (c r d : Option ZoneDailyRuntime) : Type 0 where
  of_continuing : (day : ℕ) → NotAfter r day → used day c ≤ used day d
  of_retained : (day : ℕ) → NotAfter c day → used day r ≤ used day d

Merged-KeepsBudget :
    (c r : ZoneDailyRuntime) (m : Result ZoneDailyRuntime)
    → c.date_local ≡ r.date_local
    → Returns (Merged c r) m
    → Returns (KeepsBudget (some c) (some r)) (m >>= λ d. ok (some d))
Merged-KeepsBudget c r (ok d) e h = record {
  of_continuing = λ day k. ground (arith, h.same_date, h.covers_left);
  of_retained = λ day k. ground (arith, h.same_date, h.covers_right);
}
Merged-KeepsBudget c r (raised e) d h = h

merge_daily-KeepsBudget :
    (c r : Option ZoneDailyRuntime)
    → DailyOk c
    → DailyOk r
    → DailyAgree c r
    → Returns (KeepsBudget c r) (merge_daily c r)
unfolding merge_daily
merge_daily-KeepsBudget none r p q a = record {
  of_continuing = λ day h. omega arith;
  of_retained = λ day h. omega arith;
}
merge_daily-KeepsBudget (some c) none p q a = record {
  of_continuing = λ day h. omega arith;
  of_retained = λ day h. omega arith;
}
merge_daily-KeepsBudget (some c) (some r) p q a = elim (Bool-cases (c.date_local == r.date_local)) [
  | inl same ↦
      let e : c.date_local ≡ r.date_local = ground (arith, same) in
      rw same (
        Merged-KeepsBudget c r (conservative_merge_daily_runtime c r) e
          (daily_merge_is_conservative c r p q e (a e)))
  | inr other ↦ rw other (record {
    of_continuing = λ day k. ground (arith, other);
    of_retained = λ day k. ground (arith, other);
  })
]

-- A logical zone takes over from a retained history, of another id, only what bounds it: where both
-- daily runtimes can be built and agree on a common day, the merge returns; it has the identity and
-- the operational state of the zone, its last session end and last automatic start are not before
-- those of either history, and the runtime used on a day that is not before the other history's day is
-- at least that of each.
pub continuity_keeps_budget :
    (same_history : ZoneHistory → ZoneHistory → Bool) (continuing retained : ZoneHistory)
    → str_eq continuing.zone_history_id retained.zone_history_id ≡ false
    → history_ok continuing ≡ true
    → DailyOk continuing.daily
    → DailyOk retained.daily
    → DailyAgree continuing.daily retained.daily
    → Returns
        (Continues continuing retained)
        (merge_zone_history_continuity same_history continuing retained)
unfolding merge_zone_history_continuity continued history_ok
continuity_keeps_budget same_history c r i h p q a =
    rw i (by_daily (merge_daily c.daily r.daily) (merge_daily-KeepsBudget c.daily r.daily p q a))
  where
    valid : (d : Option ZoneDailyRuntime) → history_ok (continued c r d) ≡ true
    valid d = h

    by_daily :
        (m : Result (Option ZoneDailyRuntime))
        → Returns (KeepsBudget c.daily r.daily) m
        → Returns (Continues c r) (m >>= λ daily. make_history (continued c r daily))
    by_daily (ok d) k = simp (valid d) (record {
      same_id = refl;
      same_subentry = refl;
      same_runtime = refl;
      end_of_continuing = Reaches-left c.last_session_end_utc r.last_session_end_utc;
      end_of_retained = Reaches-right c.last_session_end_utc r.last_session_end_utc;
      start_of_continuing =
          Reaches-left c.last_auto_session_start_utc r.last_auto_session_start_utc;
      start_of_retained = Reaches-right c.last_auto_session_start_utc r.last_auto_session_start_utc;
      budget_of_continuing = k.of_continuing;
      budget_of_retained = k.of_retained;
    })
    by_daily (raised e) k = absurd k
