-- ===== src/Accounting.antt =====
-- models.py: the runtime of a zone on one local day, with the contributions it is known by. A local
-- date is the number of a day, and a runtime is finite and not negative by its representation.
pub mod Dedupe
pub mod Collect
pub mod Merge
use Prim.Native.String.{compare}
use text.Mathlib.Text.{◌==◌ as str_eq, is_le}
use moisture_loop.Base.{
  ℕ, ◌+◌, ◌-◌, ◌≡◌, max, refl, Bool, true, false, ◌&&◌, ◌||◌, not, Option, none, some, List, [],
  ◌∷◌, ◌++◌, String, leb, ◌==◌, any, length, is_some, if◌then◌else◌, Result, ok, raised,
  value_error, ◌>>=◌, arith,
}

pub record AccountingContribution : Type 0 where
  pub accounting_contribution_id : String
  pub source_safety_record_id : String
  pub start_utc : Option ℕ
  pub end_utc : Option ℕ
  pub runtime_s : ℕ
  pub runtime_estimated : Bool
  pub local_date : Option ℕ

abbrev option_eq : Option ℕ → Option ℕ → Bool
option_eq none none = true
option_eq (some a) (some b) = a == b
option_eq _ _ = false

abbrev bool_eq : Bool → Bool → Bool
bool_eq true b = b
bool_eq false b = not b

-- `==` on contributions is field by field.
unfoldable pub contribution_eq : AccountingContribution → AccountingContribution → Bool
contribution_eq a b =
    str_eq a.accounting_contribution_id b.accounting_contribution_id
    && (str_eq a.source_safety_record_id b.source_safety_record_id
        && (option_eq a.start_utc b.start_utc
            && (option_eq a.end_utc b.end_utc
                && (a.runtime_s == b.runtime_s
                    && (bool_eq a.runtime_estimated b.runtime_estimated
                        && option_eq a.local_date b.local_date)))))

abbrev ordered_anchors : Option ℕ → Option ℕ → Bool
ordered_anchors none none = true
ordered_anchors (some start) (some end) = leb start end
ordered_anchors _ _ = false

-- The test of `AccountingContribution.__post_init__`.
unfoldable pub contribution_ok : AccountingContribution → Bool
contribution_ok c =
    not (str_eq c.accounting_contribution_id "")
    && (not (str_eq c.source_safety_record_id "") && ordered_anchors c.start_utc c.end_utc)

abbrev pub find_contribution : String → List AccountingContribution → Option AccountingContribution
find_contribution id [] = none
find_contribution id (c ∷ cs) =
    if str_eq c.accounting_contribution_id id then some c else find_contribution id cs

-- The loop of `deduplicate_accounting_contributions`, over the dictionary by id.
unfoldable pub collect :
    List AccountingContribution → List AccountingContribution → Result (List AccountingContribution)
collect by_id [] = ok by_id
collect by_id (c ∷ cs) = elim (find_contribution c.accounting_contribution_id by_id) [
  | none ↦ collect (by_id ++ c ∷ []) cs
  | some existing ↦ elim (contribution_eq existing c) [
    | true ↦ collect by_id cs
    | false ↦ raised value_error
  ]
]

abbrev pub id_le : AccountingContribution → AccountingContribution → Bool
id_le a b = is_le (compare a.accounting_contribution_id b.accounting_contribution_id)

unfoldable pub insert_by_id :
    AccountingContribution → List AccountingContribution → List AccountingContribution
insert_by_id c [] = c ∷ []
insert_by_id c (x ∷ xs) = if id_le c x then c ∷ x ∷ xs else x ∷ insert_by_id c xs

unfoldable pub sort_by_id : List AccountingContribution → List AccountingContribution
unfolding insert_by_id
sort_by_id [] = []
sort_by_id (c ∷ cs) = insert_by_id c (sort_by_id cs)

unfoldable pub deduplicate_accounting_contributions :
    List AccountingContribution → Result (List AccountingContribution)
unfolding collect sort_by_id
deduplicate_accounting_contributions cs = collect [] cs >>= λ by_id. ok (sort_by_id by_id)

unfoldable pub known_runtime : List AccountingContribution → ℕ
known_runtime [] = 0
known_runtime (c ∷ cs) = c.runtime_s + known_runtime cs

pub record ZoneDailyRuntime : Type 0 where
  pub date_local : ℕ
  pub runtime_s : ℕ
  pub conservative_unattributed_runtime_s : ℕ
  pub contributions : List AccountingContribution

abbrev other_day : ℕ → Option ℕ → Bool
other_day date none = false
other_day date (some d) = not (d == date)

-- Whether deduplication returns and drops nothing.
abbrev pub same_length : List AccountingContribution → Result (List AccountingContribution) → Bool
same_length cs (ok deduplicated) = length deduplicated == length cs
same_length cs (raised _) = false

abbrev pub keeps_all : List AccountingContribution → Bool
keeps_all cs = same_length cs (deduplicate_accounting_contributions cs)

-- The test of `ZoneDailyRuntime.__post_init__`.
unfoldable pub daily_ok : ZoneDailyRuntime → Bool
unfolding known_runtime
daily_ok d =
    leb d.conservative_unattributed_runtime_s d.runtime_s
    && (keeps_all d.contributions
        && (leb (known_runtime d.contributions) d.runtime_s
            && not (any (λ c. other_day d.date_local c.local_date) d.contributions)))

-- `ZoneDailyRuntime(...)`.
abbrev pub make_daily : ZoneDailyRuntime → Result ZoneDailyRuntime
make_daily d = if daily_ok d then ok d else raised value_error

-- `max(d.conservative_unattributed_runtime_s, d.runtime_s - known)`, where the difference is at
-- least the first if it is negative.
abbrev pub unresolved : ZoneDailyRuntime → ℕ
unresolved d =
    max d.conservative_unattributed_runtime_s (d.runtime_s - known_runtime d.contributions)

unfoldable pub conservative_merge_daily_runtime :
    ZoneDailyRuntime → ZoneDailyRuntime → Result ZoneDailyRuntime
conservative_merge_daily_runtime left right =
    if left.date_local == right.date_local
    then (deduplicate_accounting_contributions (left.contributions ++ right.contributions)
        >>= λ contributions. make_daily (record {
          date_local = left.date_local;
          runtime_s = known_runtime contributions + (unresolved left + unresolved right);
          conservative_unattributed_runtime_s = unresolved left + unresolved right;
          contributions = contributions;
        }))
    else raised value_error
