-- ===== src/Accounting/Merge.antt =====
-- models.py: the merge of two daily runtimes, and the runtime that it keeps.
use text.Mathlib.Text.{◌==◌ as str_eq}
use text.Mathlib.TextEquality.{eq_iff}
use moisture_loop.Base.{
  ◌+◌, ◌==◌, ◌≡◌, ◌≤◌, ◌↔◌, refl, sym, ap, subst, ◌∙◌, Bool, true, false, ◌||◌, Option, none, some,
  List, [], ◌∷◌, ◌++◌, String, any, length, Result, ok, raised, ◌>>=◌, Ensures, Ensures-eq_ok,
  Returns, arith, inl, inr, Option-cases,
}
use moisture_loop.Accounting.{
  AccountingContribution, ZoneDailyRuntime, contribution_eq, find_contribution, collect,
  insert_by_id, sort_by_id, deduplicate_accounting_contributions, known_runtime, keeps_all,
  daily_ok, unresolved, same_length, other_day, conservative_merge_daily_runtime,
}
use moisture_loop.Accounting.Dedupe.{
  has_id, UniqueIds, collect_bounds, collect_covers, collect-UniqueIds, known_runtime-sort_by_id,
  sort_by_id-UniqueIds,
}
use moisture_loop.Accounting.Collect.{length-sort_by_id, collect-length, collect_unique}

-- The daily runtimes that can be built: no id twice, the parts within the total, and one day.
pub record IsDaily (d : ZoneDailyRuntime) : Type 0 where
  pub unique : UniqueIds d.contributions
  pub unattributed : d.conservative_unattributed_runtime_s ≤ d.runtime_s
  pub known : known_runtime d.contributions ≤ d.runtime_s
  pub same_day : any (λ c. other_day d.date_local c.local_date) d.contributions ≡ false

keeps_all_iff : (cs : List AccountingContribution) → (keeps_all cs ≡ true) ↔ UniqueIds cs
unfolding deduplicate_accounting_contributions
keeps_all_iff cs = (to_unique, from_unique)
  where
    by_collect :
        (r : Result (List AccountingContribution))
        → Ensures
            (λ by_id.
              (length by_id ≤ 0 + length cs) × (length by_id ≡ 0 + length cs → UniqueIds cs))
            r
        → same_length cs (r >>= λ by_id. ok (sort_by_id by_id)) ≡ true
        → UniqueIds cs
    by_collect (ok by_id) c h = ground (arith, length-sort_by_id by_id)
    by_collect (raised e) c h = cc

    to_unique : keeps_all cs ≡ true → UniqueIds cs
    to_unique h = by_collect (collect [] cs) (collect-length [] cs tt) h

    from_unique : UniqueIds cs → keeps_all cs ≡ true
    from_unique u = rw (collect_unique [] cs u) (ground (arith, length-sort_by_id cs))

daily_ok_iff : (d : ZoneDailyRuntime) → (daily_ok d ≡ true) ↔ IsDaily d
unfolding daily_ok
daily_ok_iff d = ground (arith, keeps_all_iff d.contributions)

collect-concat :
    (by_id xs ys : List AccountingContribution)
    → collect by_id (xs ++ ys) ≡ (collect by_id xs >>= λ r. collect r ys)
unfolding collect
collect-concat by_id [] ys = refl
collect-concat by_id (x ∷ xs) ys =
    ground (arith, collect-concat (by_id ++ x ∷ []) xs ys, collect-concat by_id xs ys)

module _ (p : AccountingContribution → Bool) where
  any-append :
      (xs : List AccountingContribution) (c : AccountingContribution)
      → any p (xs ++ c ∷ []) ≡ (any p xs || p c)
  any-append [] c = ground arith
  any-append (x ∷ xs) c = ground (arith, any-append xs c)

  collect-any :
      (by_id cs : List AccountingContribution)
      → any p by_id ≡ false
      → any p cs ≡ false
      → Ensures (λ r. any p r ≡ false) (collect by_id cs)
  unfolding collect
  collect-any by_id [] h k = h
  collect-any by_id (c ∷ cs) h k =
      ground (arith, collect-any (by_id ++ c ∷ []) cs, collect-any by_id cs, any-append by_id c)

  any-insert_by_id :
      (c : AccountingContribution) (xs : List AccountingContribution)
      → any p (insert_by_id c xs) ≡ (p c || any p xs)
  unfolding insert_by_id
  any-insert_by_id c [] = refl
  any-insert_by_id c (x ∷ xs) = ground (arith, any-insert_by_id c xs)

  any-sort_by_id : (xs : List AccountingContribution) → any p (sort_by_id xs) ≡ any p xs
  unfolding sort_by_id
  any-sort_by_id [] = refl
  any-sort_by_id (x ∷ xs) = ground (arith, any-insert_by_id x (sort_by_id xs), any-sort_by_id xs)

abbrev AgreesAt : Option AccountingContribution → AccountingContribution → Type 0
AgreesAt none c = Unit
AgreesAt (some e) c = contribution_eq e c ≡ true

-- A contribution of the second list that stands in the first under its id is the same one.
abbrev pub Agrees : List AccountingContribution → List AccountingContribution → Type 0
Agrees xs [] = Unit
Agrees xs (c ∷ ys) = AgreesAt (find_contribution c.accounting_contribution_id xs) c × Agrees xs ys

find-append :
    (id : String) (xs : List AccountingContribution) (c : AccountingContribution)
    → str_eq c.accounting_contribution_id id ≡ false
    → find_contribution id (xs ++ c ∷ []) ≡ find_contribution id xs
find-append id [] c h = ground arith
find-append id (x ∷ xs) c h = ground (arith, find-append id xs c h)

Agrees-append :
    (xs ys : List AccountingContribution) (c : AccountingContribution)
    → has_id c.accounting_contribution_id ys ≡ false
    → Agrees xs ys
    → Agrees (xs ++ c ∷ []) ys
Agrees-append xs [] c h a = tt
Agrees-append xs (y ∷ ys) c h a = ground (
  arith,
  Agrees-append xs ys c,
  find-append y.accounting_contribution_id xs c,
  eq_iff c.accounting_contribution_id y.accounting_contribution_id,
  eq_iff y.accounting_contribution_id c.accounting_contribution_id,
)

-- Lists that agree, the second without a repeated id, are collected.
collect-Returns :
    (by_id cs : List AccountingContribution)
    → UniqueIds cs
    → Agrees by_id cs
    → Returns (λ r. Unit) (collect by_id cs)
unfolding collect
collect-Returns by_id [] u a = tt
collect-Returns by_id (c ∷ cs) u a =
    elim (Option-cases (find_contribution c.accounting_contribution_id by_id)) [
      | inl new ↦
          ground (arith, collect-Returns (by_id ++ c ∷ []) cs u.1, Agrees-append by_id cs c u.0 a.1)
      | inr (e, old) ↦ ground (arith, collect-Returns by_id cs u.1 a.1, old)
    ]

-- What a merge of two runtimes of one day keeps.
pub record Merged (left right merged : ZoneDailyRuntime) : Type 0 where
  pub same_date : merged.date_local ≡ left.date_local
  pub covers_left : left.runtime_s ≤ merged.runtime_s
  pub covers_right : right.runtime_s ≤ merged.runtime_s
  pub valid : IsDaily merged

unresolved_covers :
    (d : ZoneDailyRuntime) → d.runtime_s ≤ known_runtime d.contributions + unresolved d
unresolved_covers d = omega arith

Merged-from :
    (left right : ZoneDailyRuntime) (r : List AccountingContribution)
    → IsDaily left
    → IsDaily right
    → left.date_local ≡ right.date_local
    → collect left.contributions right.contributions ≡ ok r
    → Merged left right (record {
      date_local = left.date_local;
      runtime_s = known_runtime (sort_by_id r) + (unresolved left + unresolved right);
      conservative_unattributed_runtime_s = unresolved left + unresolved right;
      contributions = sort_by_id r;
    })
Merged-from left right r l m d e =
    let cs = left.contributions in
    let ds = right.contributions in
    let sorted = known_runtime-sort_by_id r in
    let bounds = Ensures-eq_ok _ (collect cs ds) (collect_bounds cs ds) e in
    let covers = Ensures-eq_ok _ (collect cs ds) (collect_covers cs ds m.unique) e in
    let unique = Ensures-eq_ok UniqueIds (collect cs ds) (collect-UniqueIds cs ds l.unique) e in
    let day : AccountingContribution → Bool = λ c. other_day left.date_local c.local_date in
    let same =
      Ensures-eq_ok _ (collect cs ds)
        (collect-any day cs ds l.same_day
          (subst (λ t. any (λ c. other_day t c.local_date) ds ≡ false) (sym d) m.same_day))
        e in
    record {
      same_date = refl;
      covers_left = omega (arith, unresolved_covers left);
      covers_right = omega (arith, unresolved_covers right);
      valid = record {
        unique = sort_by_id-UniqueIds r unique;
        unattributed = omega arith;
        known = omega arith;
        same_day = any-sort_by_id day r ∙ same;
      };
    }

-- Two daily runtimes that can be built, of one day, whose contributions agree, are merged without an
-- error. The merge can be built, is of that day, and has at least the runtime of either side: no
-- budget that was used comes back.
pub daily_merge_is_conservative :
    (left right : ZoneDailyRuntime)
    → daily_ok left ≡ true
    → daily_ok right ≡ true
    → left.date_local ≡ right.date_local
    → Agrees left.contributions right.contributions
    → Returns (Merged left right) (conservative_merge_daily_runtime left right)
unfolding conservative_merge_daily_runtime deduplicate_accounting_contributions
daily_merge_is_conservative left right l r d a =
    by_collect (collect left.contributions right.contributions) refl
      (collect-Returns left.contributions right.contributions ir.unique a)
  where
    il : IsDaily left
    il = (daily_ok_iff left).0 l

    ir : IsDaily right
    ir = (daily_ok_iff right).0 r

    collected :
        collect [] (left.contributions ++ right.contributions)
        ≡ collect left.contributions right.contributions
    collected =
        collect-concat [] left.contributions right.contributions
        ∙ ap (λ c. c >>= λ b. collect b right.contributions)
            (collect_unique [] left.contributions il.unique)

    same_date : (left.date_local == right.date_local) ≡ true
    same_date = ground (arith, d)

    by_collect :
        (c : Result (List AccountingContribution))
        → collect left.contributions right.contributions ≡ c
        → Returns (λ _. Unit) c
        → Returns (Merged left right) (conservative_merge_daily_runtime left right)
    by_collect (raised x) e h = absurd h
    by_collect (ok x) e h =
        let merged = Merged-from left right x il ir d e in
        simp (same_date, collected ∙ e, (daily_ok_iff _).1 merged.valid) merged
