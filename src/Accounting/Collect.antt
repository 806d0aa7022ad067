-- ===== src/Accounting/Collect.antt =====
-- models.py: the dictionary of contributions by id, and how many it collects.
use text.Mathlib.TextEquality.{eq_iff}
use mathlib.Core.List.{append_assoc, append-nil}
use moisture_loop.Base.{
  suc, ◌+◌, ◌≡◌, ◌≤◌, refl, sym, ap, subst, false, ◌||◌, List, [], ◌∷◌, ◌++◌, String, length, ok,
  Ensures, arith, inl, inr, Option-cases,
}
use moisture_loop.Accounting.{
  AccountingContribution, find_contribution, collect, insert_by_id, sort_by_id,
}
use moisture_loop.Accounting.Dedupe.{has_id, UniqueIds, UniqueIds-append}

length-insert_by_id :
    (c : AccountingContribution) (xs : List AccountingContribution)
    → length (insert_by_id c xs) ≡ suc (length xs)
unfolding insert_by_id
length-insert_by_id c [] = refl
length-insert_by_id c (x ∷ xs) = ground (arith, length-insert_by_id c xs)

pub length-sort_by_id : (xs : List AccountingContribution) → length (sort_by_id xs) ≡ length xs
unfolding sort_by_id
length-sort_by_id [] = refl
length-sort_by_id (x ∷ xs) =
    omega (arith, length-insert_by_id x (sort_by_id xs), length-sort_by_id xs)

length-append : (xs ys : List AccountingContribution) → length (xs ++ ys) ≡ length xs + length ys
length-append [] ys = omega arith
length-append (x ∷ xs) ys = omega (arith, length-append xs ys)

-- Where nothing is dropped, no id stands twice.
pub collect-length :
    (by_id cs : List AccountingContribution)
    → UniqueIds by_id
    → Ensures
        (λ r.
          (length r ≤ length by_id + length cs)
          × (length r ≡ length by_id + length cs → UniqueIds (by_id ++ cs)))
        (collect by_id cs)
unfolding collect
collect-length by_id [] u = (omega arith, λ _. subst UniqueIds (sym (append-nil by_id)) u)
collect-length by_id (c ∷ cs) u =
    elim (Option-cases (find_contribution c.accounting_contribution_id by_id)) [
      | inl new ↦ ground (
        arith,
        collect-length (by_id ++ c ∷ []) cs,
        UniqueIds-append by_id c u,
        append_assoc by_id (c ∷ []) cs,
        length-append by_id (c ∷ []),
      )
      | inr (e, old) ↦ ground (arith, collect-length by_id cs u, old)
    ]

has_id-concat :
    (id : String) (xs ys : List AccountingContribution)
    → has_id id (xs ++ ys) ≡ (has_id id xs || has_id id ys)
has_id-concat id [] ys = refl
has_id-concat id (x ∷ xs) ys = ground (arith, has_id-concat id xs ys)

not_in_front :
    (xs ys : List AccountingContribution) (c : AccountingContribution)
    → UniqueIds (xs ++ c ∷ ys)
    → has_id c.accounting_contribution_id xs ≡ false
not_in_front [] ys c u = refl
not_in_front (x ∷ xs) ys c u = ground (
  arith,
  not_in_front xs ys c u.1,
  has_id-concat x.accounting_contribution_id xs (c ∷ ys),
  eq_iff c.accounting_contribution_id x.accounting_contribution_id,
  eq_iff x.accounting_contribution_id c.accounting_contribution_id,
)

-- Where no id stands twice, everything is collected.
pub collect_unique :
    (by_id cs : List AccountingContribution)
    → UniqueIds (by_id ++ cs)
    → collect by_id cs ≡ ok (by_id ++ cs)
unfolding collect
collect_unique by_id [] u = ap ok (sym (append-nil by_id))
collect_unique by_id (c ∷ cs) u = ground (
  arith,
  not_in_front by_id cs c u,
  append_assoc by_id (c ∷ []) cs,
  collect_unique (by_id ++ c ∷ []) cs,
)
