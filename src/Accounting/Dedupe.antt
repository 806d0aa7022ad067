-- ===== src/Accounting/Dedupe.antt =====
-- models.py: deduplication by id, on the runtime that it keeps.
use text.Mathlib.Text.{◌==◌ as str_eq}
use text.Mathlib.TextEquality.{eq_iff}
use moisture_loop.Base.{
  ℕ, ◌+◌, ◌≡◌, ◌≤◌, refl, sym, subst, ◌∙◌, Bool, true, false, ◌||◌, some, List, [], ◌∷◌, ◌++◌,
  String, is_some, if◌then◌else◌, Ensures, arith, Bool-cases, inl, inr, Option-cases,
}
use moisture_loop.Accounting.{
  AccountingContribution, contribution_eq, find_contribution, collect, insert_by_id, sort_by_id,
  known_runtime,
}

abbrev pub has_id : String → List AccountingContribution → Bool
has_id id cs = is_some (find_contribution id cs)

-- No id stands twice.
abbrev pub UniqueIds : List AccountingContribution → Type 0
UniqueIds [] = Unit
UniqueIds (c ∷ cs) = (has_id c.accounting_contribution_id cs ≡ false) × UniqueIds cs

-- The runtime of the contributions whose id is not among the others.
pub outside : List AccountingContribution → List AccountingContribution → ℕ
outside others [] = 0
outside others (c ∷ cs) =
    let rest = outside others cs in
    if has_id c.accounting_contribution_id others then rest else c.runtime_s + rest

pub known_runtime-append :
    (xs ys : List AccountingContribution)
    → known_runtime (xs ++ ys) ≡ known_runtime xs + known_runtime ys
unfolding known_runtime
known_runtime-append [] ys = omega arith
known_runtime-append (x ∷ xs) ys = omega (arith, known_runtime-append xs ys)

-- What is collected holds what was collected before, and at most all that is given besides.
pub collect_bounds :
    (by_id cs : List AccountingContribution)
    → Ensures
        (λ r.
          (known_runtime by_id ≤ known_runtime r)
          × (known_runtime r ≤ known_runtime by_id + known_runtime cs))
        (collect by_id cs)
unfolding collect known_runtime
collect_bounds by_id [] = omega arith
collect_bounds by_id (c ∷ cs) = grind (
  arith,
  collect_bounds (by_id ++ c ∷ []) cs,
  collect_bounds by_id cs,
  known_runtime-append by_id (c ∷ []),
)

outside-append :
    (others xs ys : List AccountingContribution)
    → outside others (xs ++ ys) ≡ outside others xs + outside others ys
unfolding outside
outside-append others [] ys = omega arith
outside-append others (x ∷ xs) ys = ground (arith, outside-append others xs ys)

outside-le : (others xs : List AccountingContribution) → outside others xs ≤ known_runtime xs
unfolding outside known_runtime
outside-le others [] = omega arith
outside-le others (x ∷ xs) = ground (arith, outside-le others xs)

str_eq_refl : (s : String) → str_eq s s ≡ true
str_eq_refl s = (eq_iff s s).1 refl

-- One more id leaves no more outside.
outside-cons :
    (c : AccountingContribution) (others xs : List AccountingContribution)
    → outside (c ∷ others) xs ≤ outside others xs
unfolding outside
outside-cons c others [] = omega arith
outside-cons c others (x ∷ xs) = ground (arith, outside-cons c others xs)

-- An entry with the id of `c` counts while only the ids of the others are left out.
outside-found :
    (c e : AccountingContribution) (others xs : List AccountingContribution)
    → has_id c.accounting_contribution_id others ≡ false
    → find_contribution c.accounting_contribution_id xs ≡ some e
    → e.runtime_s + outside (c ∷ others) xs ≤ outside others xs
unfolding outside
outside-found c e others [] free f = cc
outside-found c e others (x ∷ xs) free f =
    elim (Bool-cases (str_eq x.accounting_contribution_id c.accounting_contribution_id)) [
      | inl same ↦
          let eq : x.accounting_contribution_id ≡ c.accounting_contribution_id =
            (eq_iff x.accounting_contribution_id c.accounting_contribution_id).0 same in
          let free' : has_id x.accounting_contribution_id others ≡ false =
            subst (λ i. has_id i others ≡ false) (sym eq) free in
          let back =
            (eq_iff c.accounting_contribution_id x.accounting_contribution_id).1 (sym eq) in
          ground (arith, outside-cons c others xs, free', back)
      | inr other ↦ ground (arith, outside-found c e others xs)
    ]

contribution_eq-runtime :
    (a b : AccountingContribution) → contribution_eq a b ≡ true → a.runtime_s ≡ b.runtime_s
unfolding contribution_eq
contribution_eq-runtime a b h = ground arith

-- What is collected covers a list without a repeated id, and what else was collected.
pub collect_covers :
    (by_id cs : List AccountingContribution)
    → UniqueIds cs
    → Ensures (λ r. known_runtime cs + outside cs by_id ≤ known_runtime r) (collect by_id cs)
unfolding collect known_runtime outside
collect_covers by_id [] u = omega (arith, outside-le [] by_id)
collect_covers by_id (c ∷ cs) u =
    elim (Option-cases (find_contribution c.accounting_contribution_id by_id)) [
      | inl new ↦ ground (
        arith,
        collect_covers (by_id ++ c ∷ []) cs u.1,
        outside-append cs by_id (c ∷ []),
        outside-cons c cs by_id,
      )
      | inr (e, old) ↦ ground (
        arith,
        collect_covers by_id cs u.1,
        outside-found c e cs by_id u.0 old,
        contribution_eq-runtime e c,
      )
    ]

-- The ids of what is collected stay unique.
pub has_id-append :
    (id : String) (xs : List AccountingContribution) (c : AccountingContribution)
    → has_id id (xs ++ c ∷ []) ≡ (has_id id xs || str_eq c.accounting_contribution_id id)
has_id-append id [] c = ground arith
has_id-append id (x ∷ xs) c = ground (arith, has_id-append id xs c)

pub UniqueIds-append :
    (xs : List AccountingContribution) (c : AccountingContribution)
    → UniqueIds xs
    → has_id c.accounting_contribution_id xs ≡ false
    → UniqueIds (xs ++ c ∷ [])
UniqueIds-append [] c u h = (refl, tt)
UniqueIds-append (x ∷ xs) c u h = ground (
  arith,
  UniqueIds-append xs c u.1,
  has_id-append x.accounting_contribution_id xs c,
  eq_iff c.accounting_contribution_id x.accounting_contribution_id,
  eq_iff x.accounting_contribution_id c.accounting_contribution_id,
)

pub collect-UniqueIds :
    (by_id cs : List AccountingContribution)
    → UniqueIds by_id
    → Ensures UniqueIds (collect by_id cs)
unfolding collect
collect-UniqueIds by_id [] u = u
collect-UniqueIds by_id (c ∷ cs) u =
    elim (Option-cases (find_contribution c.accounting_contribution_id by_id)) [
      | inl new ↦ ground (arith, collect-UniqueIds (by_id ++ c ∷ []) cs, UniqueIds-append by_id c u)
      | inr (e, old) ↦ ground (arith, collect-UniqueIds by_id cs u, old)
    ]

known_runtime-insert_by_id :
    (c : AccountingContribution) (xs : List AccountingContribution)
    → known_runtime (insert_by_id c xs) ≡ c.runtime_s + known_runtime xs
unfolding insert_by_id known_runtime
known_runtime-insert_by_id c [] = refl
known_runtime-insert_by_id c (x ∷ xs) = ground (arith, known_runtime-insert_by_id c xs)

pub known_runtime-sort_by_id :
    (xs : List AccountingContribution) → known_runtime (sort_by_id xs) ≡ known_runtime xs
unfolding sort_by_id known_runtime
known_runtime-sort_by_id [] = refl
known_runtime-sort_by_id (x ∷ xs) =
    omega (arith, known_runtime-insert_by_id x (sort_by_id xs), known_runtime-sort_by_id xs)

has_id-insert_by_id :
    (id : String) (c : AccountingContribution) (xs : List AccountingContribution)
    → has_id id (insert_by_id c xs) ≡ (str_eq c.accounting_contribution_id id || has_id id xs)
unfolding insert_by_id
has_id-insert_by_id id c [] = ground arith
has_id-insert_by_id id c (x ∷ xs) = ground (arith, has_id-insert_by_id id c xs)

has_id-sort_by_id :
    (id : String) (xs : List AccountingContribution) → has_id id (sort_by_id xs) ≡ has_id id xs
unfolding sort_by_id
has_id-sort_by_id id [] = refl
has_id-sort_by_id id (x ∷ xs) =
    ground (arith, has_id-insert_by_id id x (sort_by_id xs), has_id-sort_by_id id xs)

insert_by_id-UniqueIds :
    (c : AccountingContribution) (xs : List AccountingContribution)
    → UniqueIds xs
    → has_id c.accounting_contribution_id xs ≡ false
    → UniqueIds (insert_by_id c xs)
unfolding insert_by_id
insert_by_id-UniqueIds c [] u h = (refl, tt)
insert_by_id-UniqueIds c (x ∷ xs) u h = ground (
  arith,
  insert_by_id-UniqueIds c xs u.1,
  has_id-insert_by_id x.accounting_contribution_id c xs,
  eq_iff c.accounting_contribution_id x.accounting_contribution_id,
  eq_iff x.accounting_contribution_id c.accounting_contribution_id,
)

pub sort_by_id-UniqueIds :
    (xs : List AccountingContribution) → UniqueIds xs → UniqueIds (sort_by_id xs)
unfolding sort_by_id
sort_by_id-UniqueIds [] u = u
sort_by_id-UniqueIds (x ∷ xs) u =
    insert_by_id-UniqueIds x (sort_by_id xs) (sort_by_id-UniqueIds xs u.1)
      (has_id-sort_by_id x.accounting_contribution_id xs ∙ u.0)
