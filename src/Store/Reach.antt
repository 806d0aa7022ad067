-- ===== src/Store/Reach.antt =====
-- storage.py: any calls of a loaded store, in any order, whatever happens to their writes.
use moisture_loop.Base.{
  ℕ, ◌≤◌, ◌≡◌, ◌⊎◌, inl, inr, refl, sym, ap, subst, ◌∙◌, Bool, true, false, Option, none, some,
  String, Result, Ensures-eq_ok, arith,
}
use moisture_loop.Records.History.{ZoneHistory}
use moisture_loop.Records.Data.{StoreData, RunIds, store_data_ok, previous_run_was_clean, same_run}
use moisture_loop.Store.{Codec, Write, SafetyStore, Plan, run}
use moisture_loop.Store.Atomic.{run_is_atomic}
use moisture_loop.Store.Next.{
  FollowsIn, OnWrite, Plans, begin_new_run-Plans, mark_clean_shutdown-Plans,
  set_record_blocker-Plans, acknowledge_actuator_fault-Plans, acknowledge_removed_actuator-Plans,
  reconcile-Plans, update_controller_runtime-Plans, rebase_soaking_owner_for_record-Plans,
  merge_zone_history_for_record-Plans,
}
use moisture_loop.Store.Calls.{
  Call, begin_run, mark_clean, update_runtime, acknowledge_fault, acknowledge_removed,
  reconcile_with, set_blocker, merge_history, rebase_owner, store_after,
}

-- The run ids after a call that is carried out.
abbrev pub run_ids_after : Call → RunIds → RunIds
run_ids_after (begin_run id) ids = record ids { active_run_id = some id }
run_ids_after mark_clean ids = record ids { last_clean_shutdown_run_id = ids.active_run_id }
run_ids_after _ ids = ids

-- A snapshot is replaced by one that follows it.
pub record Advances (c : Call) (s t : SafetyStore) : Type 0 where
  pub previous : StoreData
  pub next : StoreData
  pub was : s.snapshot ≡ some previous
  pub now : t ≡ record s { snapshot = some next }
  pub follows : FollowsIn (run_ids_after c previous.run) previous next

module _ {P : Type 0} (codec : Codec P) (same_history : ZoneHistory → ZoneHistory → Bool) where
  run-Advances :
      {A : Type 0} (c : Call) (plan : StoreData → Result (Plan A))
      → ((s : StoreData) → Plans (FollowsIn (run_ids_after c s.run) s) (plan s))
      → (w : Write P) (s : SafetyStore)
      → ((run codec plan w s).store ≡ s) ⊎ Advances c s (run codec plan w s).store
  run-Advances c plan h w s = elim (run_is_atomic codec plan w s) [
    | inl (same, unapplied) ↦ inl same
    | inr a ↦ inr (record {
      previous = a.previous;
      next = a.next;
      was = a.was;
      now = a.adopted;
      follows =
          Ensures-eq_ok (OnWrite (FollowsIn (run_ids_after c a.previous.run) a.previous))
            (plan a.previous) (h a.previous) a.planned;
    })
  ]

  -- A call leaves the store as it is, or replaces the snapshot by one that can be built, with the next
  -- revision, of the same generation, and with the run ids that the call sets.
  pub store_after-Advances :
      (c : Call) (w : Write P) (s : SafetyStore)
      → (store_after codec same_history c w s ≡ s)
        ⊎ Advances c s (store_after codec same_history c w s)
  unfolding store_after
  store_after-Advances (begin_run id) = run-Advances (begin_run id) _ (begin_new_run-Plans id)
  store_after-Advances mark_clean = run-Advances mark_clean _ mark_clean_shutdown-Plans
  store_after-Advances (update_runtime r h u) =
      run-Advances (update_runtime r h u) _ (λ s. update_controller_runtime-Plans s r h u)
  store_after-Advances (acknowledge_fault r l f) =
      run-Advances (acknowledge_fault r l f) _ (λ s. acknowledge_actuator_fault-Plans s r l f)
  store_after-Advances (acknowledge_removed r l e at) =
      run-Advances (acknowledge_removed r l e at) _
        (λ s. acknowledge_removed_actuator-Plans s r l e at)
  store_after-Advances (reconcile_with m) =
      run-Advances (reconcile_with m) _ (λ s. reconcile-Plans s m)
  store_after-Advances (set_blocker r reason active) =
      run-Advances (set_blocker r reason active) _ (λ s. set_record_blocker-Plans s r reason active)
  store_after-Advances (merge_history h r) =
      run-Advances (merge_history h r) _
        (λ s. merge_zone_history_for_record-Plans s same_history h r)
  store_after-Advances (rebase_owner r i) =
      run-Advances (rebase_owner r i) _ (λ s. rebase_soaking_owner_for_record-Plans s r i)

  -- Some calls lead from one store to another.
  pub data Reach (s : SafetyStore) : SafetyStore → Type 0 where
    here : Reach s s
    then_call :
        {t : SafetyStore} (c : Call) (w : Write P)
        → Reach s t
        → Reach s (store_after codec same_history c w t)

-- The snapshot, if there is one, can be built and is of the generation of the store.
abbrev pub SnapshotOk : Option StoreData → String → Type 0
SnapshotOk none generation = Unit
SnapshotOk (some d) generation = (store_data_ok d ≡ true) × (d.generation_id ≡ generation)

abbrev pub revision_of : Option StoreData → ℕ
revision_of none = 0
revision_of (some d) = d.store_revision

-- What calls keep of the store they start from.
pub record Sound (s t : SafetyStore) : Type 0 where
  pub generation : t.generation_id ≡ s.generation_id
  pub snapshot : SnapshotOk t.snapshot t.generation_id
  pub revision : revision_of s.snapshot ≤ revision_of t.snapshot

-- Whether the last run that was marked as shut down cleanly is the active one.
abbrev pub looks_clean : Option StoreData → Bool
looks_clean none = false
looks_clean (some d) = previous_run_was_clean d.run

abbrev pub last_clean : Option StoreData → Option String
last_clean none = none
last_clean (some d) = d.run.last_clean_shutdown_run_id

abbrev pub LeavesUnmarked : Option String → Call → Type 0
LeavesUnmarked id (begin_run new) = same_run (some new) id ≡ false
LeavesUnmarked id mark_clean = ⊥
LeavesUnmarked id _ = Unit

-- The active run is not the one that was marked last, which has the given id.
abbrev pub Unclean : Option String → SafetyStore → Type 0
Unclean id s = (last_clean s.snapshot ≡ id) × (looks_clean s.snapshot ≡ false)

abbrev UncleanIds : Option String → RunIds → Type 0
UncleanIds id ids = (ids.last_clean_shutdown_run_id ≡ id) × (previous_run_was_clean ids ≡ false)

run_ids_after-UncleanIds :
    (c : Call) (ids : RunIds) (id : Option String)
    → LeavesUnmarked id c
    → UncleanIds id ids
    → UncleanIds id (run_ids_after c ids)
unfolding previous_run_was_clean
run_ids_after-UncleanIds (begin_run new) ids id u h =
    (h.0, subst (λ x. same_run (some new) x ≡ false) (sym h.0) u)
run_ids_after-UncleanIds mark_clean ids id u h = absurd u
run_ids_after-UncleanIds (update_runtime _ _ _) ids id u h = h
run_ids_after-UncleanIds (acknowledge_fault _ _ _) ids id u h = h
run_ids_after-UncleanIds (acknowledge_removed _ _ _ _) ids id u h = h
run_ids_after-UncleanIds (reconcile_with _) ids id u h = h
run_ids_after-UncleanIds (set_blocker _ _ _) ids id u h = h
run_ids_after-UncleanIds (merge_history _ _) ids id u h = h
run_ids_after-UncleanIds (rebase_owner _ _) ids id u h = h

Advances-Unclean :
    (c : Call) (s t : SafetyStore) (id : Option String)
    → Advances c s t
    → LeavesUnmarked id c
    → Unclean id s
    → Unclean id t
Advances-Unclean c s t id a u h = subst (Unclean id) (sym a.now) (
    subst (UncleanIds id) (sym a.follows.run_ids) (
      run_ids_after-UncleanIds c a.previous.run id u
        (subst (λ x. (last_clean x ≡ id) × (looks_clean x ≡ false)) a.was h)))

module _ {P : Type 0} (codec : Codec P) (same_history : ZoneHistory → ZoneHistory → Bool) where
  Advances-Sound :
      (c : Call) (s t : SafetyStore)
      → Advances c s t
      → SnapshotOk s.snapshot s.generation_id
      → Sound s t
  Advances-Sound c s t a h = record {
    generation = ap (λ x. x.generation_id) a.now;
    snapshot =
        subst (λ x. SnapshotOk x.snapshot x.generation_id) (sym a.now)
          (
            a.follows.follows.valid,
            a.follows.follows.generation ∙ (subst (λ x. SnapshotOk x s.generation_id) a.was h).1,
          );
    revision = simp (a.now, a.was, a.follows.follows.revision) (omega arith);
  }

  -- From a store with a snapshot that can be built and is of its generation, or with none, any calls
  -- lead, whatever happens to their writes, to such a store of the same generation, whose revision has
  -- not gone back.
  pub calls_keep_store-Sound :
      (s t : SafetyStore)
      → SnapshotOk s.snapshot s.generation_id
      → Reach codec same_history s t
      → Sound s t
  calls_keep_store-Sound s t h here = record {
    generation = refl;
    snapshot = h;
    revision = omega arith;
  }
  calls_keep_store-Sound s t h (then_call {t = u} c w r) =
      let k = calls_keep_store-Sound s u h r in
      elim (store_after-Advances codec same_history c w u) [
        | inl same ↦ subst (Sound s) (sym same) k
        | inr a ↦
            let n = Advances-Sound c u t a k.snapshot in
            record {
              generation = n.generation ∙ k.generation;
              snapshot = n.snapshot;
              revision = omega (arith, k.revision, n.revision);
            }
      ]

  -- No call marks a clean shutdown, and no run begins under the id that was marked.
  abbrev pub Unmarked : Option String → {s t : SafetyStore} → Reach codec same_history s t → Type 0
  Unmarked id here = Unit
  Unmarked id (then_call c w r) = LeavesUnmarked id c × Unmarked id r

  -- A run that no call marked as shut down is not taken for a clean one: where the active run was not
  -- the one marked last, it is not after any calls that mark none and begin no run under the id marked
  -- last, and that id is still the same.
  pub crash_is_detected :
      (s t : SafetyStore) (r : Reach codec same_history s t)
      → looks_clean s.snapshot ≡ false
      → Unmarked (last_clean s.snapshot) r
      → Unclean (last_clean s.snapshot) t
  crash_is_detected s t here h u = (refl, h)
  crash_is_detected s t (then_call {t = v} c w r) h u =
      let k = crash_is_detected s v r h u.1 in
      elim (store_after-Advances codec same_history c w v) [
        | inl same ↦ subst (Unclean (last_clean s.snapshot)) (sym same) k
        | inr a ↦ Advances-Unclean c v t (last_clean s.snapshot) a u.0 k
      ]
