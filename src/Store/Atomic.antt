-- ===== src/Store/Atomic.antt =====
-- storage.py: `_save_and_verify_locked`, and the transactions that are built on it.
use moisture_loop.Base.{
  ◌≡◌, ◌⊎◌, inl, inr, refl, true, false, none, some, Error, Result, ok, raised, store_not_loaded,
  arith, Option-cases, Result-cases,
}
use moisture_loop.Records.Data.{StoreData}
use moisture_loop.Store.{
  Codec, Write, Loaded, load_raises, no_data, raw, SafetyStore, Reply, Plan, keep, write, verified,
  headers_match, check_loaded, check_read_back, verify, save_and_verify, run,
}

module _ {P : Type 0} (codec : Codec P) where
  -- The write went through, and what a fresh store loads has the headers and the payload written.
  pub record Confirmed (w : Write P) (next : StoreData) : Type 0 where
    pub payload : P
    pub stored : P
    pub loaded : StoreData
    pub again : P
    pub written : codec.store_data_to_dict next ≡ ok payload
    pub saved : w.save_raises ≡ false
    pub read : w.read_back ≡ raw stored
    pub decoded : codec.store_data_from_dict stored ≡ some loaded
    pub headers : headers_match loaded next ≡ true
    pub encoded : codec.store_data_to_dict loaded ≡ ok again
    pub same : codec.same_payload again payload ≡ true

  Confirmed-verify :
      (w : Write P) (next : StoreData) → Confirmed w next → verify codec w next ≡ ok verified
  unfolding verify
  Confirmed-verify w next c =
      simp (c.written, c.saved, c.read, c.decoded, c.headers, c.encoded, c.same) refl

  encoded_payload :
      (w : Write P) (next : StoreData)
      → verify codec w next ≡ ok verified
      → (p : P) × ((codec.store_data_to_dict next ≡ ok p)
          × ((w.save_raises ≡ false) × (check_read_back codec next p w.read_back ≡ ok verified)))
  unfolding verify
  encoded_payload w next h = elim (Result-cases (codec.store_data_to_dict next)) [
    | inl (p, e) ↦ (p, ground (arith, e, h))
    | inr (x, e) ↦ ground (arith, e, h)
  ]

  loaded_payload :
      (next : StoreData) (p : P) (read : Loaded P)
      → check_read_back codec next p read ≡ ok verified
      → (q : P) × ((d : StoreData) × ((read ≡ raw q)
            × ((codec.store_data_from_dict q ≡ some d)
                × (check_loaded codec next p d ≡ ok verified))))
  unfolding check_read_back
  loaded_payload next p load_raises h = ground arith
  loaded_payload next p no_data h = ground arith
  loaded_payload next p (raw q) h = elim (Option-cases (codec.store_data_from_dict q)) [
    | inl e ↦ ground (arith, e, h)
    | inr (d, e) ↦ (q, (d, (refl, (e, ground (arith, e, h)))))
  ]

  same_again :
      (next : StoreData) (p : P) (d : StoreData)
      → check_loaded codec next p d ≡ ok verified
      → (again : P) × ((headers_match d next ≡ true)
          × ((codec.store_data_to_dict d ≡ ok again) × (codec.same_payload again p ≡ true)))
  unfolding check_loaded
  same_again next p d h = elim (Result-cases (codec.store_data_to_dict d)) [
    | inl (a, e) ↦ (a, ground (arith, e, h))
    | inr (x, e) ↦ ground (arith, e, h)
  ]

  verify-Confirmed :
      (w : Write P) (next : StoreData) → verify codec w next ≡ ok verified → Confirmed w next
  verify-Confirmed w next h =
      let (p, (written, (saved, read_back))) = encoded_payload w next h in
      let (q, (d, (read, (decoded, rest)))) = loaded_payload next p w.read_back read_back in
      let (again, (headers, (encoded, same))) = same_again next p d rest in
      record {
        payload = p;
        stored = q;
        loaded = d;
        again = again;
        written = written;
        saved = saved;
        read = read;
        decoded = decoded;
        headers = headers;
        encoded = encoded;
        same = same;
      }

  -- The operation adopted the snapshot that it planned, and its write is confirmed.
  pub record Adopted {A : Type 0} (plan : StoreData → Result (Plan A)) (w : Write P)
      (s : SafetyStore) (r : Reply A) : Type 0 where
    pub previous : StoreData
    pub next : StoreData
    pub value : A
    pub was : s.snapshot ≡ some previous
    pub planned : plan previous ≡ ok (write next value)
    pub adopted : r.store ≡ record s { snapshot = some next }
    pub returned : r.result ≡ ok value
    pub confirmed : Confirmed w next

  -- Why an operation has left the store alone, and what it answers.
  pub data Unapplied {A : Type 0} (plan : StoreData → Result (Plan A)) (w : Write P)
      (s : SafetyStore) (result : Result A) : Type 0 where
    not_loaded : s.snapshot ≡ none → result ≡ raised store_not_loaded → Unapplied plan w s result
    plan_raised :
        (previous : StoreData) (e : Error)
        → s.snapshot ≡ some previous
        → plan previous ≡ raised e
        → result ≡ raised e
        → Unapplied plan w s result
    kept :
        (previous : StoreData) (value : A)
        → s.snapshot ≡ some previous
        → plan previous ≡ ok (keep value)
        → result ≡ ok value
        → Unapplied plan w s result
    not_confirmed :
        (previous next : StoreData) (value : A) (e : Error)
        → s.snapshot ≡ some previous
        → plan previous ≡ ok (write next value)
        → ¬ Confirmed w next
        → result ≡ raised e
        → Unapplied plan w s result

  raised-NotConfirmed :
      (w : Write P) (next : StoreData) (e : Error)
      → verify codec w next ≡ raised e
      → ¬ Confirmed w next
  raised-NotConfirmed w next e v c = ground (arith, v, Confirmed-verify w next c)

  -- An operation adopts the snapshot that it planned, returns, and has a confirmed write; or it changes
  -- nothing, and then it raises because no snapshot is loaded, because its plan raises, or because the
  -- write of its plan is not confirmed, or it returns what a plan that writes nothing answers.
  pub run_is_atomic :
      {A : Type 0} (plan : StoreData → Result (Plan A)) (w : Write P) (s : SafetyStore)
      → (((run codec plan w s).store ≡ s) × Unapplied plan w s (run codec plan w s).result)
        ⊎ Adopted plan w s (run codec plan w s)
  unfolding run save_and_verify
  run_is_atomic plan w s = elim (Option-cases s.snapshot) [
    | inl empty ↦ inl (ground (arith, empty), Unapplied.not_loaded empty (ground (arith, empty)))
    | inr (previous, was) ↦ elim (Result-cases (plan previous)) [
      | inr (x, e) ↦
          inl (
            ground (arith, was, e),
            Unapplied.plan_raised previous x was e (ground (arith, was, e)),
          )
      | inl (keep a, e) ↦
          inl (ground (arith, was, e), Unapplied.kept previous a was e (ground (arith, was, e)))
      | inl (write next a, e) ↦ elim (Result-cases (verify codec w next)) [
        | inr (x, v) ↦ inl (
          ground (arith, was, e, v),
          Unapplied.not_confirmed previous next a x was e (raised-NotConfirmed w next x v)
              (ground (arith, was, e, v)),
        )
        | inl (verified, v) ↦ inr (record {
          previous = previous;
          next = next;
          value = a;
          was = was;
          planned = e;
          adopted = ground (arith, was, e, v);
          returned = ground (arith, was, e, v);
          confirmed = verify-Confirmed w next v;
        })
      ]
    ]
  ]
