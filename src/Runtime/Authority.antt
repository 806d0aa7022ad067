-- ===== src/Runtime/Authority.antt =====
-- runtime.py: what the final authority over an ON command demands, and its tokens.
use text.Mathlib.Text.{◌==◌ as str_eq}
use moisture_loop.Base.{
  ◌≡◌, inl, inr, refl, ap, Bool, true, false, not, Option, none, some, List, [], ◌∷◌, String, any,
  is_some, is_empty, ok, Returns, Bool-cases, Option-cases, arith,
}
use moisture_loop.Records.Dict.{lookup, insert}
use moisture_loop.Records.Identity.{AppliedConfigurationShadow}
use moisture_loop.Records.History.{names}
use moisture_loop.Runtime.{
  Predicate, Controller, Runtime, command_authorization_open, FinalOnAuthorizationToken,
  FinalOnAuthorizationResult, authorized,
}
use moisture_loop.Runtime.Checks.{
  fresh_zone, snapshots_match, generation_current, admission_clear, lifecycle_active, canonical_ok,
  hazard_intent, proven_off, guards_pass, both, holds, history_in,
}
use moisture_loop.Runtime.Gate.{
  Check, of_moment, actuator_check, token_check, checks, evaluate_on_authority, authorize_on,
  make_token, granted, denial, used_up, register_with, register, register_authorized, conclude,
}

is_empty-eq : {A : Type 0} (xs : List A) → is_empty xs ≡ true → xs ≡ []
is_empty-eq [] h = refl
is_empty-eq (x ∷ xs) h = ground (arith, h)

-- Where a list of checks has no failure, none of them has.
abbrev pub AllPass : List Check → Type 0
AllPass [] = Unit
AllPass (c ∷ cs) = (not c.failed ≡ true) × AllPass cs

any-AllPass : (cs : List Check) → any (λ k. k.failed) cs ≡ false → AllPass cs
any-AllPass [] h = tt
any-AllPass (c ∷ cs) h = (ground (arith, h), any-AllPass cs (ground (arith, h)))

AllPass-any : (cs : List Check) → AllPass cs → any (λ k. k.failed) cs ≡ false
AllPass-any [] h = refl
AllPass-any (c ∷ cs) h = ground (arith, h.0, AllPass-any cs h.1)

not-not : (b : Bool) → not (not b) ≡ true → b ≡ true
not-not true h = refl
not-not false h = h

both-some :
    {A B : Type 0} (p : A → B → Bool) (a : Option A) (b : Option B)
    → both p a b ≡ true
    → (x : B) × (b ≡ some x)
both-some p (some a) (some b) h = (b, refl)
both-some p none b h = ground (arith, h)
both-some p (some a) none h = ground (arith, h)

module _ (same_shadow : AppliedConfigurationShadow → AppliedConfigurationShadow → Bool) where
  -- Everything that the evaluation asks before and after the dispatch.
  pub record Authority (w : Runtime) (c : Controller) (session_id : String) : Type 0 where
    pub shadow : AppliedConfigurationShadow
    pub applied : c.applied_config ≡ some shadow
    pub snapshot_built : is_some w.fresh_snapshot ≡ true
    pub subentry_exists : is_some (fresh_zone w c) ≡ true
    pub fingerprint :
        both
          (λ z a. str_eq z.config_fingerprint a.config_fingerprint)
          (fresh_zone w c)
          c.applied_config
        ≡ true
    pub snapshots : snapshots_match w c ≡ true
    pub generation : generation_current w c ≡ true
    pub admission : admission_clear w ≡ true
    pub lifecycle : lifecycle_active w c ≡ true
    pub commandable : command_authorization_open c ≡ true
    pub ownership : canonical_ok same_shadow w c ≡ true
    pub intent : holds (hazard_intent c session_id) (history_in w c) ≡ true
    pub slot : names w.slots.owner c.zone_id ≡ true
    pub no_blocker : w.slots.blockers ≡ []

  checks-Authority :
      (w : Runtime) (c : Controller) (s a : String) (t : Option FinalOnAuthorizationToken)
      (pre : Bool)
      → AllPass (checks same_shadow w c s a t pre)
      → Authority w c s
  unfolding checks
  checks-Authority w c s a t pre h0 =
      let (k0, h1) = h0 in
      let (k1, h2) = h1 in
      let (k2, h3) = h2 in
      let (k3, h4) = h3 in
      let (k4, h5) = h4 in
      let (k5, h6) = h5 in
      let (k6, h7) = h6 in
      let (k7, h8) = h7 in
      let (k8, h9) = h8 in
      let (k9, h10) = h9 in
      let (k10, h11) = h10 in
      let (k11, h12) = h11 in
      let (shadow, applied) = both-some _ (fresh_zone w c) c.applied_config (not-not _ k2) in
      record {
        shadow = shadow;
        applied = applied;
        snapshot_built = not-not _ k0;
        subentry_exists = not-not _ k1;
        fingerprint = not-not _ k2;
        snapshots = not-not _ k3;
        generation = not-not _ k4;
        admission = not-not _ k5;
        lifecycle = not-not _ k6;
        commandable = not-not _ k7;
        ownership = not-not _ k8;
        intent = not-not _ k9;
        slot = not-not _ k10;
        no_blocker = is_empty-eq w.slots.blockers (not-not _ k11);
      }

  -- Right before the dispatch, the guards and the actuator have been checked as well.
  pub record Dispatchable (w : Runtime) (c : Controller) (session_id : String) : Type 0 where
    pub authority : Authority w c session_id
    pub guards : guards_pass w c session_id true ≡ true
    pub off : proven_off c ≡ true

  checks-Dispatchable :
      (w : Runtime) (c : Controller) (s a : String)
      → AllPass (checks same_shadow w c s a none true)
      → Dispatchable w c s
  unfolding checks
  checks-Dispatchable w c s a h = record {
    authority = checks-Authority w c s a none true h;
    guards = not-not _ h.1.1.1.1.1.1.1.1.1.1.1.1.0;
    off = not-not _ h.1.1.1.1.1.1.1.1.1.1.1.1.1.0;
  }

  pub twice : {b : Bool} → b ≡ true → not (not b) ≡ true
  twice h = ap (λ b. not (not b)) h

  pub Authority-checks :
      (w : Runtime) (c : Controller) (s a : String) (t : Option FinalOnAuthorizationToken)
      (pre : Bool)
      → Authority w c s
      → AllPass (
          of_moment Predicate.ordinary_runtime_guards (not (guards_pass w c s pre))
          ∷ actuator_check c pre (token_check w c s a t))
      → AllPass (checks same_shadow w c s a t pre)
  unfolding checks
  Authority-checks w c s a t pre h rest = (
    twice h.snapshot_built,
    (
      twice h.subentry_exists,
      (
        twice h.fingerprint,
        (
          twice h.snapshots,
          (
            twice h.generation,
            (
              twice h.admission,
              (
                twice h.lifecycle,
                (
                  twice h.commandable,
                  (
                    twice h.ownership,
                    (twice h.intent, (twice h.slot, (twice (ap is_empty h.no_blocker), rest))),
                  ),
                ),
              ),
            ),
          ),
        ),
      ),
    ),
  )

  Dispatchable-checks :
      (w : Runtime) (c : Controller) (s a : String)
      → Dispatchable w c s
      → AllPass (checks same_shadow w c s a none true)
  Dispatchable-checks w c s a d =
      Authority-checks w c s a none true d.authority (twice d.guards, (twice d.off, tt))

  pub conclude-granted :
      (cs : List Check) (f : AppliedConfigurationShadow → FinalOnAuthorizationToken)
      {o : Option AppliedConfigurationShadow} (x : AppliedConfigurationShadow)
      → AllPass cs
      → o ≡ some x
      → conclude cs o f ≡ ok (granted (f x))
  unfolding conclude
  conclude-granted cs f x h e = simp (AllPass-any cs h, e) refl

  conclude-refused :
      (cs : List Check) (f : AppliedConfigurationShadow → FinalOnAuthorizationToken)
      (o : Option AppliedConfigurationShadow)
      → any (λ k. k.failed) cs ≡ true
      → conclude cs o f ≡ ok (denial cs)
  unfolding conclude
  conclude-refused cs f o h = simp h refl

  register-new :
      (w : Runtime) (a : String) (r : FinalOnAuthorizationResult) (t : FinalOnAuthorizationToken)
      → lookup a w.on_authorizations ≡ none
      → register w a r t ≡ (record w { on_authorizations = insert a t w.on_authorizations }, r)
  unfolding register
  register-new w a r t e = ap (register_with w a r t) e

  register-used :
      (w : Runtime) (a : String) (r : FinalOnAuthorizationResult) (t : FinalOnAuthorizationToken)
      {u : FinalOnAuthorizationToken}
      → lookup a w.on_authorizations ≡ some u
      → register w a r t ≡ (w, used_up r)
  unfolding register
  register-used w a r t e = ap (register_with w a r t) e

  -- An authorization was issued: everything has been checked, the attempt had none, and the token is
  -- bound to the controller, the session, the attempt and the configuration, and is under way.
  pub record Issued (w after : Runtime) (c : Controller) (session_id attempt_id : String)
      (r : FinalOnAuthorizationResult) : Type 0 where
    pub dispatchable : Dispatchable w c session_id
    pub unused : lookup attempt_id w.on_authorizations ≡ none
    pub bound : r ≡ granted (make_token c session_id attempt_id dispatchable.authority.shadow)
    pub under_way : after ≡ record w {
      on_authorizations =
          insert attempt_id
            (make_token c session_id attempt_id dispatchable.authority.shadow)
            w.on_authorizations;
    }

  -- The final gate raises nothing. It authorizes an ON command only if it issues the authorization:
  -- snapshots, generation, admission, lifecycle, ownership and persisted intent match, the slot is the
  -- zone's, no blocker stands, the guards of the controller pass, the actuator is proven OFF, and the
  -- attempt has no authorization yet; otherwise nothing changes. Where all this holds, it authorizes.
  pub authorization_is_exact :
      (w : Runtime) (c : Controller) (session_id attempt_id : String)
      → Returns
          (λ p.
            (authorized p.1 ≡ true → Issued w p.0 c session_id attempt_id p.1)
            × ((authorized p.1 ≡ false → p.0 ≡ w)
                × (Dispatchable w c session_id
                    → lookup attempt_id w.on_authorizations ≡ none
                    → authorized p.1 ≡ true)))
          (authorize_on same_shadow w c session_id attempt_id)
  unfolding authorize_on evaluate_on_authority register_authorized authorized
  authorization_is_exact w c s a =
      let cs = checks same_shadow w c s a none true in
      elim (Bool-cases (any (λ k. k.failed) cs)) [
        | inl fails ↦ rw (conclude-refused cs (make_token c s a) c.applied_config fails) (
          (λ e. ground (arith, e)),
          (
            (λ e. refl),
            (λ d u. ground (arith, fails, AllPass-any cs (Dispatchable-checks w c s a d))),
          ),
        )
        | inr passes ↦
            let h = checks-Dispatchable w c s a (any-AllPass cs passes) in
            rw
              (conclude-granted cs (make_token c s a) h.authority.shadow (any-AllPass cs passes)
                h.authority.applied)
              (elim (Option-cases (lookup a w.on_authorizations)) [
                | inl unused ↦ rw (register-new w a _ _ unused) (
                  (λ e. record {
                    dispatchable = h;
                    unused = unused;
                    bound = refl;
                    under_way = refl;
                  }),
                  ((λ e. ground (arith, e)), (λ d u. refl)),
                )
                | inr (t, used) ↦
                    rw (register-used w a _ _ used)
                      ((λ e. ground (arith, e)), ((λ e. refl), (λ d u. ground (arith, used, u))))
              ])
      ]
