-- ===== src/Runtime/Recheck.antt =====
-- runtime.py: the recheck of an authorization right after the dispatch, and its end.
use moisture_loop.Base.{
  ◌≡◌, ◌∙◌, sym, ap, subst, Bool, true, false, none, some, String, Result, ok, raised, inl, inr,
  Bool-cases, Returns, arith,
}
use moisture_loop.Records.Dict.{lookup, insert}
use moisture_loop.Records.Identity.{AppliedConfigurationShadow}
use moisture_loop.Runtime.{
  Controller, Runtime, FinalOnAuthorizationToken, FinalOnAuthorizationResult, authorized,
}
use moisture_loop.Runtime.Checks.{
  fresh_zone, snapshots_match, generation_current, admission_clear, lifecycle_active, canonical_ok,
}
use moisture_loop.Runtime.Gate.{
  checks, evaluate_on_authority, recheck_on_authorization, finish_on_authorization, make_token,
  authorize_on,
}
use moisture_loop.Runtime.Authority.{
  Authority, Dispatchable, Issued, authorization_is_exact, conclude-granted, Authority-checks,
  twice,
}
use moisture_loop.Runtime.Dispatch.{registered-guards, registered-token, found, finish-registered}

module _ (same_shadow : AppliedConfigurationShadow → AppliedConfigurationShadow → Bool) where
  -- What is registered under way changes nothing of the authority.
  registered-Authority :
      (w : Runtime) (c : Controller) (s a : String) (t : FinalOnAuthorizationToken)
      → Authority same_shadow w c s
      → Authority same_shadow (record w { on_authorizations = insert a t w.on_authorizations }) c s
  unfolding fresh_zone snapshots_match generation_current admission_clear lifecycle_active
      canonical_ok
  registered-Authority w c s a t h = record {
    shadow = h.shadow;
    applied = h.applied;
    snapshot_built = h.snapshot_built;
    subentry_exists = h.subentry_exists;
    fingerprint = h.fingerprint;
    snapshots = h.snapshots;
    generation = h.generation;
    admission = h.admission;
    lifecycle = h.lifecycle;
    commandable = h.commandable;
    ownership = h.ownership;
    intent = h.intent;
    slot = h.slot;
    no_blocker = h.no_blocker;
  }

  -- After an authorization: a recheck in the same surroundings confirms it with the same result, no
  -- second one is issued for the attempt wherever the same authorizations are under way, and its end
  -- leaves the runtime as it was before it.
  pub record Lives (w after : Runtime) (c : Controller) (attempt_id : String)
      (r : FinalOnAuthorizationResult) : Type 0 where
    pub token : FinalOnAuthorizationToken
    pub given : r.token ≡ some token
    pub confirmed : recheck_on_authorization same_shadow after c token ≡ ok r
    pub single :
        (v : Runtime) (d : Controller) (session_id : String)
        → v.on_authorizations ≡ after.on_authorizations
        → Returns (λ p. authorized p.1 ≡ false) (authorize_on same_shadow v d session_id attempt_id)
    pub ended : finish_on_authorization after token ≡ w

  -- An attempt with an authorization under way gets no second one.
  refused_again :
      (v : Runtime) (d : Controller) (s a : String) (t : FinalOnAuthorizationToken)
      → lookup a v.on_authorizations ≡ some t
      → Returns (λ p. authorized p.1 ≡ false) (authorize_on same_shadow v d s a)
  refused_again v d s a t e =
      go (authorize_on same_shadow v d s a) (authorization_is_exact same_shadow v d s a)
    where
      go :
          (o : Result (Runtime × FinalOnAuthorizationResult))
          → Returns
              (λ p.
                (authorized p.1 ≡ true → Issued same_shadow v p.0 d s a p.1)
                × ((authorized p.1 ≡ false → p.0 ≡ v)
                    × (Dispatchable same_shadow v d s
                        → lookup a v.on_authorizations ≡ none
                        → authorized p.1 ≡ true)))
              o
          → Returns (λ p. authorized p.1 ≡ false) o
      go (ok p) h = elim (Bool-cases (authorized p.1)) [
        | inl granted_ ↦ ground (arith, e, (h.0 granted_).unused)
        | inr denied ↦ denied
      ]
      go (raised x) h = h

  Issued-Lives :
      (w after : Runtime) (c : Controller) (s a : String) (r : FinalOnAuthorizationResult)
      → Issued same_shadow w after c s a r
      → Lives w after c a r
  unfolding recheck_on_authorization evaluate_on_authority
  Issued-Lives w after c s a r i =
      let h = i.dispatchable in
      let x = h.authority.shadow in
      let t = make_token c s a x in
      record {
        token = t;
        given = ap (λ r. r.token) i.bound;
        confirmed =
            ap (λ v. recheck_on_authorization same_shadow v c t) i.under_way
            ∙ conclude-granted same_shadow
                (checks same_shadow
                  (record w { on_authorizations = insert a t w.on_authorizations }) c s a (some t)
                  false)
                (λ _. t) x
                (Authority-checks same_shadow
                  (record w { on_authorizations = insert a t w.on_authorizations }) c s a (some t)
                  false (registered-Authority w c s a t h.authority)
                  (
                    twice same_shadow (registered-guards w c s a t h.guards),
                    (twice same_shadow (registered-token w c s a h.authority.applied), tt),
                  ))
                h.authority.applied
            ∙ ap ok (sym i.bound);
        single = λ v d q e. refused_again v d q a t (
            ap (lookup a) (e ∙ ap (λ v. v.on_authorizations) i.under_way)
            ∙ found a t w.on_authorizations);
        ended = ap (λ v. finish_on_authorization v t) i.under_way ∙ finish-registered w t i.unused;
      }

  -- Where the final gate authorizes an ON command, a recheck in the same surroundings confirms the
  -- authorization with the same result, no second one is issued for the attempt, whatever else has
  -- changed while the same authorizations are under way, and finishing it leaves the runtime as it was
  -- before the authorization.
  pub authorization_is_single_use :
      (w after : Runtime) (c : Controller) (session_id attempt_id : String)
      (r : FinalOnAuthorizationResult)
      → authorize_on same_shadow w c session_id attempt_id ≡ ok (after, r)
      → authorized r ≡ true
      → Lives w after c attempt_id r
  authorization_is_single_use w after c s a r e h =
      Issued-Lives w after c s a r
        ((subst (Returns _) e (authorization_is_exact same_shadow w c s a)).0 h)
