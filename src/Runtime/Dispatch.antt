-- ===== src/Runtime/Dispatch.antt =====
-- runtime.py: what the dispatch changes of the guards, and how an authorization is registered.
use text.Mathlib.Text.{◌==◌ as str_eq}
use text.Mathlib.TextEquality.{eq_iff}
use moisture_loop.Base.{
  ◌≡◌, ◌∙◌, refl, ap, true, false, not, none, some, [], ◌∷◌, String, is_empty, inl, inr,
  Option-cases, arith, if◌then◌else◌,
}
use moisture_loop.Zone.{Zone}
use moisture_loop.Model.Session.{SessionContext}
use moisture_loop.Zone.Gate.{
  GateContext, GateFailure, fail_if, in_watering, final_on_guard_failures, session_gate_failures,
  auto_gate_failures, manual_gate_failures,
}
use moisture_loop.Records.Dict.{Dict, lookup, insert, erase, lookup-insert}
use moisture_loop.Records.Identity.{AppliedConfigurationShadow}
use moisture_loop.Runtime.{
  Controller, Runtime, FinalOnAuthorizationToken, current_local_day_runtime_s,
}
use moisture_loop.Runtime.Checks.{authorization_eq, token_matches, guards_pass, history_in}
use moisture_loop.Runtime.Gate.{finish_on_authorization, finish_with, make_token}

abbrev after_dispatch : GateContext → GateContext
after_dispatch g = record g { pre_dispatch = false }

auto_after_dispatch :
    (z : Zone) (g : GateContext) (s : SessionContext)
    → auto_gate_failures z (after_dispatch g) s ≡ auto_gate_failures z g s
unfolding auto_gate_failures
auto_after_dispatch z g s = refl

manual_after_dispatch :
    (g : GateContext) (s : SessionContext)
    → manual_gate_failures (after_dispatch g) s ≡ manual_gate_failures g s
unfolding manual_gate_failures
manual_after_dispatch g s = refl

session_after_dispatch :
    (z : Zone) (g : GateContext) (s : SessionContext)
    → is_empty (session_gate_failures z g s) ≡ true
    → is_empty (session_gate_failures z (after_dispatch g) s) ≡ true
unfolding session_gate_failures
session_after_dispatch z g s h =
    ground (arith, h, auto_after_dispatch z g s, manual_after_dispatch g s)

-- The guards of a zone with a session, and of one with none.
guards_of_session :
    (z : Zone) (g : GateContext) (s : String) (x : SessionContext)
    → z.session ≡ some x
    → final_on_guard_failures z g s
      ≡ fail_if (not (in_watering z.state)) GateFailure.state_not_watering (
          if str_eq x.session_id s
          then session_gate_failures z g x
          else GateFailure.session_mismatch ∷ [])
unfolding final_on_guard_failures
guards_of_session z g s x e = simp e refl

guards_of_none :
    (z : Zone) (g : GateContext) (s : String)
    → z.session ≡ none
    → is_empty (final_on_guard_failures z g s) ≡ false
unfolding final_on_guard_failures
guards_of_none z g s e = simp e (ground arith)

-- The guards after the dispatch are no more than before.
guards_after_dispatch :
    (z : Zone) (g : GateContext) (s : String)
    → is_empty (final_on_guard_failures z g s) ≡ true
    → is_empty (final_on_guard_failures z (after_dispatch g) s) ≡ true
guards_after_dispatch z g s h = elim (Option-cases z.session) [
  | inl e ↦ ground (arith, h, guards_of_none z g s e)
  | inr (x, e) ↦ ground (
    arith,
    h,
    guards_of_session z g s x e,
    guards_of_session z (after_dispatch g) s x e,
    session_after_dispatch z g x,
  )
]

authorization_eq_refl : (t : FinalOnAuthorizationToken) → authorization_eq t t ≡ true
unfolding authorization_eq
authorization_eq_refl t = ground (
  arith,
  eq_iff t.subentry_id t.subentry_id,
  eq_iff t.safety_record_id t.safety_record_id,
  eq_iff t.zone_history_id t.zone_history_id,
  eq_iff t.session_id t.session_id,
  eq_iff t.command_attempt_id t.command_attempt_id,
  eq_iff t.zone_config_fingerprint t.zone_config_fingerprint,
  eq_iff t.entry_snapshot_fingerprint t.entry_snapshot_fingerprint,
)

pub registered-guards :
    (w : Runtime) (c : Controller) (s a : String) (t : FinalOnAuthorizationToken)
    → guards_pass w c s true ≡ true
    → guards_pass (record w { on_authorizations = insert a t w.on_authorizations }) c s false ≡ true
unfolding guards_pass current_local_day_runtime_s
registered-guards w c s a t h =
    guards_after_dispatch c.zone
      (record c.gate {
        authoritative_daily_runtime_s = current_local_day_runtime_s w (history_in w c);
        pre_dispatch = true;
      })
      s h

pub registered-token :
    (w : Runtime) (c : Controller) (s a : String) {x : AppliedConfigurationShadow}
    → c.applied_config ≡ some x
    → let t = make_token c s a x in
      token_matches (record w { on_authorizations = insert a t w.on_authorizations }) c s a t ≡ true
unfolding token_matches
registered-token w c s a {x} e =
    let t = make_token c s a x in
    ground (
      arith,
      e,
      lookup-insert a a t w.on_authorizations,
      authorization_eq_refl t,
      eq_iff a a,
      eq_iff s s,
      eq_iff c.zone_id c.zone_id,
      eq_iff c.safety_record_id c.safety_record_id,
      eq_iff c.zone_history_id c.zone_history_id,
      eq_iff x.config_fingerprint x.config_fingerprint,
      eq_iff x.entry_snapshot_fingerprint x.entry_snapshot_fingerprint,
    )

erase-insert :
    {V : Type 0} (k : String) (v : V) (d : Dict V) → lookup k d ≡ none → erase k (insert k v d) ≡ d
unfolding lookup erase insert
erase-insert k v [] h = ground (arith, eq_iff k k)
erase-insert k v ((j, x) ∷ d) h = ground (arith, h, eq_iff j k, eq_iff k k, erase-insert k v d)

pub found : {V : Type 0} (k : String) (v : V) (d : Dict V) → lookup k (insert k v d) ≡ some v
found k v d = ground (arith, lookup-insert k k v d, eq_iff k k)

pub finish-registered :
    (w : Runtime) (t : FinalOnAuthorizationToken)
    → lookup t.command_attempt_id w.on_authorizations ≡ none
    → finish_on_authorization
        (record w { on_authorizations = insert t.command_attempt_id t w.on_authorizations })
        t
      ≡ w
unfolding finish_on_authorization
finish-registered w t h =
    let k = t.command_attempt_id in
    let after = record w { on_authorizations = insert k t w.on_authorizations } in
    ap (finish_with after t) (found k t w.on_authorizations)
    ∙ ap
        (λ b.
          if b
          then record w { on_authorizations = erase k (insert k t w.on_authorizations) }
          else after)
        (authorization_eq_refl t)
    ∙ ap (λ d. record w { on_authorizations = d }) (erase-insert k t w.on_authorizations h)
