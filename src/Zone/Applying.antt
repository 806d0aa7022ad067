-- ===== src/Zone/Applying.antt =====
-- zone_controller.py: what the fields and the actions of a decision keep of a zone, whatever error an
-- awaited call raises, and which error leaves the call.
use moisture_loop.Base.{
  ◌≡◌, inl, inr, refl, true, false, Option, none, some, List, [], ◌∷◌, Error,
  store_write_verification, Bool-cases, Option-cases, arith, if◌then◌else◌,
}
use moisture_loop.Model.Enums.{ControllerState}
use moisture_loop.Model.Event.{Action}
use moisture_loop.Model.Decision.{ActuatorAssessment}
use moisture_loop.Zone.{
  Zone, apply_action, persist_failure, is_unverified, error_of, or_else, on_error, apply_actions,
}

-- The first error that the awaited writes of the actions raise.
abbrev pub first_error : (Action → Option Error) → List Action → Option Error
first_error awaited [] = none
first_error awaited (a ∷ actions) = or_else (error_of awaited a) (first_error awaited actions)

-- A failed verification is handled, and any other error escapes.
abbrev pub escaping : Option Error → Option Error
escaping none = none
escaping (some e) = if is_unverified e then none else some e

-- A failed safety write authorizes no watering.
pub record Blocked (z : Zone) : Type 0 where
  pub in_fault : z.state ≡ ControllerState.fault
  pub failed : z.persist_failed ≡ true
  pub no_request : z.on_requested ≡ false

module _ (P : Zone → Type 0) (acts : (z : Zone) (a : Action) → P z → P (apply_action z a))
    (fails : (z : Zone) (assessment : ActuatorAssessment) → P (persist_failure z assessment))
    (assessment : ActuatorAssessment) (awaited : Action → Option Error) where
  on_error-Keeps : (z : Zone) (e : Error) → P z → P (on_error z assessment e).zone
  on_error-Keeps z e h = elim (Bool-cases (is_unverified e)) [
    | inl u ↦ rw u (fails z assessment)
    | inr u ↦ rw u h
  ]

  pub actions-Keeps :
      (z : Zone) (actions : List Action) → P z → P (apply_actions z assessment awaited actions).zone
  unfolding apply_actions
  actions-Keeps z [] h = h
  actions-Keeps z (a ∷ actions) h = elim (Option-cases (error_of awaited a)) [
    | inl e ↦ rw e (actions-Keeps (apply_action z a) actions (acts z a h))
    | inr (x, e) ↦ rw e (on_error-Keeps z x h)
  ]

module _ (assessment : ActuatorAssessment) (awaited : Action → Option Error) where
  on_error-escaping : (z : Zone) (e : Error) → (on_error z assessment e).error ≡ escaping (some e)
  on_error-escaping z e = elim (Bool-cases (is_unverified e)) [
    | inl u ↦ rw u refl
    | inr u ↦ rw u refl
  ]

  pub apply_actions-error :
      (z : Zone) (actions : List Action)
      → (apply_actions z assessment awaited actions).error ≡ escaping (first_error awaited actions)
  unfolding apply_actions
  apply_actions-error z [] = refl
  apply_actions-error z (a ∷ actions) = elim (Option-cases (error_of awaited a)) [
    | inl e ↦ rw e (apply_actions-error (apply_action z a) actions)
    | inr (x, e) ↦ rw e (on_error-escaping z x)
  ]

  on_error-Blocked :
      (z : Zone) (e : Error) → e ≡ store_write_verification → Blocked (on_error z assessment e).zone
  unfolding persist_failure
  on_error-Blocked z e h = rw h (record { in_fault = refl; failed = refl; no_request = refl })

  pub actions-Blocked :
      (z : Zone) (actions : List Action)
      → first_error awaited actions ≡ some store_write_verification
      → Blocked (apply_actions z assessment awaited actions).zone
  unfolding apply_actions
  actions-Blocked z [] h = ground arith
  actions-Blocked z (a ∷ actions) h = elim (Option-cases (error_of awaited a)) [
    | inl e ↦ rw e (actions-Blocked (apply_action z a) actions (ground (arith, e, h)))
    | inr (x, e) ↦ rw e (on_error-Blocked z x (ground (arith, e, h)))
  ]
