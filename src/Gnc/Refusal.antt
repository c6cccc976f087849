-- ===== src/Gnc/Refusal.antt =====
-- crates/themql-gnc/src/lib.rs: when the controllers give a command.
use the_mql.Base.{
  true, false, if◌then◌else◌, length, Result, ok, err, ◌≡◌, ◌↔◌, inl, inr, refl, arith, Bool-cases,
}
use the_mql.Base.Floats.{Floats}
use the_mql.Gnc.{GncState, Setpoint, ActuatorCommand, ControllerKind, pid, lqri, hybrid, GncError}
use the_mql.Gnc.Controllers.{Nalgebra, PidController, LqriController, HybridController, dt_refused}
use the_mql.Gnc.Pid
use the_mql.Gnc.Lqri
use the_mql.Gnc.Hybrid
use the_mql.Gnc.Hybrid.{step_of, resolve_kind}

-- There is a command, with a value for each of the eight actuators.
abbrev pub Commands : {F : Type 0} → Result (GncError F) (ActuatorCommand F) → Type 0
Commands {F} r = (cmd : ActuatorCommand F) × (r ≡ ok cmd) × (length cmd.values ≡ 8)

module _ {F Matrix : Type 0} (floats : Floats F) (algebra : Nalgebra F Matrix) where
  -- The step of time is a positive number, and the norm of the attitude is finite.
  abbrev pub Steppable : GncState F → F → Type 0
  Steppable state dt =
      (floats.is_finite dt ≡ true)
      × (floats.le dt (floats.lit 0 1) ≡ false)
      × (floats.is_finite (algebra.norm state.attitude) ≡ true)

  dt_refused_iff :
      (dt : F)
      → (dt_refused floats dt ≡ false)
        ↔ ((floats.is_finite dt ≡ true) × (floats.le dt (floats.lit 0 1) ≡ false))
  dt_refused_iff dt = ground arith

  guarded_iff :
      {S : Type 0} (state : GncState F) (dt : F) (cmd : ActuatorCommand F) (e e' : GncError F)
      (c c' : S)
      → length cmd.values ≡ 8
      → Commands (
          if floats.is_finite (algebra.norm state.attitude)
          then (if◌then◌else◌ {A = Result (GncError F) (ActuatorCommand F) × S}
              (dt_refused floats dt)
              (err e, c)
              (ok cmd, c')).0
          else err e')
        ↔ Steppable state dt
  guarded_iff state dt cmd e e' c c' eight =
      elim (Bool-cases (floats.is_finite (algebra.norm state.attitude))) [
        | inl n ↦ elim (Bool-cases (dt_refused floats dt)) [
          | inl d ↦
              rw (n, d)
                ((λ h. absurd (cc (h.1))), (λ h. absurd (cc (d, (dt_refused_iff dt).1 (h.0, h.1)))))
          | inr d ↦
              let s = (dt_refused_iff dt).0 d in
              rw (n, d) ((λ _. (s.0, s.1, refl)), (λ _. (cmd, refl, eight)))
        ]
        | inr n ↦ rw n ((λ h. absurd (cc (h.1))), (λ h. absurd (cc (h.2))))
      ]

  pid_step_iff :
      (c : PidController F) (state : GncState F) (setpoint : Setpoint F) (dt : F)
      → Commands (Pid.step floats algebra c state setpoint dt) ↔ Steppable state dt
  unfolding Pid.step
  pid_step_iff c state setpoint dt = guarded_iff state dt _ _ _ _ _ (omega arith)

  lqri_step_iff :
      (c : LqriController F Matrix) (state : GncState F) (setpoint : Setpoint F) (dt : F)
      → Commands (Lqri.step floats algebra c state setpoint dt) ↔ Steppable state dt
  unfolding Lqri.step
  lqri_step_iff c state setpoint dt = guarded_iff state dt _ _ _ _ _ (omega arith)

  step_of_iff :
      (kind : ControllerKind) (c : HybridController F Matrix) (state : GncState F)
      (setpoint : Setpoint F) (dt : F)
      → Commands (step_of floats algebra kind c state setpoint dt) ↔ Steppable state dt
  step_of_iff pid c = pid_step_iff c.pid_controller
  step_of_iff hybrid c = pid_step_iff c.pid_controller
  step_of_iff lqri c = lqri_step_iff c.lqri_controller

  -- Under every policy the hybrid controller gives a command, which has a value for each of the
  -- eight actuators, exactly if the step of time is a positive finite number and the norm of the
  -- attitude is finite; otherwise its step is an error. The setpoint has no part in this: no
  -- setpoint is refused, whatever it holds.
  pub hybrid_step_iff :
      (c : HybridController F Matrix) (state : GncState F) (setpoint : Setpoint F) (dt : F)
      → Commands (Hybrid.step floats algebra c state setpoint dt) ↔ Steppable state dt
  unfolding Hybrid.step
  hybrid_step_iff c state setpoint dt = elim (Bool-cases (dt_refused floats dt)) [
    | inl d ↦
        rw d ((λ h. absurd (cc (h.1))), (λ h. absurd (cc (d, (dt_refused_iff dt).1 (h.0, h.1)))))
    | inr d ↦ rw d (step_of_iff (resolve_kind floats algebra c.policy state) c state setpoint dt)
  ]
