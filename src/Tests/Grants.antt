-- ===== src/Tests/Grants.antt =====
-- Theorems on the slot, at a manager that one zone holds and another waits for.
use moisture_loop.Base.{refl}
use moisture_loop.Slots.{SlotManager, init, run_op, Op, Reach}
use moisture_loop.Slots.Invariant.{Inv}
use moisture_loop.Slots.Preserved.{Reach-Inv}
use moisture_loop.Slots.Order.{Granted, lets_go, run_op-Granted}

abbrev opened : SlotManager
opened = run_op init Op.enables

abbrev held : SlotManager
held = run_op opened (Op.requests "bed")

abbrev waiting : SlotManager
waiting = run_op held (Op.requests "lawn")

waiting-Reach : Reach waiting
unfolding init run_op
waiting-Reach =
    Reach.ran (Op.requests "lawn")
      (Reach.ran (Op.requests "bed") (Reach.ran Op.enables Reach.made refl refl) refl refl) refl
      refl

Reach-Inv_example : Inv waiting
Reach-Inv_example = Reach-Inv waiting waiting-Reach

run_op-Granted_example :
    Granted (lets_go (Op.releases "bed") waiting) waiting (run_op waiting (Op.releases "bed"))
run_op-Granted_example =
    run_op-Granted waiting (Op.releases "bed") (Reach-Inv waiting waiting-Reach)
