-- ===== src/Store/Faults.antt =====
-- storage.py: how the faults of a controller are divided between the actuator's record and the zone.
use moisture_loop.Base.{
  ◌≡◌, Bool, true, false, ◌&&◌, ◌||◌, Option, none, some, if◌then◌else◌, Result, ok, raised,
  store_write_verification, Returns, arith, ◌>>=◌,
}
use moisture_loop.Model.Enums.{FaultCode}
use moisture_loop.Records.History.{is_zone_fault, is_actuator_fault, fault_eq}
use moisture_loop.Records.Safety.{actuator_scoped}

pub record Partition : Type 0 where
  pub actuator_fault : Option FaultCode
  pub zone_fault : Option FaultCode
  pub secondary_zone_fault : Option FaultCode

abbrev pub only : (FaultCode → Bool) → Option FaultCode → Option FaultCode
only p none = none
only p (some f) = if p f then some f else none

-- The list of the actuator faults, which has one element at most.
unfoldable pub one_actuator_fault : Option FaultCode → Option FaultCode → Result (Option FaultCode)
one_actuator_fault (some f) (some g) = raised store_write_verification
one_actuator_fault (some f) none = ok (some f)
one_actuator_fault none secondary = ok secondary

unfoldable pub partition_controller_faults : Option FaultCode → Option FaultCode → Result Partition
unfolding one_actuator_fault
partition_controller_faults primary secondary =
    one_actuator_fault (only is_actuator_fault primary) (only is_actuator_fault secondary)
    >>= λ actuator. ok (record {
      actuator_fault = actuator;
      zone_fault = only is_zone_fault primary;
      secondary_zone_fault = only is_zone_fault secondary;
    })

abbrev is_fault : Option FaultCode → FaultCode → Bool
is_fault none f = false
is_fault (some g) f = fault_eq f g

-- No fault is lost, and each fault of the controller stands in the place of its scope.
pub record Partitioned (primary secondary : Option FaultCode) (p : Partition) : Type 0 where
  pub sound :
      (f : FaultCode)
      → (is_fault primary f || is_fault secondary f) ≡ (
          is_fault p.actuator_fault f
          || (is_fault p.zone_fault f || is_fault p.secondary_zone_fault f))
  pub of_actuator :
      (f : FaultCode)
      → is_fault p.actuator_fault f
        ≡ ((is_fault primary f || is_fault secondary f) && is_actuator_fault f)
  pub of_zone : (f : FaultCode) → is_fault p.zone_fault f ≡ (is_fault primary f && is_zone_fault f)
  pub of_zone_secondary :
      (f : FaultCode)
      → is_fault p.secondary_zone_fault f ≡ (is_fault secondary f && is_zone_fault f)
  pub scoped : actuator_scoped p.actuator_fault ≡ true

-- Two actuator faults at once.
abbrev pub two_actuator_faults : Option FaultCode → Option FaultCode → Bool
two_actuator_faults (some f) (some g) = is_actuator_fault f && is_actuator_fault g
two_actuator_faults _ _ = false

-- The faults of a controller are divided between the actuator's record and the zone without loss: the
-- record gets exactly the actuator faults among them, and the zone's two places exactly the primary and
-- the secondary fault if it is a zone fault. If both are actuator faults, the call raises.
pub faults_are-Partitioned :
    (primary secondary : Option FaultCode)
    → (two_actuator_faults primary secondary ≡ false
        → Returns (Partitioned primary secondary) (partition_controller_faults primary secondary))
      × (two_actuator_faults primary secondary ≡ true
          → partition_controller_faults primary secondary ≡ raised store_write_verification)
unfolding partition_controller_faults
faults_are-Partitioned none none = ground arith
faults_are-Partitioned (some f) none = ground arith
faults_are-Partitioned none (some g) = ground arith
faults_are-Partitioned (some f) (some g) = ground arith
