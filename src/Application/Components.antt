-- ===== src/Application/Components.antt =====
-- src/application/components: the sensors and actuators, their ports, what a sensor's run makes of
-- `rand`, a function from the number of the call, and what an actuator keeps of a command. A double is a value of a type
-- that is given, with the operations that the code uses; where the code puts whole numbers or halves
-- in a double, which holds them exactly, they are integers here.
pub mod Ranges
mod Tests
use communication_in_critica.Prelude.{
  ℕ, zero, suc, ◌+◌, ◌%◌, Bool, true, false, List, [], ◌∷◌, if◌then◌else◌, ℤ, pos, ◌-ℤ◌,
}
use communication_in_critica.Application.Vehicle.{Component}

pub data Kind : Type 0 where
  gps_sensor : Kind
  lidar_sensor : Kind
  radar_sensor : Kind
  braking_actuator : Kind
  powertrain_actuator : Kind
  steering_actuator : Kind

-- `logical_port`, from `Component_Ports`
unfoldable pub logical_port : Kind → ℕ
logical_port gps_sensor = 0x0101
logical_port lidar_sensor = 0x0102
logical_port radar_sensor = 0x0103
logical_port braking_actuator = 0x0201
logical_port powertrain_actuator = 0x0202
logical_port steering_actuator = 0x0203

-- none of them overrides `subscribe_logical_broadcast`
unfoldable pub component_of : Kind → Component
unfolding logical_port
component_of k = record { logical_port = logical_port k; subscribes = true }

-- the rounds of every loop in the components
abbrev rounds : ℕ
rounds = 5

-- `Lidar_Sensor::initialize`, and `run` with what `rand` gives each time
abbrev pub initial_points : ℕ
initial_points = 0

unfoldable pub lidar_loop : ℕ → (ℕ → ℕ) → ℕ → ℕ
lidar_loop zero rand points = points
lidar_loop (suc n) rand points = lidar_loop n (λ i. rand (suc i)) (500 + rand 0 % 1500)

unfoldable pub run_lidar : (ℕ → ℕ) → ℕ → ℕ
unfolding lidar_loop
run_lidar rand points = lidar_loop rounds rand points

-- The distance in metres and the speed in half metres a second.
pub record Radar : Type 0 where
  pub range_m : ℕ
  pub rel_speed : ℤ

abbrev pub initial_radar : Radar
initial_radar = record { range_m = 0; rel_speed = pos 0 }

-- `Radar_Sensor::run`, which calls `rand` twice a round
unfoldable pub radar_loop : ℕ → (ℕ → ℕ) → Radar → Radar
radar_loop zero rand s = s
radar_loop (suc n) rand s =
    radar_loop n (λ i. rand (suc (suc i)))
      (record { range_m = 5 + rand 0 % 200; rel_speed = pos (rand 1 % 60) -ℤ pos 30 })

unfoldable pub run_radar : (ℕ → ℕ) → Radar → Radar
unfolding radar_loop
run_radar rand s = radar_loop rounds rand s

-- What is used of doubles: comparison, a whole number, a literal with four decimals, a sum, and the
-- product with 0.0001.
pub record Doubles : Type 1 where
  pub Double : Type 0
  pub ltd : Double → Double → Bool
  pub whole : ℤ → Double
  pub literal : ℤ → Double
  pub add : Double → Double → Double
  pub ten_thousandths : ℤ → Double

-- `GPS_Sensor::initialize`
abbrev pub initial_position : (d : Doubles) → d.Double × d.Double
initial_position d = (d.literal (pos 0 -ℤ pos 275954), d.literal (pos 0 -ℤ pos 485480))

-- `GPS_Sensor::run`: latitude and longitude, which each take a random number a round
unfoldable pub gps_loop : (d : Doubles) → ℕ → (ℕ → ℕ) → d.Double × d.Double → d.Double × d.Double
gps_loop d zero rand p = p
gps_loop d (suc n) rand (latitude, longitude) =
    gps_loop d n (λ i. rand (suc (suc i)))
      (
        d.add latitude (d.ten_thousandths (pos (rand 0 % 100) -ℤ pos 50)),
        d.add longitude (d.ten_thousandths (pos (rand 1 % 100) -ℤ pos 50)),
      )

unfoldable pub run_gps : (d : Doubles) → (ℕ → ℕ) → d.Double × d.Double → d.Double × d.Double
unfolding gps_loop
run_gps d rand p = gps_loop d rounds rand p

-- `initialize` of an actuator
abbrev pub initial_command : (d : Doubles) → d.Double
initial_command d = d.whole (pos 0)

-- `apply` of an actuator between two bounds
unfoldable pub apply_between : (d : Doubles) → ℤ → ℤ → d.Double → d.Double
apply_between d low high value =
    let at_least = if d.ltd value (d.whole low) then d.whole low else value in
    if d.ltd (d.whole high) at_least then d.whole high else at_least

-- `Braking_Actuator::apply`, `Steering_Actuator::apply`, `Powertrain_Actuator::apply`
unfoldable pub apply_braking : (d : Doubles) → d.Double → d.Double
unfolding apply_between
apply_braking d value = apply_between d (pos 0) (pos 150) value

unfoldable pub apply_steering : (d : Doubles) → d.Double → d.Double
unfolding apply_between
apply_steering d value = apply_between d (pos 0 -ℤ pos 45) (pos 45) value

unfoldable pub apply_powertrain : (d : Doubles) → d.Double → d.Double
apply_powertrain d value = if d.ltd value (d.whole (pos 0)) then d.whole (pos 0) else value
