-- ===== src/SmartData/DataTypes/Tests.antt =====
-- A consumer of the speed that hears a lidar's response.
use communication_in_critica.Prelude.{◌≡◌, refl, [], ◌∷◌, true, false, none, pos}
use communication_in_critica.Communication.Message.{Message}
use communication_in_critica.SmartData.Smart.{Smart, producer, consumer, respond, update}
use communication_in_critica.SmartData.DataTypes.{speed_data, lidar_data, unit_of, value_size_of}
use communication_in_critica.SmartData.DataTypes.Apart.{types_apart}

abbrev lidar : Smart
lidar = producer (unit_of lidar_data) (value_size_of lidar_data)

abbrev of_speed : Smart
of_speed = (consumer (unit_of speed_data) (value_size_of speed_data) 100000 true false 1).0

abbrev lidar_message : Message
lidar_message = record {
  payload = (respond lidar (1 ∷ 2 ∷ 3 ∷ 4 ∷ 5 ∷ 6 ∷ 7 ∷ 8 ∷ [])).1;
  address = record {
    paddr = record { b0 = 2; b1 = 0; b2 = 0; b3 = 0; b4 = 1; b5 = 7 };
    port = 1002;
  };
  timestamp = pos 5;
  quadrant = 2;
}

types_apart_example :
    update of_speed 9 lidar_message ≡ record { smart = of_speed; freed = true; disinterest = none }
unfolding producer consumer
types_apart_example =
    types_apart lidar_data speed_data lidar of_speed (1 ∷ 2 ∷ 3 ∷ 4 ∷ 5 ∷ 6 ∷ 7 ∷ 8 ∷ []) 9
      lidar_message (λ e. cc) refl refl refl refl
