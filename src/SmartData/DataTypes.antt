-- ===== src/SmartData/DataTypes.antt =====
-- src/communication/smart_data/data_types.h and unit.h: the types of data, their units and the sizes
-- of their values.
mod Apart
mod Tests
use communication_in_critica.Prelude.{ℕ}
use communication_in_critica.SmartData.Helpers.{speed, lidar_distance, radar_distance, test_counter}

pub data DataType : Type 0 where
  speed_data : DataType
  lidar_data : DataType
  radar_data : DataType
  counter_data : DataType

-- `UNIT`
unfoldable pub unit_of : DataType → ℕ
unit_of speed_data = speed
unit_of lidar_data = lidar_distance
unit_of radar_data = radar_distance
unit_of counter_data = test_counter

-- `sizeof(Value)`: a double or a 64-bit integer
abbrev pub value_size_of : DataType → ℕ
value_size_of t = 8
