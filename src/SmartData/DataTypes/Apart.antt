-- ===== src/SmartData/DataTypes/Apart.antt =====
-- Data of one type is never taken for data of another.
use communication_in_critica.Prelude.{
  ℕ, ◌^◌, ◌<◌, ◌≡◌, ◌≢◌, refl, sym, ap, ◌∙◌, true, false, List, ◌==◌, eq_false, if◌then◌else◌, none,
  arith,
}
use communication_in_critica.Communication.Message.{Message}
use communication_in_critica.SmartData.Wire.{
  SmartHeader, read_header, kind_response, response_bytes, read_header-header_bytes,
}
use communication_in_critica.SmartData.Smart.{Smart, respond, update}
use communication_in_critica.SmartData.Smart.History.{update-other}
use communication_in_critica.SmartData.DataTypes.{
  DataType, speed_data, lidar_data, radar_data, counter_data, unit_of,
}

unit_of-lt : (a : DataType) → unit_of a < 2 ^ 32
unfolding unit_of
unit_of-lt speed_data = omega arith
unit_of-lt lidar_data = omega arith
unit_of-lt radar_data = omega arith
unit_of-lt counter_data = omega arith

abbrev from_unit : ℕ → DataType
from_unit u =
    if u == 2
    then speed_data
    else if u == 3
    then lidar_data
    else if u == 4
    then radar_data
    else counter_data

from_unit-unit_of : (a : DataType) → from_unit (unit_of a) ≡ a
unfolding unit_of
from_unit-unit_of speed_data = refl
from_unit-unit_of lidar_data = refl
from_unit-unit_of radar_data = refl
from_unit-unit_of counter_data = refl

unit_of_injective : (a b : DataType) → unit_of a ≡ unit_of b → a ≡ b
unit_of_injective a b e = sym (from_unit-unit_of a) ∙ ap from_unit e ∙ from_unit-unit_of b

-- Whatever a producer of one type responds, a consumer of another type frees it and stays as it is,
-- in any state that is a consumer of its unit.
pub types_apart :
    (a b : DataType) (p s : Smart) (value : List ℕ) (now : ℕ) (m : Message)
    → a ≢ b
    → p.unit ≡ unit_of a
    → s.unit ≡ unit_of b
    → s.is_producer ≡ false
    → m.payload ≡ (respond p value).1
    → update s now m ≡ record { smart = s; freed = true; disinterest = none }
unfolding respond response_bytes
types_apart a b p s value now m apart of_a of_b consuming sent =
    let h : SmartHeader = record { kind = kind_response; unit = p.unit } in
    let header =
      ap read_header sent
      ∙ read_header-header_bytes h value (omega arith) (omega (arith, of_a, unit_of-lt a)) in
    let other : (read_header m.payload).unit ≢ s.unit =
      λ e. apart (unit_of_injective a b (sym of_a ∙ sym (ap (λ x. x.unit) header) ∙ e ∙ of_b)) in
    update-other s now m consuming
      (ground (arith, eq_false (read_header m.payload).unit s.unit other))
