-- ===== src/Application/Vehicle.antt =====
-- src/application/vehicle.cpp, gateway.cpp and components/component.cpp: what the processes of a
-- vehicle are set up with.
use communication_in_critica.Prelude.{
  ℕ, zero, suc, ◌+◌, ◌%◌, ◌^◌, Bool, false, ◌||◌, not, List, [], ◌∷◌, ◌++◌, Option, none, some, map,
  if◌then◌else◌,
}
use communication_in_critica.SharedMemory.Region.{gateway_slot}
use communication_in_critica.SharedMemory.Create.{
  Context, Calls, Kernel, create, is_some, no_context,
}
use communication_in_critica.SharedMemory.Lifecycle.{Configuration}
use communication_in_critica.Channel.Sptp.{gateway_port}

pub record Component : Type 0 where
  pub logical_port : ℕ
  pub subscribes : Bool

-- `_is_master` and `_components`, each with its port
pub record Vehicle : Type 0 where
  pub is_master : Bool
  pub components : List (Component × ℕ)

-- both `add_component`s
abbrev pub add_component_at : Vehicle → Component → ℕ → Vehicle
add_component_at v c port = record v { components = v.components ++ (c, port) ∷ [] }

abbrev pub add_component : Vehicle → Component → Vehicle
add_component v c = add_component_at v c c.logical_port

abbrev pub component_ports : Vehicle → List ℕ
component_ports v = map (λ c. c.1) v.components

-- the number at an index of an array, and 0 past its end, which is not read
abbrev pub at_index : List ℕ → ℕ → ℕ
at_index [] i = 0
at_index (x ∷ xs) zero = x
at_index (x ∷ xs) (suc i) = at_index xs i

-- what the process of the component at an index configures the engine with
abbrev pub component_configuration : Vehicle → ℕ → Context → Configuration
component_configuration v index context = record {
  context = context;
  slot = (index + 1) % 2 ^ 16;
  port = at_index (component_ports v) index;
}

-- `_context`, `_is_master`, and `_protocol` with the role of its synchronisation; `configured` is
-- what the engine was configured with.
pub record Gateway : Type 0 where
  pub context : Context
  pub is_master : Bool
  pub protocol : Option Bool
  pub configured : Option Configuration

-- the constructor, `set_master` and `set_context`
abbrev pub gateway : Gateway
gateway = record { context = no_context; is_master = false; protocol = none; configured = none }

abbrev pub set_master : Bool → Gateway → Gateway
set_master is_master g = record g { is_master = is_master }

abbrev pub set_context : Context → Gateway → Gateway
set_context context g = record g { context = context }

-- `create_context`
abbrev pub create_context : Option (ℕ → ℕ) → ℕ → Calls → Context × Kernel
create_context ports count calls = create ports count calls

-- `shmid < 0 || semid < 0`
abbrev pub is_missing : Context → Bool
is_missing c = not (is_some c.shmid) || not (is_some c.semid)

unfoldable pub run_gateway : Gateway → Gateway
run_gateway g = if is_missing g.context then g else record g {
  configured = some (record { context = g.context; slot = gateway_slot; port = gateway_port });
  protocol = some g.is_master;
}

abbrev pub stop_gateway : Gateway → Gateway
stop_gateway g = record g { protocol = none }
