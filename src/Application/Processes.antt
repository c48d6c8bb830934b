-- ===== src/Application/Processes.antt =====
-- `Vehicle::run`, `Vehicle::run_gateway_process` (src/application/vehicle.cpp) and the processes of a
-- road-side unit (rsu.cpp). What the kernel answers is an argument: the system calls of `create`, the
-- process that each `fork` makes, and the status with which each process ends, which `waitpid` waits
-- for. What the calls do, in order, is a log.
use communication_in_critica.Prelude.{
  ℕ, zero, suc, Bool, true, false, not, List, [], ◌∷◌, ◌++◌, Option, none, some, map, if◌then◌else◌,
  ◌==◌, length,
}
use communication_in_critica.SharedMemory.Create.{Context, Calls, Kernel, destroy}
use communication_in_critica.Application.Vehicle.{
  Vehicle, component_ports, at_index, Gateway, gateway, set_master, set_context, create_context,
  is_missing, run_gateway, stop_gateway,
}

-- How a process ended.
pub data Status : Type 0 where
  exited : (code : ℕ) → Status
  signalled : (signal : ℕ) → Status

-- `!WIFEXITED(status) || WEXITSTATUS(status) != 0`
abbrev pub is_failure : Status → Bool
is_failure (exited code) = not (code == 0)
is_failure (signalled signal) = true

pub data Action : Type 0 where
  forked : (pid : ℕ) → Action
  terminated : (pid : ℕ) → Action
  awaited : (pid : ℕ) → Action
  gateway_ran : Action
  gateway_stopped : Action
  destroyed : Action

-- the loop of `fork`s from an index on, for as many components as are left: the processes made, and
-- whether a fork failed, which ends the loop
unfoldable pub spawn_components : (ℕ → Option ℕ) → ℕ → ℕ → List ℕ × Bool
spawn_components forks i zero = ([], false)
spawn_components forks i (suc left) =
    let (pids, failed) = spawn_components forks (suc i) left in
    elim (forks i) [ none ↦ ([], true) | some pid ↦ (pid ∷ pids, failed) ]

-- the loop of `waitpid`s: whether a process failed
unfoldable pub any_failed : (ℕ → Status) → List ℕ → Bool
any_failed statuses [] = false
any_failed statuses (pid ∷ pids) =
    let rest = any_failed statuses pids in if is_failure (statuses pid) then true else rest

-- How a gateway's process ends: its code, what it did, its gateway, and what is left in the kernel.
pub record Ended : Type 0 where
  pub code : ℕ
  pub log : List Action
  pub gateway : Gateway
  pub kernel : Kernel

-- the part after the creation of the context
unfoldable pub run_with_context :
    Vehicle → (ℕ → Option ℕ) → (ℕ → Status) → Gateway → Context → Kernel → Ended
unfolding spawn_components any_failed destroy
run_with_context v forks statuses g context k =
    let (pids, spawn_failed) = spawn_components forks 0 (length v.components) in
    if spawn_failed
    then record {
      code = 1;
      log = map forked pids ++ (map terminated pids ++ (map awaited pids ++ destroyed ∷ []));
      gateway = g;
      kernel = destroy context k;
    }
    else record {
      code = if any_failed statuses pids then 1 else 0;
      log = map forked pids ++ gateway_ran ∷ (map awaited pids ++ gateway_stopped ∷ destroyed ∷ []);
      gateway = stop_gateway (run_gateway g);
      kernel = destroy context k;
    }

-- `run_gateway_process`, of a vehicle that was initialised
unfoldable pub run_gateway_process : Vehicle → Calls → (ℕ → Option ℕ) → (ℕ → Status) → Ended
unfolding run_with_context
run_gateway_process v calls forks statuses =
    let g = set_master v.is_master gateway in
    let (context, k) =
      create_context (some (at_index (component_ports v))) (length v.components) calls in
    if is_missing context
    then record { code = 1; log = []; gateway = g; kernel = k }
    else run_with_context v forks statuses (set_context context g) context k

-- `run`: the code with which the vehicle's process ends, by the process that its `fork` makes and
-- the status of that process
unfoldable pub run : Option ℕ → Status → ℕ
run none status = 1
run (some pid) status = if is_failure status then 1 else 0

-- `read_rsu_repeat_us`: the first token of the kernel's command line that `sscanf` reads a period
-- from; the line is none if it cannot be read
unfoldable pub read_rsu_repeat_us {ℓ} :
    {Token : Type ℓ} → (Token → Option ℕ) → Option (List Token) → ℕ
read_rsu_repeat_us scan none = 0
read_rsu_repeat_us scan (some []) = 0
read_rsu_repeat_us scan (some (t ∷ ts)) =
    let rest = read_rsu_repeat_us scan (some ts) in elim (scan t) [ none ↦ rest | some v ↦ v ]

-- `RSU::run_gateway_process`: the code with which it ends, or its gateway and the period of its
-- broker, and then it goes on for ever
pub data RsuProcess : Type 0 where
  ended : (code : ℕ) → RsuProcess
  serving : (gateway : Gateway) → (repeat_us : ℕ) → RsuProcess

unfoldable pub run_rsu_process {ℓ} :
    {Token : Type ℓ} → Calls → (Token → Option ℕ) → Option (List Token) → RsuProcess
unfolding read_rsu_repeat_us run_gateway
run_rsu_process calls scan line =
    let (context, k) = create_context none 0 calls in
    let g = run_gateway (set_context context (set_master true gateway)) in
    let read = read_rsu_repeat_us scan line in
    if is_missing context then ended 1 else elim g.protocol [
      | none ↦ ended 1
      | some master ↦ serving g (if read == 0 then 1500000 else read)
    ]
