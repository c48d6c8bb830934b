-- ===== src/Network/RawSocket.antt =====
-- src/network/engine/raw_socket_engine.cpp: the socket of a gateway, and its thread that receives.
-- What the kernel answers to the system calls is an argument, so a run of the thread is a function
-- of the answers that it gets, the first one first; a run of a thread that goes on is cut where the
-- answers end.

pub mod Opening
use communication_in_critica.Prelude.{
  ℕ, zero, suc, Bool, true, false, not, ◌&&◌, List, [], ◌∷◌, ◌++◌, Option, none, some,
  if◌then◌else◌, ◌==◌, remove_if,
}
use communication_in_critica.Ethernet.{Mac}

-- `_sockfd`, none for -1, `_ifindex`, `_running`, whether there is a thread, and the descriptors that
-- the process has open.
pub record RawSocket : Type 0 where
  pub sockfd : Option ℕ
  pub ifindex : ℕ
  pub running : Bool
  pub has_worker : Bool
  pub open_fds : List ℕ

abbrev pub raw_socket : List ℕ → RawSocket
raw_socket fds = record {
  sockfd = none;
  ifindex = 0;
  running = false;
  has_worker = false;
  open_fds = fds;
}

-- `socket` opens a descriptor, and `close` closes it
abbrev pub opened : ℕ → RawSocket → RawSocket
opened fd s = record s { sockfd = some fd; open_fds = fd ∷ s.open_fds }

abbrev pub closed : ℕ → RawSocket → RawSocket
closed fd s = record s { sockfd = none; open_fds = remove_if (λ f. f == fd) s.open_fds }

-- `engine_init`, by the answers of `socket`, `if_nametoindex` and `bind`
unfoldable pub init : Option ℕ → ℕ → Bool → RawSocket → RawSocket
init none index binds s = record s { sockfd = none }
init (some fd) index binds s =
    let at_index = record (opened fd s) { ifindex = index } in
    if index == 0
    then closed fd at_index
    else (if binds then at_index else record (closed fd at_index) { ifindex = 0 })

-- whether the socket can be used
abbrev pub is_open : RawSocket → Bool
is_open s = elim s.sockfd [ none ↦ false | some fd ↦ not (s.ifindex == 0) ]

-- `engine_send`: what `sendto` answers, none for -1
unfoldable pub send : RawSocket → Option ℕ → Option ℕ
send s sendto = if is_open s then sendto else none

-- `engine_close`
unfoldable pub close : RawSocket → RawSocket
close s =
    let halted = record s { running = false; has_worker = false } in
    elim s.sockfd [ none ↦ halted | some fd ↦ closed fd halted ]

abbrev pub zero_mac : Mac
zero_mac = record { b0 = 0; b1 = 0; b2 = 0; b3 = 0; b4 = 0; b5 = 0 }

-- `engine_get_address`, by whether the interface has a name and by the answer of `ioctl`
unfoldable pub get_address : RawSocket → Bool → Option Mac → Mac
get_address s has_name ioctl =
    if is_open s && has_name then elim ioctl [ none ↦ zero_mac | some mac ↦ mac ] else zero_mac

-- `start_receiving`, up to the thread
unfoldable pub start_receiving : RawSocket → RawSocket
start_receiving s = elim s.sockfd [
  | none ↦ s
  | some fd ↦ record s { running = true; has_worker = true }
]

-- The answer of `recv`: nothing more for now or a failure, or the bytes, of which there may be none.
pub data Recv : Type 0 where
  failed : Recv
  got : (bytes : List ℕ) → Recv

-- The loop that drains the socket, with what each test of `_running` finds: the frames that are
-- handed to the NIC.
unfoldable pub drain : List (Bool × Recv) → List (List ℕ)
drain [] = []
drain ((false, answer) ∷ answers) = []
drain ((true, failed) ∷ answers) = []
drain ((true, got []) ∷ answers) = drain answers
drain ((true, got (b ∷ bytes)) ∷ answers) = (b ∷ bytes) ∷ drain answers

-- The answer of `sigtimedwait`: the signal, with the answers of the drain that follows; no signal in
-- a second, or an interruption; or another failure.
pub data Signal : Type 0 where
  arrived : (answers : List (Bool × Recv)) → Signal
  nothing_yet : Signal
  broken : Signal

-- the thread's loop, with what each test of `_running` finds
unfoldable pub worker : List (Bool × Signal) → List (List ℕ)
unfolding drain
worker [] = []
worker ((false, signal) ∷ signals) = []
worker ((true, arrived answers) ∷ signals) = drain answers ++ worker signals
worker ((true, nothing_yet) ∷ signals) = worker signals
worker ((true, broken) ∷ signals) = []
