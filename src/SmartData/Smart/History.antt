-- ===== src/SmartData/Smart/History.antt =====
-- The life of a consumer: the messages that it hears, the responses that its application takes, and
-- what becomes of each message.
pub mod Accounts
mod Tests
use communication_in_critica.Prelude.{
  ℕ, suc, ◌+◌, ◌≡◌, ◌↔◌, ◌⊎◌, inl, inr, refl, sym, ap, ◌∙◌, Bool, true, false, not, ◌&&◌, ◌||◌,
  List, [], ◌∷◌, ◌++◌, append-nil, append_assoc, Option, none, some, if◌then◌else◌, ltb, leb, ◌==◌,
  length, length-append, take, drop, arith, Bool-cases, Map, lookup, assign, lookup-assign,
  IsSorted, assign-IsSorted, Elem, Elem-append, map, ==_iff, subst,
}
use mathlib.Core.List.{map-append}
use communication_in_critica.SmartData.Helpers.{mac_key}
use communication_in_critica.SmartData.Wire.{
  read_header, smart_header_size, kind_interest, kind_response,
}
use communication_in_critica.Communication.Message.{Message}
use communication_in_critica.SmartData.Smart.{
  Smart, Handled, take_response, update, receive_response, consumer, producer_count,
}

pub data Call : Type 0 where
  hears : (now : ℕ) (m : Message) → Call
  takes : Call

-- The messages heard, those that the application took, and those that were freed.
pub record History : Type 0 where
  pub smart : Smart
  pub heard : List Message
  pub taken : List Message
  pub freed : List Message

abbrev pub newborn : Smart → History
newborn s = record { smart = s; heard = []; taken = []; freed = [] }

abbrev pub noted : History → Message → Handled → History
noted h m r = record {
  smart = r.smart;
  heard = h.heard ++ m ∷ [];
  taken = h.taken;
  freed = if r.freed then h.freed ++ m ∷ [] else h.freed;
}

abbrev pub given : History → Smart × Option Message → History
given h (s, none) = record h { smart = s }
given h (s, some m) = record h { smart = s; taken = h.taken ++ m ∷ [] }

unfoldable pub step : History → Call → History
unfolding update receive_response
step h (hears now m) = noted h m (update h.smart now m)
step h takes = given h (receive_response h.smart)

unfoldable pub run : History → List Call → History
unfolding step
run h [] = h
run h (c ∷ cs) = run (step h c) cs

-- A response in the unit, as far as its header tells.
abbrev pub is_answer : ℕ → Message → Bool
is_answer unit m =
    not (ltb (length m.payload) smart_header_size || not ((read_header m.payload).unit == unit))
    && (read_header m.payload).kind == kind_response

pub answers : ℕ → List Message → List Message
answers unit [] = []
answers unit (m ∷ ms) = let rest = answers unit ms in if is_answer unit m then m ∷ rest else rest

pub others : ℕ → List Message → List Message
others unit [] = []
others unit (m ∷ ms) = let rest = others unit ms in if is_answer unit m then rest else m ∷ rest

pub answers-append :
    (unit : ℕ) (ms : List Message) (m : Message)
    → answers unit (ms ++ m ∷ []) ≡ answers unit ms ++ (if is_answer unit m then m ∷ [] else [])
unfolding answers
answers-append unit [] m = elim (Bool-cases (is_answer unit m)) [
  | inl a ↦ rw a refl
  | inr o ↦ rw o refl
]
answers-append unit (n ∷ ms) m = elim (Bool-cases (is_answer unit n)) [
  | inl a ↦ rw a (ap (λ xs. n ∷ xs) (answers-append unit ms m))
  | inr o ↦ rw o (answers-append unit ms m)
]

pub others-append :
    (unit : ℕ) (ms : List Message) (m : Message)
    → others unit (ms ++ m ∷ []) ≡ others unit ms ++ (if is_answer unit m then [] else m ∷ [])
unfolding others
others-append unit [] m = elim (Bool-cases (is_answer unit m)) [
  | inl a ↦ rw a refl
  | inr o ↦ rw o refl
]
others-append unit (n ∷ ms) m = elim (Bool-cases (is_answer unit n)) [
  | inl a ↦ rw a (others-append unit ms m)
  | inr o ↦ rw o (ap (λ xs. n ∷ xs) (others-append unit ms m))
]

-- What a consumer makes of a message.
pub update-answer :
    (s : Smart) (now : ℕ) (m : Message)
    → s.is_producer ≡ false
    → is_answer s.unit m ≡ true
    → update s now m ≡ take_response s now m
unfolding update
update-answer s now m consuming answer =
    let h = read_header m.payload in
    let whole : (ltb (length m.payload) smart_header_size || not (h.unit == s.unit)) ≡ false =
      ground (arith, answer) in
    let kind : (h.kind == kind_response) ≡ true = ground (arith, answer) in
    rw (whole, consuming, kind) refl

pub update-other :
    (s : Smart) (now : ℕ) (m : Message)
    → s.is_producer ≡ false
    → is_answer s.unit m ≡ false
    → update s now m ≡ record { smart = s; freed = true; disinterest = none }
unfolding update
update-other s now m consuming other =
    let h = read_header m.payload in
    elim (Bool-cases (ltb (length m.payload) smart_header_size || not (h.unit == s.unit))) [
      | inl little ↦ rw little refl
      | inr whole ↦
          let kind : (h.kind == kind_response) ≡ false = ground (arith, other, whole) in
          rw (whole, consuming, kind) refl
    ]

abbrev pub key_of_sender : Message → ℕ
key_of_sender m = mac_key m.address.paddr

-- What a response changes, whichever its length.
pub record Took (s t : Smart) (m : Message) : Type 0 where
  pub unit : t.unit ≡ s.unit
  pub consuming : t.is_producer ≡ s.is_producer
  pub mode : t.value_mode ≡ s.value_mode
  pub count : t.responses_received ≡ s.responses_received + 1
  pub producers : t.producers ≡ assign (key_of_sender m) 0 s.producers
  pub queue : t.queue ≡ (if s.value_mode then s.queue else s.queue ++ m ∷ [])

pub take_response-Took :
    (s : Smart) (now : ℕ) (m : Message)
    → ((take_response s now m).freed ≡ s.value_mode) × Took s (take_response s now m).smart m
unfolding take_response
take_response-Took s now m =
    elim (Bool-cases (leb (smart_header_size + s.value_size) (length m.payload))) [
      | inl l ↦ elim (Bool-cases s.value_mode) [
        | inl e ↦
            rw (l, e)
              (
                refl,
                record {
                  unit = refl;
                  consuming = refl;
                  mode = refl;
                  count = refl;
                  producers = refl;
                  queue = refl;
                },
              )
        | inr e ↦
            rw (l, e)
              (
                refl,
                record {
                  unit = refl;
                  consuming = refl;
                  mode = refl;
                  count = refl;
                  producers = refl;
                  queue = refl;
                },
              )
      ]
      | inr l ↦ elim (Bool-cases s.value_mode) [
        | inl e ↦
            rw (l, e)
              (
                refl,
                record {
                  unit = refl;
                  consuming = refl;
                  mode = refl;
                  count = refl;
                  producers = refl;
                  queue = refl;
                },
              )
        | inr e ↦
            rw (l, e)
              (
                refl,
                record {
                  unit = refl;
                  consuming = refl;
                  mode = refl;
                  count = refl;
                  producers = refl;
                  queue = refl;
                },
              )
      ]
    ]
