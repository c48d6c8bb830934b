-- ===== src/SmartData/Smart/Service.antt =====
-- What a producer or a consumer makes of the messages that it is notified of.
use mathlib.Core.Path.{fun_ext}
use communication_in_critica.Prelude.{
  ℕ, ◌+◌, ◌*◌, ◌≡◌, ◌≤◌, ◌⊎◌, inl, inr, refl, ap, ◌∙◌, true, false, not, ◌&&◌, ◌||◌, [], ◌∷◌, ◌++◌,
  none, if◌then◌else◌, ltb, leb, ◌==◌, length, take, drop, arith, Bool-cases, ==_iff,
}
use communication_in_critica.Channel.Address.{Address}
use communication_in_critica.SmartData.Wire.{
  read_header, read_interest, smart_header_size, interest_message_size, kind_interest,
  kind_response,
}
use communication_in_critica.SmartData.BindingCache.{Cache, clear}
use communication_in_critica.SmartData.BindingCache.Refine.{
  Call, interest, disinterest, clears, lease, view, step, lease_step, IsValid, step-IsValid,
  view-step,
}
use communication_in_critica.SmartData.BindingCache.Find.{find_binding-nil}
use communication_in_critica.Communication.Message.{Message}
use communication_in_critica.SmartData.Smart.{
  Smart, Handled, heed, take_response, update, expired, unsubscribe, abandon, destroy,
  value_ttl_factor,
}

heed-freed :
    (s : Smart) (now : ℕ) (m : Message)
    → ((heed s now m).freed ≡ true) × ((heed s now m).smart.queue ≡ s.queue)
unfolding heed
heed-freed s now m = elim (Bool-cases ((read_interest m.payload).disinterest == 0)) [
  | inl e ↦ rw e (refl, refl)
  | inr e ↦ rw e (refl, refl)
]

-- A message is freed, or it is the last of the queue.
abbrev pub Settled : Smart → Message → Handled → Type 0
Settled s m h =
    ((h.freed ≡ true) × (h.smart.queue ≡ s.queue))
    ⊎ ((h.freed ≡ false) × (h.smart.queue ≡ s.queue ++ m ∷ []))

take_response-Settled : (s : Smart) (now : ℕ) (m : Message) → Settled s m (take_response s now m)
unfolding take_response
take_response-Settled s now m =
    elim (Bool-cases (leb (smart_header_size + s.value_size) (length m.payload))) [
      | inl l ↦ elim (Bool-cases s.value_mode) [
        | inl e ↦ rw (l, e) (inl (refl, refl))
        | inr e ↦ rw (l, e) (inr (refl, refl))
      ]
      | inr l ↦ elim (Bool-cases s.value_mode) [
        | inl e ↦ rw (l, e) (inl (refl, refl))
        | inr e ↦ rw (l, e) (inr (refl, refl))
      ]
    ]

-- Whatever the role and the message, it is freed and the queue is as it was, or it is put at the end
-- of the queue and not freed.
pub update-Settled : (s : Smart) (now : ℕ) (m : Message) → Settled s m (update s now m)
unfolding update
update-Settled s now m =
    let h = read_header m.payload in
    elim (Bool-cases (ltb (length m.payload) smart_header_size || not (h.unit == s.unit))) [
      | inl e ↦ rw e (inl (refl, refl))
      | inr e ↦ elim (Bool-cases (s.is_producer && h.kind == kind_interest)) [
        | inl p ↦ elim (Bool-cases (leb interest_message_size (length m.payload))) [
          | inl w ↦ rw (e, p, w) (inl (heed-freed s now m))
          | inr w ↦ rw (e, p, w) (inl (refl, refl))
        ]
        | inr p ↦ elim (Bool-cases (not s.is_producer && h.kind == kind_response)) [
          | inl c ↦ rw (e, p, c) (take_response-Settled s now m)
          | inr c ↦ rw (e, p, c) (inl (refl, refl))
        ]
      ]
    ]

-- What an interest message asks of the table of leases.
abbrev pub call_of : Smart → Message → Call
call_of s m =
    let im = read_interest m.payload in
    if im.disinterest == 0
    then interest s.unit m.address im.period_us
    else disinterest s.unit m.address

-- A whole interest in the unit of a producer.
abbrev pub IsHeeded : Smart → Message → Type 0
IsHeeded s m =
    (s.is_producer ≡ true)
    × (interest_message_size ≤ length m.payload)
    × ((read_header m.payload).unit ≡ s.unit)
    × ((read_header m.payload).kind ≡ kind_interest)

update-heed : (s : Smart) (now : ℕ) (m : Message) → IsHeeded s m → update s now m ≡ heed s now m
unfolding update
update-heed s now m (p, size, unit, kind) =
    let ours : (ltb (length m.payload) smart_header_size
          || not ((read_header m.payload).unit == s.unit))
        ≡ false =
      ground (arith, size, unit) in
    let whole : leb interest_message_size (length m.payload) ≡ true = ground (arith, size) in
    rw (ours, p, (==_iff (read_header m.payload).kind kind_interest).1 kind, whole) refl

abbrev cleared : Smart → Message → Cache
cleared s m = if s.last_seen_quad == m.quadrant then s.cache else clear s.cache

heed-cache :
    (s : Smart) (now : ℕ) (m : Message)
    → (heed s now m).smart.cache ≡ step (cleared s m) now (call_of s m)
unfolding heed step
heed-cache s now m = elim (Bool-cases ((read_interest m.payload).disinterest == 0)) [
  | inl e ↦ rw e refl
  | inr e ↦ rw e refl
]

-- A producer that hears a whole interest in its unit does what the message asks to its table of
-- leases, which it first empties if the quadrant is another than that of the last one.
pub producer_heeds :
    (s : Smart) (now : ℕ) (m : Message) (unit : ℕ) (address : Address)
    → IsHeeded s m
    → IsValid s.cache
    → view (update s now m).smart.cache unit address
      ≡ lease_step s.cache.lifetime_min_us s.cache.lifetime_factor
          (if s.last_seen_quad == m.quadrant then view s.cache else (λ _ _. none))
          now
          (call_of s m)
          unit
          address
unfolding step clear
producer_heeds s now m unit address heeded valid =
    ap (λ h. view h.smart.cache unit address) (update-heed s now m heeded)
    ∙ ap (λ c. view c unit address) (heed-cache s now m)
    ∙ elim (Bool-cases (s.last_seen_quad == m.quadrant)) [
      | inl same ↦ rw same (view-step now (call_of s m) unit address valid)
      | inr other ↦ rw other (
          view-step now (call_of s m) unit address (step-IsValid now clears valid)
          ∙ ap
              (λ t.
                lease_step s.cache.lifetime_min_us s.cache.lifetime_factor t now (call_of s m) unit
                  address)
              (fun_ext λ u. fun_ext λ a. ap lease (find_binding-nil u a)))
    ]

-- A response with a whole value, in the unit of a consumer.
abbrev pub IsAnswer : Smart → Message → Type 0
IsAnswer s m =
    (s.is_producer ≡ false)
    × (smart_header_size + s.value_size ≤ length m.payload)
    × ((read_header m.payload).unit ≡ s.unit)
    × ((read_header m.payload).kind ≡ kind_response)

-- A response gives a consumer its value, which is fresh for three of its periods from then on.
pub value_fresh :
    (s : Smart) (now later : ℕ) (m : Message)
    → IsAnswer s m
    → ((update s now m).smart.last_value ≡ take s.value_size (drop smart_header_size m.payload))
      × (expired (update s now m).smart later
          ≡ ltb (now + value_ttl_factor * s.period_us * 1000) later)
unfolding update take_response expired
value_fresh s now later m (c, size, unit, kind) =
    let ours : (ltb (length m.payload) smart_header_size
          || not ((read_header m.payload).unit == s.unit))
        ≡ false =
      ground (arith, size, unit) in
    let whole : leb (smart_header_size + s.value_size) (length m.payload) ≡ true =
      ground (arith, size) in
    elim (Bool-cases s.value_mode) [
      | inl e ↦
          rw (ours, c, (==_iff (read_header m.payload).kind kind_response).1 kind, whole, e)
            (refl, refl)
      | inr e ↦
          rw (ours, c, (==_iff (read_header m.payload).kind kind_response).1 kind, whole, e)
            (refl, refl)
    ]

-- Who has unsubscribed or was abandoned says nothing more: neither another unsubscription nor the
-- end sends a disinterest.
pub left_silent :
    (s : Smart)
    → ((unsubscribe (unsubscribe s).0).1 ≡ [])
      × (destroy (unsubscribe s).0 ≡ [])
      × ((unsubscribe (abandon s)).1 ≡ [])
      × (destroy (abandon s) ≡ [])
unfolding unsubscribe abandon destroy
left_silent s = elim (Bool-cases s.is_producer) [
  | inl p ↦ rw p (refl, refl, refl, refl)
  | inr p ↦ elim (Bool-cases s.unsubscribed) [
    | inl u ↦ rw (p, u) (refl, refl, refl, refl)
    | inr u ↦ rw (p, u) (refl, refl, refl, refl)
  ]
]
