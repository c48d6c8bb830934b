-- ===== src/SmartData/Tracker/Repeating.antt =====
-- What the broker makes of an interest that it has heard, up to the next tick.
use communication_in_critica.Prelude.{
  ℕ, ◌+◌, ◌^◌, ◌≤◌, ◌<◌, ◌≡◌, refl, sym, ap, subst, ◌∙◌, inl, inr, List, [], ◌∷◌, ◌++◌, ◌==◌, ◌&&◌,
  leb, arith, All-Elem, Elem, Bool-cases, ==_iff, true, false, lookup-assign, length, append-nil,
}
use communication_in_critica.Channel.Address.{Address, address_eq_iff}
use communication_in_critica.SmartData.Helpers.{mac_key}
use communication_in_critica.SmartData.Wire.{
  read_header, read_interest, interest_bytes, read_interest-interest_bytes, kind_interest,
  interest_message_size,
}
use communication_in_critica.SmartData.Exchange.Payloads.{length-interest_bytes}
use communication_in_critica.SmartData.Tracker.{
  Entry, Tracker, start, heard, update, register, is_from, broker_tick, interest_message,
  presence_lease_ns,
}
use communication_in_critica.SmartData.Tracker.Active.{Asked, Bounds, active-cases}
use communication_in_critica.SmartData.Tracker.Runs.{Event, message, step, run}
use communication_in_critica.SmartData.Tracker.Service.{absent-purged, shortest_repeated}

run-after :
    (t : Tracker) (history : List (ℕ × Event)) (now : ℕ) (e : Event)
    → run t (history ++ (now, e) ∷ []) ≡ step (run t history) now e
unfolding run
run-after t [] now e = refl
run-after t ((at, first) ∷ history) now e = run-after (step t at first) history now e

is_from_iff :
    (u : ℕ) (a : Address) (e : Entry) → is_from u a e ≡ true → (u ≡ e.unit) × (a ≡ e.address)
is_from_iff u a e h = ground (arith, h, ==_iff e.unit u, address_eq_iff e.address a)

-- The entry of who asks stands among the interests.
Elem-register :
    (u : ℕ) (a : Address) (p : ℕ) (es : List Entry)
    → Elem (record { unit = u; address = a; period_us = p }) (register u a p es)
unfolding register
Elem-register u a p [] = inl refl
Elem-register u a p (e ∷ es) = elim (Bool-cases (is_from u a e)) [
  | inl s ↦
      let (of_unit, of_address) = is_from_iff u a e s in
      rw s (inl (λ i. record { unit = of_unit i; address = of_address i; period_us = p }))
  | inr s ↦ rw s (inr (Elem-register u a p es))
]

is_interest :
    (u p : ℕ)
    → (read_header (interest_bytes (interest_message u p false))).kind ≡ kind_interest
    → (leb interest_message_size (length (interest_bytes (interest_message u p false)))
        && (read_header (interest_bytes (interest_message u p false))).kind == kind_interest)
      ≡ true
is_interest u p h = ground (arith, h, length-interest_bytes (interest_message u p false))

update-interest :
    (t : Tracker) (now : ℕ) (a : Address) (u p : ℕ)
    → u < 2 ^ 32
    → p < 2 ^ 64
    → update t now a (interest_bytes (interest_message u p false))
      ≡ heard t now a (interest_message u p false)
unfolding update read_interest
update-interest t now a u p small period =
    let im = interest_message u p false in
    let got =
      ap read_interest (sym (append-nil (interest_bytes im)))
      ∙ read_interest-interest_bytes im [] (omega arith) (omega (arith, small))
          (omega (arith, period)) (omega arith) in
    rw (is_interest u p (ap (λ m. m.header.kind) got), update) (ap (heard t now a) got)

-- The interests have a shortest period in the unit of each of them.
shortest :
    (u : ℕ) (e : Entry) (es : List Entry)
    → Elem e es
    → e.unit ≡ u
    → (p : ℕ) × (p ≤ e.period_us) × Bounds u p es × Asked u p es
shortest u e es m same = elim (active-cases u es) [
  | inl (nothing, all) ↦
      absurd (ground (arith, same, All-Elem _ e es all m, (==_iff e.unit u).1 same))
  | inr (q, found, bounds, asked) ↦ (q, All-Elem _ e es bounds m same, bounds, asked)
]

-- Whatever the history, an interest that the broker hears is repeated at any tick within the
-- presence lease, at its period or a shorter one.
pub heard_repeated :
    (history : List (ℕ × Event)) (at now : ℕ) (a : Address) (u p : ℕ)
    → u < 2 ^ 32
    → p < 2 ^ 64
    → now ≤ at + presence_lease_ns
    → let t = update (run start history) at a (interest_bytes (interest_message u p false)) in
      (p' : ℕ) × (p' ≤ p) × Elem (interest_message u p' false) (broker_tick t now).1
unfolding heard step
heard_repeated history at now a u p small period soon =
    let im = interest_message u p false in
    let longer = history ++ (at, message a (interest_bytes im)) ∷ [] in
    let entry : Entry = record { unit = u; address = a; period_us = p } in
    let t = heard (run start history) at a im in
    let stepped = run-after start history at (message a (interest_bytes im)) in
    let same : run start longer ≡ t =
      stepped ∙ update-interest (run start history) at a u p small period in
    let stays : Elem entry (broker_tick (run start longer) now).0.interests =
      (absent-purged longer now entry).1 (
        rw same (
          Elem-register u a p (run start history).interests,
          (
            at,
            ground (
              arith,
              lookup-assign (mac_key a.paddr) at (mac_key a.paddr) (run start history).presence,
            ),
            soon,
          ),
        )) in
    let (p', le, least, asks) = shortest u entry _ stays refl in
    (
      p',
      le,
      subst (λ x. Elem (interest_message u p' false) (broker_tick x now).1) stepped
          ((shortest_repeated longer now u p').1 (least, asks)),
    )
