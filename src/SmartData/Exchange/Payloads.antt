-- ===== src/SmartData/Exchange/Payloads.antt =====
-- What the payloads of interests and responses say to those who get them.
use communication_in_critica.Prelude.{
  ℕ, ◌+◌, ◌^◌, ◌<◌, ◌≡◌, refl, sym, ap, ◌∙◌, Bool, true, false, List, [], if◌then◌else◌, ◌==◌,
  length, append-nil, take, take-all, drop, arith,
}
use communication_in_critica.Communication.Message.{Message}
use communication_in_critica.SmartData.Wire.{
  SmartHeader, InterestMessage, smart_header_size, kind_response, header_bytes, response_bytes,
  read_header, interest_bytes, read_interest, read_header-header_bytes, drop-header_bytes,
  read_interest-interest_bytes,
}
use communication_in_critica.SmartData.Smart.{Smart, respond, interest_payload, send_interest}
use communication_in_critica.SmartData.Smart.Service.{IsAnswer, IsHeeded, call_of}
use communication_in_critica.SmartData.BindingCache.Refine.{interest, disinterest}

length-response_bytes :
    (h : SmartHeader) (value : List ℕ) → length (response_bytes h value) ≡ 5 + length value
unfolding response_bytes header_bytes
length-response_bytes h value = omega arith

pub length-response : (p : Smart) (value : List ℕ) → length (respond p value).1 ≡ 5 + length value
unfolding respond
length-response p value =
    length-response_bytes (record { kind = kind_response; unit = p.unit }) value

-- What a producer responds is an answer to a consumer of its unit, with the value produced.
pub respond-IsAnswer :
    (p t : Smart) (value : List ℕ) (m : Message)
    → m.payload ≡ (respond p value).1
    → p.unit ≡ t.unit
    → t.unit < 2 ^ 32
    → length value ≡ t.value_size
    → t.is_producer ≡ false
    → IsAnswer t m × (take t.value_size (drop smart_header_size m.payload) ≡ value)
unfolding respond response_bytes
respond-IsAnswer p t value m e same small size c =
    let h : SmartHeader = record { kind = kind_response; unit = p.unit } in
    let header =
      ap read_header e
      ∙ read_header-header_bytes h value (omega arith) (omega (arith, same, small)) in
    (
      (
        c,
        omega (arith, ap length e, length-response_bytes h value, size),
        ap (λ x. x.unit) header ∙ same,
        ap (λ x. x.kind) header,
      ),
      ap (λ xs. take t.value_size (drop smart_header_size xs)) e
          ∙ ap (take t.value_size) (drop-header_bytes h value)
          ∙ ap (λ n. take n value) (sym size)
          ∙ take-all value,
    )

pub length-interest_bytes : (m : InterestMessage) → length (interest_bytes m) ≡ 14
unfolding interest_bytes header_bytes
length-interest_bytes m = refl

flag-byte : (ends : Bool) → (if ends then 1 else 0) < 2 ^ 8
flag-byte ends = ground arith

-- The call that an interest message makes.
asked :
    (p t : Smart) (ends : Bool) (m : Message)
    → p.unit ≡ t.unit
    → (if (if ends then 1 else 0) == 0
        then interest p.unit m.address t.period_us
        else disinterest p.unit m.address)
      ≡ (if ends then disinterest t.unit m.address else interest t.unit m.address t.period_us)
asked p t true m same = ap (λ u. disinterest u m.address) same
asked p t false m same = ap (λ u. interest u m.address t.period_us) same

-- What a consumer asks for is heeded by a producer of its unit, as an interest at its period or as
-- the end of it.
pub interest-IsHeeded :
    (p t : Smart) (ends : Bool) (m : Message)
    → m.payload ≡ interest_payload t ends
    → p.unit ≡ t.unit
    → t.unit < 2 ^ 32
    → t.period_us < 2 ^ 64
    → p.is_producer ≡ true
    → IsHeeded p m
      × (call_of p m
          ≡ (if ends then disinterest t.unit m.address else interest t.unit m.address t.period_us))
unfolding read_interest
interest-IsHeeded p t ends m e same small period producing =
    let sent = send_interest t ends in
    let got =
      ap read_interest (e ∙ sym (append-nil (interest_bytes sent)))
      ∙ read_interest-interest_bytes sent [] (omega arith) (omega (arith, small))
          (omega (arith, period)) (flag-byte ends) in
    (
      (
        producing,
        omega (arith, ap length e, length-interest_bytes sent),
        ap (λ im. im.header.unit) got ∙ sym same,
        ap (λ im. im.header.kind) got,
      ),
      ap
            (λ im.
              if im.disinterest == 0
              then interest p.unit m.address im.period_us
              else disinterest p.unit m.address)
            got
          ∙ asked p t ends m same,
    )
