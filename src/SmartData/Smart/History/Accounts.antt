-- ===== src/SmartData/Smart/History/Accounts.antt =====
-- What a consumer has made of what it heard, at any time of its life.
use communication_in_critica.Prelude.{
  ℕ, ◌≡◌, ◌↔◌, inl, inr, refl, sym, ap, ◌∙◌, Bool, true, false, List, [], ◌∷◌, ◌++◌, append-nil,
  append_assoc, none, some, if◌then◌else◌, ◌==◌, length, length-append, arith, Bool-cases, Map,
  lookup, assign, lookup-assign, IsSorted, assign-IsSorted, Elem, Elem-append, map, ==_iff, subst,
}
use mathlib.Core.List.{map-append}
use communication_in_critica.Communication.Message.{Message}
use communication_in_critica.SmartData.Smart.{
  Smart, take_response, update, receive_response, consumer,
}
use communication_in_critica.SmartData.Smart.History.{
  Call, hears, takes, History, newborn, noted, given, step, run, is_answer, answers, others,
  answers-append, others-append, update-answer, update-other, key_of_sender, Took,
  take_response-Took,
}

-- The vehicles known, after another.
known-assign :
    (k key : ℕ) (p : Map) (ks : List ℕ)
    → (((v : ℕ) × (lookup k p ≡ some v)) ↔ Elem k ks)
    → (((v : ℕ) × (lookup k (assign key 0 p) ≡ some v)) ↔ Elem k (ks ++ key ∷ []))
known-assign k key p ks (to, from) =
    let (out, in_one) = Elem-append k ks (key ∷ []) in
    elim (Bool-cases (key == k)) [
      | inl e ↦
          let same : key ≡ k = (==_iff key k).0 e in
          (λ found. in_one (inr (inl (sym same))), λ m. (0, lookup-assign key 0 k p ∙ rw e refl))
      | inr other ↦
          let as_before : lookup k (assign key 0 p) ≡ lookup k p =
            lookup-assign key 0 k p ∙ rw other refl in
          (
            λ (v, found). in_one (inl (to (v, sym as_before ∙ found))),
            λ m. elim (out m) [
              | inl old ↦ let (v, found) = from old in (v, as_before ∙ found)
              | inr (inl q) ↦ absurd (ground (arith, q, other))
              | inr (inr nowhere) ↦ absurd nowhere
            ],
          )
    ]

-- What a consumer of a unit, in either mode, has made of the messages that it heard.
pub record Account (unit : ℕ) (mode : Bool) (h : History) : Type 0 where
  pub of_unit : h.smart.unit ≡ unit
  pub consuming : h.smart.is_producer ≡ false
  pub in_mode : h.smart.value_mode ≡ mode
  pub kept : h.taken ++ h.smart.queue ≡ (if mode then [] else answers unit h.heard)
  pub freed : h.freed ≡ (if mode then h.heard else others unit h.heard)
  pub count : h.smart.responses_received ≡ length (answers unit h.heard)
  pub sorted : IsSorted h.smart.producers
  pub known :
      (k : ℕ)
      → ((v : ℕ) × (lookup k h.smart.producers ≡ some v))
        ↔ Elem k (map key_of_sender (answers unit h.heard))

module _ (unit : ℕ) (h : History) (m : Message) (t : Smart) where
  kept_answer :
      (mode : Bool)
      → Account unit mode h
      → Took h.smart t m
      → is_answer unit m ≡ true
      → h.taken ++ t.queue ≡ (if mode then [] else answers unit (h.heard ++ m ∷ []))
  kept_answer true a took yes' = ap (λ q. h.taken ++ q) (took.queue ∙ rw a.in_mode refl) ∙ a.kept
  kept_answer false a took yes' =
      ap (λ q. h.taken ++ q) (took.queue ∙ rw a.in_mode refl)
      ∙ sym (append_assoc h.taken h.smart.queue (m ∷ []))
      ∙ ap (λ xs. xs ++ m ∷ []) a.kept
      ∙ sym (answers-append unit h.heard m ∙ rw yes' refl)

  freed_answer :
      (mode : Bool)
      → Account unit mode h
      → is_answer unit m ≡ true
      → (if mode then h.freed ++ m ∷ [] else h.freed)
        ≡ (if mode then h.heard ++ m ∷ [] else others unit (h.heard ++ m ∷ []))
  freed_answer true a yes' = ap (λ xs. xs ++ m ∷ []) a.freed
  freed_answer false a yes' =
      a.freed ∙ sym (others-append unit h.heard m ∙ rw yes' (append-nil (others unit h.heard)))

  freed_other :
      (mode : Bool)
      → Account unit mode h
      → is_answer unit m ≡ false
      → h.freed ++ m ∷ [] ≡ (if mode then h.heard ++ m ∷ [] else others unit (h.heard ++ m ∷ []))
  freed_other true a no' = ap (λ xs. xs ++ m ∷ []) a.freed
  freed_other false a no' =
      ap (λ xs. xs ++ m ∷ []) a.freed ∙ sym (others-append unit h.heard m ∙ rw no' refl)

  answers_answer :
      is_answer unit m ≡ true → answers unit (h.heard ++ m ∷ []) ≡ answers unit h.heard ++ m ∷ []
  answers_answer yes' = answers-append unit h.heard m ∙ rw yes' refl

  answers_other : is_answer unit m ≡ false → answers unit (h.heard ++ m ∷ []) ≡ answers unit h.heard
  answers_other no' = answers-append unit h.heard m ∙ rw no' (append-nil (answers unit h.heard))

answer-Account :
    (unit : ℕ) (mode : Bool) (h : History) (now : ℕ) (m : Message)
    → Account unit mode h
    → is_answer unit m ≡ true
    → Account unit mode (noted h m (take_response h.smart now m))
answer-Account unit mode h now m a yes' =
    let r = take_response h.smart now m in
    let (freed, took) = take_response-Took h.smart now m in
    let more = answers_answer unit h m r.smart yes' in
    record {
      of_unit = took.unit ∙ a.of_unit;
      consuming = took.consuming ∙ a.consuming;
      in_mode = took.mode ∙ a.in_mode;
      kept = kept_answer unit h m r.smart mode a took yes';
      freed =
          ap (λ b. if b then h.freed ++ m ∷ [] else h.freed) (freed ∙ a.in_mode)
          ∙ freed_answer unit h m r.smart mode a yes';
      count = omega (
        arith,
        took.count,
        a.count,
        ap length more,
        length-append (answers unit h.heard) (m ∷ []),
      );
      sorted =
          subst IsSorted (sym took.producers)
            (assign-IsSorted (key_of_sender m) 0 h.smart.producers a.sorted);
      known = λ k.
          subst
            (λ p.
              ((v : ℕ) × (lookup k p ≡ some v))
              ↔ Elem k (map key_of_sender (answers unit (h.heard ++ m ∷ []))))
            (sym took.producers)
            (subst
              (λ ks.
                ((v : ℕ) × (lookup k (assign (key_of_sender m) 0 h.smart.producers) ≡ some v))
                ↔ Elem k ks)
              (sym (
                ap (map key_of_sender) more
                ∙ map-append key_of_sender (answers unit h.heard) (m ∷ [])))
              (known-assign k (key_of_sender m) h.smart.producers
                (map key_of_sender (answers unit h.heard)) (a.known k)));
    }

other-Account :
    (unit : ℕ) (mode : Bool) (h : History) (m : Message)
    → Account unit mode h
    → is_answer unit m ≡ false
    → Account unit mode (noted h m (record { smart = h.smart; freed = true; disinterest = none }))
other-Account unit mode h m a no' =
    let as_before = answers_other unit h m h.smart no' in
    record {
      of_unit = a.of_unit;
      consuming = a.consuming;
      in_mode = a.in_mode;
      kept = a.kept ∙ ap (λ xs. if mode then [] else xs) (sym as_before);
      freed = freed_other unit h m h.smart mode a no';
      count = a.count ∙ ap length (sym as_before);
      sorted = a.sorted;
      known = λ k.
          subst
            (λ xs.
              ((v : ℕ) × (lookup k h.smart.producers ≡ some v)) ↔ Elem k (map key_of_sender xs))
            (sym as_before) (a.known k);
    }

update-Account :
    (unit : ℕ) (mode : Bool) (h : History) (now : ℕ) (m : Message)
    → Account unit mode h
    → Account unit mode (noted h m (update h.smart now m))
update-Account unit mode h now m a = elim (Bool-cases (is_answer unit m)) [
  | inl yes' ↦
      rw (update-answer h.smart now m a.consuming (ap (λ u. is_answer u m) a.of_unit ∙ yes'))
        (answer-Account unit mode h now m a yes')
  | inr no' ↦
      rw (update-other h.smart now m a.consuming (ap (λ u. is_answer u m) a.of_unit ∙ no'))
        (other-Account unit mode h m a no')
]

taken-Account :
    (unit : ℕ) (mode : Bool) (h : History)
    → Account unit mode h
    → Account unit mode (given h (receive_response h.smart))
unfolding receive_response
taken-Account unit mode h a = go h.smart.queue refl
  where
    go :
        (q : List Message)
        → h.smart.queue ≡ q
        → Account unit mode (given h (receive_response h.smart))
    go [] e = rw (e, receive_response) a
    go (m ∷ rest) e =
        rw (e, receive_response)
          (record {
            of_unit = a.of_unit;
            consuming = a.consuming;
            in_mode = a.in_mode;
            kept = append_assoc h.taken (m ∷ []) rest ∙ ap (λ q. h.taken ++ q) (sym e) ∙ a.kept;
            freed = a.freed;
            count = a.count;
            sorted = a.sorted;
            known = a.known;
          })

step-Account :
    (unit : ℕ) (mode : Bool) (h : History) (c : Call)
    → Account unit mode h
    → Account unit mode (step h c)
unfolding step
step-Account unit mode h (hears now m) a = update-Account unit mode h now m a
step-Account unit mode h takes a = taken-Account unit mode h a

run-Account :
    (unit : ℕ) (mode : Bool) (h : History) (cs : List Call)
    → Account unit mode h
    → Account unit mode (run h cs)
unfolding run
run-Account unit mode h [] a = a
run-Account unit mode h (c ∷ cs) a =
    run-Account unit mode (step h c) cs (step-Account unit mode h c a)

first-Account :
    (unit value_size period now : ℕ) (refresh mode : Bool)
    → Account unit mode (newborn (consumer unit value_size period refresh mode now).0)
unfolding consumer answers others lookup
first-Account unit value_size period now refresh mode = record {
  of_unit = refl;
  consuming = refl;
  in_mode = refl;
  kept = elim mode as (λ b. ◌≡◌ {A = List Message} [] (if b then [] else [])) [
    | true ↦ refl
    | false ↦ refl
  ];
  freed = elim mode as (λ b. ◌≡◌ {A = List Message} [] (if b then [] else [])) [
    | true ↦ refl
    | false ↦ refl
  ];
  count = refl;
  sorted = tt;
  known = λ k. (λ (v, found). ground (arith, found), λ m. absurd m);
}

-- At any time of the life of a consumer, whatever it hears and whenever its application takes a
-- response: if it queues responses, those that were taken and then those in the queue are the
-- responses in its unit that it heard, each once and in their order, and every other message was
-- freed once; if it only keeps the value, every message was freed once and none is queued. The count
-- of responses is their number, and the vehicles known are those that sent one, each once.
pub responses_accounted :
    (unit value_size period now : ℕ) (refresh mode : Bool) (cs : List Call)
    → Account unit mode (run (newborn (consumer unit value_size period refresh mode now).0) cs)
responses_accounted unit value_size period now refresh mode cs =
    run-Account unit mode (newborn (consumer unit value_size period refresh mode now).0) cs
      (first-Account unit value_size period now refresh mode)
