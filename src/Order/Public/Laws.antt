-- ===== src/Order/Public/Laws.antt =====
-- When a guest is shown how to pay, and when the expiry sweep takes the order.
use event_portal.Base.{
  ℕ, ltb, leb, if◌then◌else◌, Text, is_empty, true, false, Option, none, some, find_by, ◌≡◌, refl,
  sym, ◌⊎◌, ◌↔◌, inl, inr, Bool-cases, Option-cases, arith, absurd_bool, none-some, some_value,
}
use event_portal.Errors.{not_found_error, Code}
use event_portal.Store.{Time, Order, is_pending}
use event_portal.Effect.{Env, World}
use event_portal.Effect.Outcome.{
  OutcomeAt, pure-Outcome, throw-Outcome, >>=-Outcome, map_error-Outcome, query_row-Outcome,
  now-Outcome,
}
use event_portal.Order.Sql
use event_portal.Order.Sql.{has_number, is_due}
use event_portal.Order.Repository
use event_portal.Order.Public.{
  PaymentInstruction, instruction, instruction_until, payment_instruction, payment_qr_payload,
}
use event_portal.Order.Lookup.{EventLookup}
use event_portal.Event.Admin.Restrict.{down}

-- The order is PENDING with a payload that is not empty and a deadline ahead.
abbrev pub Payable : Order → Time → Text → Time → Type 0
Payable o at qr deadline =
    (is_pending o.status ≡ true)
    × (((o.payment_qr_string ≡ some qr) × (is_empty qr ≡ false))
        × ((o.payment_expires_at ≡ some deadline) × (ltb at deadline ≡ true)))

until_shown :
    (o : Order) (at : Time) (qr : Option Text) (deadline : Option Time) (p : PaymentInstruction)
    → instruction_until o at qr deadline ≡ some p
    → (t : Text) × ((u : Time) × (((qr ≡ some t) × (is_empty t ≡ false))
          × (((deadline ≡ some u) × (ltb at u ≡ true)) × (p ≡ instruction o u))))
unfolding instruction_until
until_shown o at none deadline p h = absurd (none-some h)
until_shown o at (some t) none p h = absurd (none-some h)
until_shown o at (some t) (some u) p h = elim (Bool-cases (is_empty t)) [
  | inl blank ↦ absurd (none-some (rw blank at h))
  | inr filled ↦ elim (Bool-cases (ltb at u)) [
    | inr past ↦ absurd (none-some (rw (filled, past) at h))
    | inl ahead ↦ (
      t,
      (
        u,
        (
          (refl, filled),
          ((refl, ahead), sym (some_value p (instruction o u) p (rw (filled, ahead) at h))),
        ),
      ),
    )
  ]
]

-- A guest is shown how to pay exactly while the order is PENDING, has a payload that is not empty,
-- and its deadline is still ahead; what is shown has the order's amount and that deadline.
pub payment_instruction-Payable :
    (o : Order) (at : Time) (p : PaymentInstruction)
    → (payment_instruction o at ≡ some p) ↔ (
        (qr : Text) × ((deadline : Time) × (Payable o at qr deadline
            × (p ≡ instruction o deadline))))
unfolding payment_instruction instruction_until
payment_instruction-Payable o at p = (shown, shows)
  where
    shown :
        (if is_pending o.status
            then instruction_until o at o.payment_qr_string o.payment_expires_at
            else none)
          ≡ some p
        → (qr : Text) × ((deadline : Time) × (Payable o at qr deadline
              × (p ≡ instruction o deadline)))
    shown h = elim (Bool-cases (is_pending o.status)) [
      | inr settled ↦ absurd (none-some (rw settled at h))
      | inl open' ↦
          let (t, (u, (payload, (ahead, same)))) =
            until_shown o at o.payment_qr_string o.payment_expires_at p (rw open' at h) in
          (t, (u, ((open', (payload, ahead)), same)))
    ]

    shows :
        (qr : Text) × ((deadline : Time) × (Payable o at qr deadline
              × (p ≡ instruction o deadline)))
        → (if is_pending o.status
            then instruction_until o at o.payment_qr_string o.payment_expires_at
            else none)
          ≡ some p
    shows (t, (u, ((open', ((payload, filled), (deadline, ahead))), same))) =
        rw (open', payload, deadline, filled, ahead, same) refl

not_passed : (at deadline : ℕ) → ltb at deadline ≡ true → leb deadline at ≡ false
not_passed at deadline h = ground arith

passed : (at deadline : ℕ) → ltb at deadline ≡ false → leb deadline at ≡ true
passed at deadline h = ground arith

-- Of an order that is PENDING and has a payload and a deadline, the guest is shown how to pay
-- exactly as long as the expiry sweep does not take it: at no moment both, at no moment neither.
pub payment_instruction-is_due :
    (o : Order) (at : Time) (qr : Text) (deadline : Time)
    → is_pending o.status ≡ true
    → (o.payment_qr_string ≡ some qr) × (is_empty qr ≡ false)
    → o.payment_expires_at ≡ some deadline
    → (payment_instruction o at ≡ none) ↔ (is_due at o ≡ true)
unfolding payment_instruction instruction_until
payment_instruction-is_due o at qr deadline open' (payload, filled) until =
    elim (Bool-cases (ltb at deadline)) [
      | inl ahead ↦
          rw (open', payload, until, filled, ahead, open', not_passed at deadline ahead)
            ((λ h. absurd (none-some (sym h))), (λ h. absurd_bool h))
      | inr past ↦
          rw (open', payload, until, filled, past, open', passed at deadline past)
            ((λ _. refl), (λ _. refl))
    ]

module _ (e : Env) (events : EventLookup) (number : Text) where
  -- The payload of an order's QR code is given out exactly as long as the page of the order shows
  -- how to pay, by the clock of the request: it is the stored one of an order that is payable then.
  -- An order that is not payable and an order number that no order has are refused alike, with 404;
  -- the only other error is a database that does not answer. No table changes.
  pub payment_qr_payload_lem :
      (w : World)
      → OutcomeAt
          (λ qr d.
            ((o : Order) × ((n : ℕ) × ((deadline : Time) × ((find_by (has_number number) w.db.orders
                      ≡ some o)
                    × Payable o (e.now n) qr deadline))))
            × (d ≡ w.db))
          (λ x d.
            ((x ≡ down)
              ⊎ ((x ≡ not_found_error Code.order_not_found)
                  × ((find_by (has_number number) w.db.orders ≡ none)
                      ⊎ ((o : Order) × ((n : ℕ) × ((find_by (has_number number) w.db.orders
                                ≡ some o)
                              × (payment_instruction o (e.now n) ≡ none)))))))
            × (d ≡ w.db))
          (payment_qr_payload e events number w)
  unfolding payment_qr_payload Repository.get_order_by_number Sql.get_order_by_number
  payment_qr_payload_lem w =
      (>>=-Outcome (λ o d. (find_by (has_number number) w.db.orders ≡ some o) × (d ≡ w.db))
        (map_error-Outcome _ (
          map_error-Outcome _ (
            query_row-Outcome e _ (inl refl, refl) (λ missing. (inr (refl, inl missing), refl))
              (λ o found. (found, refl)))))
        (λ o w₁ (found, same₁).
          >>=-Outcome (λ at d. ((n : ℕ) × (at ≡ e.now n)) × (d ≡ w.db))
            (now-Outcome e (λ n. ((n, refl), same₁)))
            (λ at w₂ ((n, clock), same₂). elim (Option-cases (payment_instruction o at)) [
              | inl hidden ↦
                  rw hidden (
                    throw-Outcome _
                      (inr (refl, inr (o, (n, (found, (rw clock at hidden))))), same₂))
              | inr (p, shown) ↦
                  let (qr, (deadline, (payable, same))) =
                    (payment_instruction-Payable o at p).0 shown in
                  rw (shown, payable.1.0.0)
                    (pure-Outcome _ ((o, (n, (deadline, (found, (rw clock at payable))))), same₂))
            ]))).end
