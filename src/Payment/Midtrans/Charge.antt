-- ===== src/Payment/Midtrans/Charge.antt =====
-- What a charge and a status query return, and the amounts that the provider is sent.
use event_portal.Base.{
  ℕ, ◌+◌, ◌*◌, ◌==◌, ◌&&◌, ◌||◌, not, ℤ, pos, ◌+ℤ◌, ◌*ℤ◌, Text, text_eq, codes, is_empty, Bool,
  true, false, Option, none, some, List, [], ◌∷◌, map, ◌≡◌, refl, ap, ◌⊎◌, inl, inr, Bool-cases,
  Each, arith, int_laws, ◌++◌,
}
use event_portal.Errors.{Error, Sentinel, errors_is, errorf}
use event_portal.Payment.Midtrans.Webhook.{ResultIs}
use event_portal.Store.{Cents}
use event_portal.Effect.{Result, ok, err}
use event_portal.Payment.Gateway.{TransactionItem, TransactionRequest, WebhookResult}
use event_portal.Payment.Midtrans.{
  Api, Response, StatusResponse, ItemDetail, to_rupiah, item_detail, charge_request, is_success,
  starts_with_2, read_status, fetch_status,
}

-- The sum of the items, as the provider computes it, and as the program does.
abbrev pub item_sum : List ItemDetail → ℤ
item_sum [] = pos 0
item_sum (i ∷ is) = i.price *ℤ i.quantity +ℤ item_sum is

abbrev pub price_sum : List TransactionItem → Cents
price_sum [] = pos 0
price_sum (i ∷ is) = i.price *ℤ i.quantity +ℤ price_sum is

-- A price in whole rupiah, and a quantity that is not negative.
abbrev pub Whole : TransactionItem → Type 0
Whole i = (r : ℕ) × ((q : ℕ) × ((i.price ≡ pos (100 * r)) × (i.quantity ≡ pos q)))

pos_mul : (a b : ℕ) → pos a *ℤ pos b ≡ pos (a * b)
unfolding ◌*ℤ◌
pos_mul a b = ground arith

pos_add : (a b : ℕ) → pos a +ℤ pos b ≡ pos (a + b)
pos_add a b = omega int_laws

whole_rupiah : (k : ℕ) → to_rupiah (pos (100 * k)) ≡ pos k
unfolding to_rupiah
whole_rupiah k = ap pos (omega arith)

hundred : (r q k : ℕ) → 100 * r * q + 100 * k ≡ 100 * (r * q + k)
hundred r q k = omega arith

-- Both sums of whole prices, in hundredths and in rupiah.
Whole-sums :
    (items : List TransactionItem)
    → Each Whole items
    → (k : ℕ) × ((price_sum items ≡ pos (100 * k)) × (item_sum (map item_detail items) ≡ pos k))
unfolding item_detail
Whole-sums [] h = (0, (refl, refl))
Whole-sums (i ∷ is) ((r, (q, (price, quantity))), more) =
    let (k, (cents, rupiah)) = Whole-sums is more in
    (
      r * q + k,
      (
        rw (price, quantity, cents, pos_mul, pos_add) (ap pos (hundred r q k)),
        rw (price, quantity, rupiah, whole_rupiah, pos_mul, pos_add) refl,
      ),
    )

-- Where every price is in whole rupiah and the amount of the order is the sum of its lines, the
-- charge's item prices times their quantities sum to its gross amount, as the provider demands.
pub charge_request_balanced :
    (expiry : ℕ) (r : TransactionRequest)
    → Each Whole r.items
    → r.gross_amount ≡ price_sum r.items
    → item_sum (charge_request expiry r).item_details ≡ (charge_request expiry r).gross_amount
unfolding charge_request
charge_request_balanced expiry r whole total =
    let (k, (cents, rupiah)) = Whole-sums r.items whole in
    rw (total, cents, whole_rupiah, rupiah) refl

-- An answer to a status query that counts: both status codes say success, or the body's is missing.
abbrev pub Answered : StatusResponse → ℕ → Type 0
Answered p status =
    ((status == 404 || text_eq p.status_code (codes "404")) ≡ false)
    × ((is_success status ≡ true)
        × ((not (is_empty p.status_code) && not (starts_with_2 p.status_code)) ≡ false))

abbrev pub says_unknown : StatusResponse → ℕ → Bool
says_unknown p status = status == 404 || text_eq p.status_code (codes "404")

module _ (api : Api) (number : Text) (n : ℕ) where
  -- What the provider sent back to the query for the order number.
  abbrev pub Received : Response → StatusResponse → Type 0
  Received answer p =
      (api.status (codes "/v2/" ++ (api.path_escape number ++ codes "/status")) n ≡ ok answer)
      × (api.decode_status answer.raw ≡ some p)

  abbrev pub Reported : WebhookResult → Type 0
  Reported r =
      (answer : Response) × ((p : StatusResponse) × (Received answer p
          × (Answered p answer.status
              × (r ≡ record {
                order_number = p.order_id;
                transaction_id = p.transaction_id;
                transaction_status = p.transaction_status;
                fraud_status = p.fraud_status;
                payment_type = p.payment_type;
                raw_payload = answer.raw;
              }))))

  -- The exchange took place, and what came back does not decode or says a failure other than 404.
  abbrev pub Unanswered : Type 0
  Unanswered =
      (answer : Response) × ((api.status
            (codes "/v2/" ++ (api.path_escape number ++ codes "/status")) n
          ≡ ok answer)
        × ((api.decode_status answer.raw ≡ none)
            ⊎ ((p : StatusResponse) × ((api.decode_status answer.raw ≡ some p)
                  × ((says_unknown p answer.status ≡ false)
                      × ((is_success answer.status ≡ false)
                          ⊎ ((not (is_empty p.status_code) && not (starts_with_2 p.status_code))
                              ≡ true)))))))

  -- An unknown order, an error of the exchange itself, or another error.
  abbrev pub NotReported : Error → Type 0
  NotReported x =
      ((errors_is x Sentinel.payment_order_not_found ≡ true)
        × ((answer : Response) × ((p : StatusResponse) × (Received answer p
                × (says_unknown p answer.status ≡ true)))))
      ⊎ (((y : Error) × ((api.status (codes "/v2/" ++ (api.path_escape number ++ codes "/status")) n
                ≡ err y)
              × (x ≡ errorf y)))
          ⊎ ((errors_is x Sentinel.payment_order_not_found ≡ false) × Unanswered))

  read-Received :
      (answer : Response) (o : Option StatusResponse)
      → (api.status (codes "/v2/" ++ (api.path_escape number ++ codes "/status")) n ≡ ok answer)
      → api.decode_status answer.raw ≡ o
      → ResultIs Reported NotReported (read_status answer.raw answer.status o)
  unfolding read_status
  read-Received answer none sent got = inr (inr (refl, (answer, (sent, inl got))))
  read-Received answer (some p) sent got = elim (Bool-cases (says_unknown p answer.status)) [
    | inl unknown ↦ rw unknown (inl (refl, (answer, (p, ((sent, got), unknown)))))
    | inr known ↦ elim (Bool-cases (is_success answer.status)) [
      | inr failed ↦
          rw (known, failed)
            (inr (inr (refl, (answer, (sent, inr (p, (got, (known, inl failed))))))))
      | inl success ↦
          elim (Bool-cases (not (is_empty p.status_code) && not (starts_with_2 p.status_code))) [
            | inl denied ↦
                rw (known, success, denied)
                  (inr (inr (refl, (answer, (sent, inr (p, (got, (known, inr denied))))))))
            | inr fine ↦
                rw (known, success, fine)
                  (answer, (p, ((sent, got), ((known, (success, fine)), refl))))
          ]
    ]
  ]

  read_answer :
      (r : Result Response)
      → api.status (codes "/v2/" ++ (api.path_escape number ++ codes "/status")) n ≡ r
      → ResultIs Reported NotReported (elim r [
        | err x ↦ err (errorf x)
        | ok answer ↦ read_status answer.raw answer.status (api.decode_status answer.raw)
      ])
  read_answer (err x) got = inr (inl (x, (got, refl)))
  read_answer (ok answer) got = read-Received answer (api.decode_status answer.raw) got refl

  -- A status query returns all of the provider's fields and the raw body, and only where the HTTP
  -- status says success and the status code in the body does so or is missing. It reports an unknown
  -- order only where one of the two is 404, also under HTTP 200, or where the exchange itself failed
  -- with that error. Every other error is of the exchange, or of an answer that does not decode or
  -- says another failure, and is then not taken for an unknown order.
  pub fetch_status_outcome : ResultIs Reported NotReported (fetch_status api number n)
  unfolding fetch_status
  fetch_status_outcome =
      read_answer (api.status (codes "/v2/" ++ (api.path_escape number ++ codes "/status")) n) refl
