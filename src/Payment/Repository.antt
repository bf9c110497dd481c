-- ===== src/Payment/Repository.antt =====
-- backend/internal/payment/repository.go and paymentsql/payment.sql.go: the payments table is a
-- log, one row for each answer of the provider.
use event_portal.Base.{Text, is_empty, exists, ◌==◌, if◌then◌else◌, none, some, ◌∷◌}
use event_portal.Errors.{errorf, pg, Failure}
use event_portal.Store.{Db, Uuid, Payment}
use event_portal.Effect.{Env, Result, ok, err, M, statement, map_error, pure, ◌>>◌}

pub record PaymentLog : Type 0 where
  pub order_id : Uuid
  pub provider : Text
  pub transaction_id : Text
  pub payment_type : Text
  pub status : Text
  pub raw_response : Text

abbrev pub payment_row : Uuid → PaymentLog → Payment
payment_row u l = record {
  id = u;
  order_id = l.order_id;
  provider = l.provider;
  transaction_id = l.transaction_id;
  payment_type = if is_empty l.payment_type then none else some l.payment_type;
  status = l.status;
  raw_response = l.raw_response;
}

unfoldable pub insert_payment : PaymentLog → Uuid → Db → Result Payment × Db
insert_payment l u d =
    if exists (λ p. p.id == u) d.payments
    then (err (pg Failure.unique_violation), d)
    else (if exists (λ o. o.id == l.order_id) d.orders
        then (ok (payment_row u l), record d { payments = payment_row u l ∷ d.payments })
        else (err (pg Failure.foreign_key_violation), d))

module _ (e : Env) where
  unfoldable pub create_payment : PaymentLog → M (Unit {0})
  unfolding insert_payment
  create_payment l = do map_error errorf (statement e (λ u _ d. insert_payment l u d)); pure tt
