-- ===== src/Payment/Contract.antt =====
-- What the payment domain relies on: reads that touch no table, the order domain's guarded
-- transition, and fulfilment that moves no seat.
use event_portal.Base.{ℕ, ℤ, pos, ◌+ℤ◌, ◌-ℤ◌, Text, if◌then◌else◌, List, [], ◌∷◌, ◌≡◌}
use event_portal.Store.{Db, Uuid, Time, OrderStatus, is_holding}
use event_portal.Effect.{World, M}
use event_portal.Effect.Laws.{Ends}
use event_portal.Seats.{share, items_in, IsSound}
use event_portal.Order.Seats.{given_back}
use event_portal.Payment.Gateway.{LineItem, OrderProvider, Fulfillment}

-- A call that keeps what is known of the tables, however it ends.
abbrev pub Reads : {A : Type 0} → M A → Type 1
Reads m = (P : Db → Type 0) (w : World) → P w.db → Ends (λ _. P) P m w

abbrev pub line_seats : Uuid → List LineItem → ℤ
line_seats t [] = pos 0
line_seats t (i ∷ is) = share i.ticket_type_id i.quantity t +ℤ line_seats t is

pub record OrderContract (orders : OrderProvider) : Type 1 where
  pub reads_order : (n : Text) → Reads (orders.order_by_number n)
  pub reads_due : (at : Time) (n : ℕ) → Reads (orders.due_for_expiry at n)
  pub lists_items :
      (t o : Uuid) (P : Db → Type 0) (w : World)
      → P w.db
      → Ends
          (λ items d. P d × (line_seats t items ≡ items_in t o d.order_items))
          P
          (orders.line_items o)
          w
  pub moves :
      (t : Uuid) (c : ℤ) (o : Uuid) (n : ℤ) (s : OrderStatus) (w : World)
      → IsSound t c w.db
      → items_in t o w.db.order_items ≡ n
      → Ends
          (λ applied d.
            IsSound t (c -ℤ (if applied then given_back (is_holding s) n else pos 0)) d
            × (items_in t o d.order_items ≡ n))
          (λ _. Unit)
          (orders.update_status_if_pending o s)
          w

-- The work after a payment moves no seat of the ticket type.
pub record SeatNeutral (t : Uuid) (c : ℤ) (work : Fulfillment) : Type 0 where
  pub issues :
      (o : Uuid) (w : World)
      → IsSound t c w.db
      → Ends (λ _. IsSound t c) (IsSound t c) (work.issue_tickets_for_order o) w
  pub delivers :
      (o : Uuid) (w : World)
      → IsSound t c w.db
      → Ends (λ _. IsSound t c) (IsSound t c) (work.send_ticket_email o) w
