-- ===== src/Order/Contract.antt =====
-- What checkout and payment rely on: that the event domain's quota contract moves seats as it
-- says, and that other requests keep the seats of a ticket type in order while a provider answers.
use event_portal.Base.{ℕ, ℤ, ◌+ℤ◌, ◌-ℤ◌, true, List, exists, ◌==◌, ◌≡◌}
use event_portal.Store.{Db, Uuid, Order, OrderItem}
use event_portal.Effect.{Env, World, M}
use event_portal.Effect.Laws.{Ends}
use event_portal.Seats.{share, items_in, IsSound, Sound}
use event_portal.Order.Provider.{EventProvider}

abbrev pub Restores : (Uuid → ℤ → M (Unit {0})) → Type 1
Restores restore_quota =
    (t : Uuid) (c : ℤ) (F : List Order → List OrderItem → Type 0) (i : Uuid) (qty : ℤ)
    (E : Db → Type 0) (w : World)
    → E w.db
    → Sound t c F w.db
    → Ends (λ _. Sound t (c +ℤ share i qty t) F) E (restore_quota i qty) w

pub record SeatContract (events : EventProvider) : Type 1 where
  pub reads :
      (t : Uuid) (c : ℤ) (F : List Order → List OrderItem → Type 0) (i : Uuid) (w : World)
      → Sound t c F w.db
      → Ends (λ _. Sound t c F) (λ _. Unit) (events.ticket_type_for_checkout i) w
  pub deducts :
      (t : Uuid) (c : ℤ) (F : List Order → List OrderItem → Type 0) (i : Uuid) (qty : ℤ)
      (E : Db → Type 0) (w : World)
      → E w.db
      → Sound t c F w.db
      → Ends (λ _. Sound t (c -ℤ share i qty t) F) E (events.check_and_deduct_quota i qty) w
  pub restores : Restores events.restore_quota

-- The other requests conserve the seats of the ticket type, and never delete an order or rewrite
-- its items.
pub record Fair (t : Uuid) (c : ℤ) (e : Env) : Type 0 where
  pub conserve : (n : ℕ) (d : Db) → IsSound t c d → IsSound t c (e.others n d)
  pub keep :
      (n : ℕ) (d : Db) (o : Uuid)
      → exists (λ x. x.id == o) d.orders ≡ true
      → exists (λ x. x.id == o) (e.others n d).orders ≡ true
  pub keep_items :
      (n : ℕ) (d : Db) (o : Uuid)
      → exists (λ x. x.id == o) d.orders ≡ true
      → items_in t o (e.others n d).order_items ≡ items_in t o d.order_items
