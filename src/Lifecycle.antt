-- ===== src/Lifecycle.antt =====
-- The program as backend/cmd/api/main.go wires it: no request loses an order, rewrites its number
-- or amount, or moves it anywhere but on from PENDING. `send` is the notification service's
-- SendTicketEmail.
use event_portal.Base.{ℕ, Text, List}
use event_portal.Store.{Db, Uuid, Order}
use event_portal.Effect.{Env, World, M}
use event_portal.Effect.Keeps.{Keeps, Keeps-run}
use event_portal.Order.Evolution.{Evolves, Evolved, Evolves-trans, Evolves-refl}
use event_portal.Order.Request.{CheckoutRequest}
use event_portal.Order.Checkout.{checkout}
use event_portal.Order.Progress.{checkout-Keeps}
use event_portal.Payment.Gateway.{Gateway}
use event_portal.Payment.Service.{handle_notification, refresh_status, expire_due_orders}
use event_portal.Payment.Progress.{
  handle_notification-Keeps, refresh_status-Keeps, expire_due_orders-Keeps,
}
use event_portal.Adapters.{
  event_provider, payment_gateway, order_provider, quota_restorer, fulfillment,
}
use event_portal.Effect.Laws.{always-Ends}

-- The other requests lose no order and take none back.
abbrev pub EvolvesMeanwhile : Env → Type 0
EvolvesMeanwhile e = (n : ℕ) (d : Db) → Evolves d.orders (e.others n d).orders

abbrev pub EvolvesBy : {A : Type 0} → M A → Type 0
EvolvesBy m = (w : World) → Evolves w.db.orders (m w).1.db.orders

meanwhile :
    (e : Env) (before : List Order)
    → EvolvesMeanwhile e
    → (n : ℕ) (d : Db) → Evolved before d
    → Evolved before (e.others n d)
meanwhile e before fair n d v = Evolves-trans before d.orders (e.others n d).orders v (fair n d)

sent :
    (before : List Order) (send : Uuid → M (Unit {0}))
    → ((o : Uuid) → EvolvesBy (send o))
    → (o : Uuid) → Keeps (Evolved before) (send o)
sent before send evolves o = record {
  keep =
      λ w h. always-Ends (Evolves-trans before w.db.orders (send o w).1.db.orders h (evolves o w));
}

-- Checkout: every order that was there is there afterwards, with its number and amount, and its
-- status is the one before or one that PENDING may become, however the checkout ended. The same is
-- assumed of the requests that run while the provider answers.
pub checkout-Evolves :
    (e : Env) (g : Gateway) (req : CheckoutRequest)
    → EvolvesMeanwhile e
    → (w : World)
    → Evolves w.db.orders (checkout e (event_provider e) (payment_gateway g) req w).1.db.orders
checkout-Evolves e g req fair w =
    Keeps-run (checkout-Keeps w.db.orders e (payment_gateway g) (meanwhile e w.db.orders fair) req)
      w (Evolves-refl w.db.orders)

-- The expiry sweep keeps every order, with its number and amount, and moves none but on from
-- PENDING.
pub expire_due_orders-Evolves :
    (e : Env) (w : World)
    → Evolves w.db.orders (expire_due_orders e (order_provider e) (quota_restorer e) w).1.db.orders
expire_due_orders-Evolves e w =
    Keeps-run (expire_due_orders-Keeps w.db.orders e) w (Evolves-refl w.db.orders)

-- A provider notification keeps every order, with its number and amount, and moves none but on
-- from PENDING, if sending the ticket email does.
pub handle_notification-Evolves :
    (e : Env) (send : Uuid → M (Unit {0})) (g : Gateway) (provider payload signature : Text)
    → ((o : Uuid) → EvolvesBy (send o))
    → (w : World)
    → Evolves w.db.orders
        (handle_notification e
          (order_provider e)
          (quota_restorer e)
          (fulfillment e send)
          g
          provider
          payload
          signature
          w).1.db.orders
handle_notification-Evolves e send g provider payload signature evolves w =
    Keeps-run
      (handle_notification-Keeps w.db.orders e send (sent w.db.orders send evolves) g provider
        payload signature)
      w (Evolves-refl w.db.orders)

-- A status refresh keeps every order, with its number and amount, and moves none but on from
-- PENDING, if sending the ticket email and the requests that run while the provider answers do.
pub refresh_status-Evolves :
    (e : Env) (send : Uuid → M (Unit {0})) (g : Gateway) (number : Text)
    → ((o : Uuid) → EvolvesBy (send o))
    → EvolvesMeanwhile e
    → (w : World)
    → Evolves w.db.orders
        (refresh_status e
          (order_provider e)
          (quota_restorer e)
          (fulfillment e send)
          g
          number
          w).1.db.orders
refresh_status-Evolves e send g number evolves fair w =
    Keeps-run
      (refresh_status-Keeps w.db.orders e send (sent w.db.orders send evolves) g
        (meanwhile e w.db.orders fair) number)
      w (Evolves-refl w.db.orders)
