-- ===== src/Scenarios/Witnesses.antt =====
-- The theorems on the shop.
use event_portal.Base.{pos, ◌+ℤ◌, arith, codes, [], refl, find, exists}
use event_portal.Store.{Uuid, OrderStatus}
use event_portal.Seats.{IsSound, held_in}
use event_portal.Order.Contract.{Fair}
use event_portal.Order.Checkout.{checkout}
use event_portal.Payment.Service.{
  handle_notification, refresh_status, expire_due_orders, apply_provider_result,
}
use event_portal.Payment.Settled.{OnlyLogged, apply_provider_result-OnlyLogged}
use event_portal.Adapters.{
  event_provider, payment_gateway, order_provider, quota_restorer, fulfillment,
}
use event_portal.Conservation.{
  Conserves, checkout-Conserves, expire_due_orders-Conserves, handle_notification-Conserves,
  refresh_status-Conserves,
}
use event_portal.Order.Evolution.{Evolves, Evolves-refl}
use event_portal.Lifecycle.{
  EvolvesBy, checkout-Evolves, expire_due_orders-Evolves, handle_notification-Evolves,
  refresh_status-Evolves,
}
use event_portal.Scenarios.{calm, shop, at_start, request, provider, closed, answer, ref, mute}

pub shop-IsSound : IsSound 1 (pos 10) (shop OrderStatus.pending [])
unfolding find held_in ◌+ℤ◌ exists
shop-IsSound = record { linked = (refl, tt); on_sale = omega arith; total = refl }

calm-Fair : Fair 1 (pos 10) calm
calm-Fair = record { conserve = λ _ _ s. s; keep = λ _ _ _ h. h; keep_items = λ _ _ _ _. refl }

mute-Conserves : (o : Uuid) → Conserves 1 (pos 10) (mute o)
mute-Conserves o w s = s

checkout-Conserves_example :
    IsSound 1
      (pos 10)
      (checkout calm
        (event_provider calm)
        (payment_gateway closed)
        request
        (at_start (shop OrderStatus.pending []))).1.db
checkout-Conserves_example =
    checkout-Conserves 1 (pos 10) calm closed request calm-Fair
      (at_start (shop OrderStatus.pending [])) shop-IsSound

expire_due_orders-Conserves_example :
    IsSound 1
      (pos 10)
      (expire_due_orders calm
        (order_provider calm)
        (quota_restorer calm)
        (at_start (shop OrderStatus.pending []))).1.db
expire_due_orders-Conserves_example =
    expire_due_orders-Conserves 1 (pos 10) calm (at_start (shop OrderStatus.pending []))
      shop-IsSound

handle_notification-Conserves_example :
    IsSound 1
      (pos 10)
      (handle_notification calm
        (order_provider calm)
        (quota_restorer calm)
        (fulfillment calm mute)
        provider
        (codes "midtrans")
        (codes "payload")
        (codes "signature")
        (at_start (shop OrderStatus.pending []))).1.db
handle_notification-Conserves_example =
    handle_notification-Conserves 1 (pos 10) calm mute provider (codes "midtrans") (codes "payload")
      (codes "signature") mute-Conserves (at_start (shop OrderStatus.pending [])) shop-IsSound

refresh_status-Conserves_example :
    IsSound 1
      (pos 10)
      (refresh_status calm
        (order_provider calm)
        (quota_restorer calm)
        (fulfillment calm mute)
        provider
        (codes "ORD-20060102-ABCDEF")
        (at_start (shop OrderStatus.pending []))).1.db
refresh_status-Conserves_example =
    refresh_status-Conserves 1 (pos 10) calm mute provider (codes "ORD-20060102-ABCDEF")
      mute-Conserves (λ _ _ s. s) (at_start (shop OrderStatus.pending [])) shop-IsSound

apply_provider_result-OnlyLogged_example :
    OnlyLogged
      (shop OrderStatus.expired [])
      (apply_provider_result calm
        (order_provider calm)
        (quota_restorer calm)
        (fulfillment calm mute)
        ref
        (codes "midtrans")
        answer
        (at_start (shop OrderStatus.expired []))).1.db
unfolding find
apply_provider_result-OnlyLogged_example =
    apply_provider_result-OnlyLogged calm (quota_restorer calm) (fulfillment calm mute) ref
      (codes "midtrans") answer (at_start (shop OrderStatus.expired [])) refl

mute-Evolves : (o : Uuid) → EvolvesBy (mute o)
mute-Evolves o w = Evolves-refl w.db.orders

checkout-Evolves_example :
    Evolves
      (shop OrderStatus.paid []).orders
      (checkout calm
        (event_provider calm)
        (payment_gateway closed)
        request
        (at_start (shop OrderStatus.paid []))).1.db.orders
checkout-Evolves_example =
    checkout-Evolves calm closed request (λ _ d. Evolves-refl d.orders)
      (at_start (shop OrderStatus.paid []))

expire_due_orders-Evolves_example :
    Evolves
      (shop OrderStatus.pending []).orders
      (expire_due_orders calm
        (order_provider calm)
        (quota_restorer calm)
        (at_start (shop OrderStatus.pending []))).1.db.orders
expire_due_orders-Evolves_example =
    expire_due_orders-Evolves calm (at_start (shop OrderStatus.pending []))

handle_notification-Evolves_example :
    Evolves
      (shop OrderStatus.pending []).orders
      (handle_notification calm
        (order_provider calm)
        (quota_restorer calm)
        (fulfillment calm mute)
        provider
        (codes "midtrans")
        (codes "payload")
        (codes "signature")
        (at_start (shop OrderStatus.pending []))).1.db.orders
handle_notification-Evolves_example =
    handle_notification-Evolves calm mute provider (codes "midtrans") (codes "payload")
      (codes "signature") mute-Evolves (at_start (shop OrderStatus.pending []))

refresh_status-Evolves_example :
    Evolves
      (shop OrderStatus.pending []).orders
      (refresh_status calm
        (order_provider calm)
        (quota_restorer calm)
        (fulfillment calm mute)
        provider
        (codes "ORD-20060102-ABCDEF")
        (at_start (shop OrderStatus.pending []))).1.db.orders
refresh_status-Evolves_example =
    refresh_status-Evolves calm mute provider (codes "ORD-20060102-ABCDEF") mute-Evolves
      (λ _ d. Evolves-refl d.orders) (at_start (shop OrderStatus.pending []))
