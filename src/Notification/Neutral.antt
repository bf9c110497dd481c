-- ===== src/Notification/Neutral.antt =====
-- Sending the ticket email moves no seat and no order's status, so that the work after a payment
-- does neither with the notification service in it.
use event_portal.Base.{
  none-some, ℕ, ℤ, Text, ◌==◌, true, some, none, List, [], ◌∷◌, find, update, ◌≡◌, refl, sym, inl,
  inr, Bool-cases, Option-cases,
}
use event_portal.Errors.{Error}
use event_portal.Store.{Db, Uuid, Order}
use event_portal.Effect.{Env, World, Result, ok, err}
use event_portal.Effect.Outcome.{OutcomeAt}
use event_portal.Seats.{IsSound}
use event_portal.Order.Sql.{order_id, update_row}
use event_portal.Order.Seats.{update_row-Sound}
use event_portal.Order.Evolution.{
  Evolves, Evolved, Evolves-trans, Evolves-refl, update_row-Evolved, StatusStep,
}
use event_portal.Notification.Service.{Mailer}
use event_portal.Notification.Delivery.{flagged, send_ticket_email_lem}
use event_portal.Payment.Gateway.{Gateway}
use event_portal.Payment.Service.{handle_notification}
use event_portal.Conservation.{handle_notification-Conserves}
use event_portal.Lifecycle.{EvolvesMeanwhile, EvolvesBy, handle_notification-Evolves}
use event_portal.Adapters.{order_provider, quota_restorer, fulfillment, send_ticket_email}

outcome_always :
    {A : Type 0} {Q : A → Db → Type 0} {E : Error → Db → Type 0} (P : Db → Type 0)
    (r : Result A × World)
    → OutcomeAt Q E r
    → ((a : A) (d : Db) → Q a d → P d)
    → ((x : Error) (d : Db) → E x d → P d)
    → P r.1.db
outcome_always P (ok a, w) h k l = k a w.db h
outcome_always P (err x, w) h k l = l x w.db h

update_missing :
    (i : Uuid) (f : Order → Order) (os : List Order)
    → find order_id i os ≡ none
    → update order_id i f os ≡ os
unfolding find update
update_missing i f [] h = refl
update_missing i f (o ∷ os) h = elim (Bool-cases (o.id == i)) [
  | inl here ↦ absurd (none-some (sym (rw here at h)))
  | inr other ↦ rw (other, update_missing i f os (rw other at h)) refl
]

flagged_missing : (i : Uuid) (d : Db) → find order_id i d.orders ≡ none → flagged i d ≡ d
flagged_missing i d h = rw (update_missing i _ d.orders h) refl

flagged-IsSound : (t : Uuid) (c : ℤ) (i : Uuid) (d : Db) → IsSound t c d → IsSound t c (flagged i d)
unfolding update_row
flagged-IsSound t c i d s = elim (Option-cases (find order_id i d.orders)) [
  | inl missing ↦ rw (flagged_missing i d missing) s
  | inr (x, found) ↦ update_row-Sound t c i _ d (λ _. refl) (λ _. refl) s (some x) found
]

flagged-Evolved :
    (before : List Order) (i : Uuid) (d : Db) → Evolved before d → Evolved before (flagged i d)
unfolding update_row
flagged-Evolved before i d v = elim (Option-cases (find order_id i d.orders)) [
  | inl missing ↦ rw (update_missing i (λ o. record o { email_sent = true }) d.orders missing) v
  | inr (x, found) ↦
      update_row-Evolved before i _ d (some x) (λ _. refl)
        (λ r. record { step = StatusStep.stay r.status; number = refl; amount = refl }) found v
]

module _ (e : Env) (mailer : Mailer) where
  -- What the other requests keep, and setting the flag, sending the email keeps.
  send_ticket_email-keeps :
      (P : Db → Type 0)
      → ((n : ℕ) (d : Db) → P d → P (e.others n d))
      → ((i : Uuid) (d : Db) → P d → P (flagged i d))
      → (i : Uuid) (w : World) → P w.db
      → P (send_ticket_email e mailer i w).1.db
  send_ticket_email-keeps P fair flag i w h =
      outcome_always P (send_ticket_email e mailer i w) (send_ticket_email_lem e mailer i w)
        (λ _ d (o, (deliverable, (n, (answered, (w₁, (same, which)))))). elim which [
          | inl (done, set) ↦ rw set (flag i _ (fair n w.db h))
          | inr (y, (failed, unset)) ↦ rw unset (fair n w.db h)
        ])
        (λ x d failed. elim failed [
          | inl (why, still) ↦ rw still h
          | inr (o, (deliverable, (n, (answered, still)))) ↦ rw still (fair n w.db h)
        ])

  -- A provider notification with the ticket email that the notification service sends: it conserves
  -- the seats of every ticket type, and loses no order and moves none but on from PENDING, if the
  -- requests that run while the mail server answers do so.
  pub handle_notification-delivered :
      (t : Uuid) (c : ℤ) (g : Gateway) (provider payload signature : Text)
      → ((n : ℕ) (d : Db) → IsSound t c d → IsSound t c (e.others n d))
      → EvolvesMeanwhile e
      → (w : World) → IsSound t c w.db
      → let after =
          (handle_notification e
            (order_provider e)
            (quota_restorer e)
            (fulfillment e (send_ticket_email e mailer))
            g
            provider
            payload
            signature
            w).1.db in
        IsSound t c after × Evolves w.db.orders after.orders
  handle_notification-delivered t c g provider payload signature fair evolves w s = (
    handle_notification-Conserves t c e (send_ticket_email e mailer) g provider payload signature
        (λ i. send_ticket_email-keeps (IsSound t c) fair (flagged-IsSound t c) i) w s,
    handle_notification-Evolves e (send_ticket_email e mailer) g provider payload signature
        (send-EvolvesBy evolves) w,
  )
    where
      send-EvolvesBy : EvolvesMeanwhile e → (i : Uuid) → EvolvesBy (send_ticket_email e mailer i)
      send-EvolvesBy evolves i w' =
          send_ticket_email-keeps (Evolved w'.db.orders)
            (λ n d v. Evolves-trans w'.db.orders d.orders (e.others n d).orders v (evolves n d))
            (flagged-Evolved w'.db.orders) i w' (Evolves-refl w'.db.orders)
