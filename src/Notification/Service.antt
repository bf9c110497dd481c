-- ===== src/Notification/Service.antt =====
-- backend/internal/notification/service.go and handler.go. The PDF and the SMTP client are
-- parameters (pdf.go renders fonts and QR images, smtp.go talks to a mail server); the HTML text of
-- the message is left out.
use event_portal.Base.{ℕ, ◌==◌, if◌then◌else◌, Text, codes, List, [], ◌∷◌, ◌++◌, length}
use event_portal.Errors.{plain, bad_request, Code}
use event_portal.Store.{Uuid, Time, OrderStatus, is_paid}
use event_portal.Effect.{of_result, Env, Result, M, pure, throw, handle, remote, ◌>>=◌, ◌>>◌}

pub record OrderDelivery : Type 0 where
  pub id : Uuid
  pub order_number : Text
  pub buyer_name : Text
  pub buyer_email : Text
  pub status : OrderStatus

pub record TicketDetail : Type 0 where
  pub ticket_code : Text
  pub attendee_name : Text
  pub ticket_type_name : Text
  pub event_name : Text
  pub venue : Text
  pub start_date : Time

pub record Attachment : Type 0 where
  pub filename : Text
  pub content_type : Text
  pub content : Text

pub record Message : Type 0 where
  pub to : Text
  pub subject : Text
  pub attachments : List Attachment

-- What the notification domain needs of the order domain and of the ticket domain.
pub record OrderProvider : Type 0 where
  pub order_for_delivery : Uuid → M OrderDelivery
  pub mark_email_sent : Uuid → M (Unit {0})

pub record TicketProvider : Type 0 where
  pub ticket_details_for_order : Uuid → M (List TicketDetail)

-- The mail server and the PDF: `deliver` is the answer to a message at some call.
pub record Mailer : Type 0 where
  pub deliver : Message → ℕ → Result (Unit {0})
  pub render : OrderDelivery → List TicketDetail → Result Text

-- `tickets[0].EventName`
abbrev first_event : List TicketDetail → Text
first_event [] = []
first_event (t ∷ ts) = t.event_name

abbrev pub ticket_message : OrderDelivery → List TicketDetail → Text → Message
ticket_message o ts pdf = record {
  to = o.buyer_email;
  subject = codes "Your tickets for " ++ first_event ts;
  attachments =
      record {
        filename = codes "tickets-" ++ (o.order_number ++ codes ".pdf");
        content_type = codes "application/pdf";
        content = pdf;
      }
      ∷ [];
}

module _ (e : Env) (orders : OrderProvider) (tickets : TicketProvider) (mailer : Mailer) where
  -- The message is out: a flag that cannot be set is only logged.
  unfoldable pub deliver_tickets : Uuid → OrderDelivery → List TicketDetail → Text → M (Unit {0})
  deliver_tickets i o ts pdf = do
    remote e (mailer.deliver (ticket_message o ts pdf))
    handle (orders.mark_email_sent i) pure (λ _. pure tt)

  unfoldable pub send_ticket_email : Uuid → M (Unit {0})
  send_ticket_email i = do
    o ← orders.order_for_delivery i
    (if is_paid o.status
        then (do
          ts ← tickets.ticket_details_for_order i
          (if length ts == 0
              then throw plain
              else (do pdf ← of_result (mailer.render o ts); deliver_tickets i o ts pdf)))
        else throw (bad_request Code.order_not_paid))

  -- The handler of the admin's resend: the address that the tickets went to.
  unfoldable pub resend : Uuid → M Text
  unfolding send_ticket_email
  resend i = do o ← orders.order_for_delivery i; send_ticket_email i; pure o.buyer_email
