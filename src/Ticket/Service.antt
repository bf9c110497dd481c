-- ===== src/Ticket/Service.antt =====
-- backend/internal/ticket/service.go: ticket issue after payment, and the door.
use event_portal.Base.{
  ℕ, zero, suc, Text, ltb, ◌==◌, length, if◌then◌else◌, Option, none, some, List, [], ◌∷◌,
}
use event_portal.Errors.{Error, errorf, plain, not_found_error, conflict, Code, Sentinel, errors_is}
use event_portal.Store.{Uuid, Ticket, TicketStatus}
use event_portal.Effect.{Env, M, pure, throw, ◌>>=◌, ◌>>◌, handle, in_tx}
use event_portal.Ticket.Code.{normalize_code, generate_code}
use event_portal.Ticket.Sql.{TicketDetail}
use event_portal.Ticket.Repository

abbrev pub code_attempts : ℕ
code_attempts = 5

pub data Verdict : Type 0 where
  valid already_used invalid : Verdict

-- The detail fields are null on an invalid code.
pub record ValidationResult : Type 0 where
  pub result : Verdict
  pub ticket_code : Text
  pub attendee_name : Option Text
  pub ticket_type_name : Option Text
  pub event_name : Option Text

pub record MarkUsedResponse : Type 0 where
  pub ticket_code : Text
  pub status : TicketStatus

pub record PublicTicket : Type 0 where
  pub ticket_code : Text
  pub status : TicketStatus
  pub event_name : Text
  pub attendee_name : Text

abbrev pub verdict_of : TicketStatus → Verdict
verdict_of TicketStatus.active = Verdict.valid
verdict_of TicketStatus.used = Verdict.already_used
verdict_of TicketStatus.revoked = Verdict.invalid

abbrev pub invalid_result : Text → ValidationResult
invalid_result code = record {
  result = Verdict.invalid;
  ticket_code = code;
  attendee_name = none;
  ticket_type_name = none;
  event_name = none;
}

abbrev disclosed : Verdict → TicketDetail → ValidationResult
disclosed v d = record {
  result = v;
  ticket_code = d.ticket_code;
  attendee_name = some d.attendee_name;
  ticket_type_name = some d.ticket_type_name;
  event_name = some d.event_name;
}

-- The switch of Validate, and what each result discloses.
abbrev pub judge : Text → Verdict → TicketDetail → ValidationResult
judge code Verdict.invalid d = invalid_result code
judge code Verdict.valid d = disclosed Verdict.valid d
judge code Verdict.already_used d = disclosed Verdict.already_used d

abbrev pub public_ticket : TicketDetail → PublicTicket
public_ticket d = record {
  ticket_code = d.ticket_code;
  status = d.status;
  event_name = d.event_name;
  attendee_name = d.attendee_name;
}

module _ (e : Env) where
  -- The loop of createOneTicket: every iteration returns, also the one that meets a taken code.
  unfoldable pub create_one_ticket : ℕ → Uuid → Uuid → M (Unit {0})
  create_one_ticket zero o a = throw plain
  create_one_ticket (suc n) o a = do
    code ← generate_code e
    handle (Repository.create_ticket e code o a) pure
        (λ x. if errors_is x Sentinel.code_taken then throw (errorf x) else throw x)

  unfoldable pub create_tickets : Uuid → List Uuid → M (Unit {0})
  unfolding create_one_ticket
  create_tickets o [] = pure tt
  create_tickets o (a ∷ as') = do create_one_ticket code_attempts o a; create_tickets o as'

  -- After a failed transaction: tickets of a concurrent generation are the answer.
  unfoldable pub or_existing : Uuid → Error → M (List Ticket)
  or_existing o x =
      handle (Repository.list_by_order_id e o)
        (λ issued. if length issued == 0 then throw x else pure issued) (λ _. throw x)

  unfoldable pub generate_for_order : Uuid → List Uuid → M (List Ticket)
  unfolding create_tickets or_existing
  generate_for_order o attendees = do
    existing ← Repository.list_by_order_id e o
    (if ltb 0 (length existing)
        then pure existing
        else (if length attendees == 0
            then pure []
            else handle (in_tx e (create_tickets o attendees))
                (λ _. Repository.list_by_order_id e o) (λ x. or_existing o x)))

  -- `attendees` is the order domain's AttendeeIDsForOrder.
  unfoldable pub issue_tickets_for_order : (Uuid → M (List Uuid)) → Uuid → M (Unit {0})
  unfolding generate_for_order
  issue_tickets_for_order attendees o = do ids ← attendees o; generate_for_order o ids; pure tt

  unfoldable pub validate : Text → M ValidationResult
  unfolding normalize_code
  validate raw =
      let code = normalize_code e.upper_rune raw in
      handle (Repository.get_detail_by_code e code) (λ d. pure (judge code (verdict_of d.status) d))
        (λ x. if errors_is x Sentinel.ticket_not_found then pure (invalid_result code) else throw x)

  unfoldable pub mark_used : Text → M MarkUsedResponse
  unfolding normalize_code
  mark_used raw =
      let code = normalize_code e.upper_rune raw in
      Repository.mark_used e code >>= λ applied.
      if applied
      then pure (record { ticket_code = code; status = TicketStatus.used })
      else handle (Repository.get_status_by_code e code) (λ _. throw (conflict Code.already_used))
          (λ x.
            if errors_is x Sentinel.ticket_not_found
            then throw (not_found_error Code.ticket_not_found)
            else throw x)

  unfoldable pub lookup_public : Text → M PublicTicket
  unfolding normalize_code
  lookup_public raw =
      let code = normalize_code e.upper_rune raw in
      handle (Repository.get_detail_by_code e code) (λ d. pure (public_ticket d))
        (λ x.
          if errors_is x Sentinel.ticket_not_found
          then throw (not_found_error Code.ticket_not_found)
          else throw x)
