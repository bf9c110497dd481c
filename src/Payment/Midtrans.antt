-- ===== src/Payment/Midtrans.antt =====
-- backend/internal/payment/midtrans.go: the Core API client. The HTTP exchange, the JSON decoder,
-- SHA-512, the path escape and time.Parse are parameters.
pub mod Webhook
pub mod Charge
use event_portal.Base.{
  ℕ, suc, ◌+◌, ◌-◌, ◌*◌, ◌/◌, ◌%◌, ltb, leb, ◌==◌, ◌&&◌, ◌||◌, not, if◌then◌else◌, ℤ, pos, negsuc,
  sub_ℕ, Text, text_eq, codes, is_empty, to_lower, take, length, Bool, true, false, Option, none,
  some, List, [], ◌∷◌, ◌++◌, map,
}
use event_portal.Errors.{Error, plain, errorf, sentinel, Sentinel}
use event_portal.Store.{Uuid, Time, Cents}
use event_portal.Effect.{Result, ok, err}
use event_portal.Payment.Gateway.{
  TransactionItem, TransactionRequest, PaymentSession, WebhookResult, Gateway,
}

pub record ItemDetail : Type 0 where
  pub id : Uuid
  pub name : Text
  pub price : ℤ
  pub quantity : ℤ

-- chargeRequest, with its customExpiry in minutes.
pub record ChargeRequest : Type 0 where
  pub order_id : Text
  pub gross_amount : ℤ
  pub first_name : Text
  pub email : Text
  pub phone : Text
  pub item_details : List ItemDetail
  pub acquirer : Text
  pub expiry_duration : ℕ

pub record ChargeAction : Type 0 where
  pub name : Text
  pub url : Text

pub record ChargeResponse : Type 0 where
  pub transaction_id : Text
  pub qr_string : Text
  pub expiry_time : Text
  pub actions : List ChargeAction

pub record StatusResponse : Type 0 where
  pub status_code : Text
  pub transaction_id : Text
  pub order_id : Text
  pub transaction_status : Text
  pub fraud_status : Text
  pub payment_type : Text

pub record MidtransNotification : Type 0 where
  pub order_id : Text
  pub status_code : Text
  pub gross_amount : Text
  pub signature_key : Text
  pub transaction_id : Text
  pub transaction_status : Text
  pub fraud_status : Text
  pub payment_type : Text

-- The body of an answer and its HTTP status.
pub record Response : Type 0 where
  pub raw : Text
  pub status : ℕ

-- Go's libraries and the network. `charge` and `status` are the exchanges of `do`, at some call.
pub record Api : Type 0 where
  pub charge : ChargeRequest → ℕ → Result Response
  pub status : Text → ℕ → Result Response
  pub decode_charge : Text → Option ChargeResponse
  pub decode_status : Text → Option StatusResponse
  pub decode_notification : Text → Option MidtransNotification
  pub sha512 : Text → List ℕ
  pub path_escape : Text → Text
  pub parse_time : Text → Option Time
  pub lower_rune : ℕ → ℕ

-- hex.EncodeToString
abbrev hex_digit : ℕ → ℕ
hex_digit n = if ltb n 10 then b'0' + n else b'a' + (n - 10)

unfoldable pub encode_hex : List ℕ → Text
encode_hex [] = []
encode_hex (b ∷ bs) = hex_digit (b / 16) ∷ (hex_digit (b % 16) ∷ encode_hex bs)

-- amount.Truncate(0).IntPart(), of hundredths
unfoldable pub to_rupiah : Cents → ℤ
to_rupiah (pos n) = pos (n / 100)
to_rupiah (negsuc n) = sub_ℕ 0 ((n + 1) / 100)

unfoldable pub truncate_runes : Text → ℕ → Text
truncate_runes s max = if leb (length s) max then s else take max s

-- strings.HasPrefix(code, "2")
abbrev pub starts_with_2 : Text → Bool
starts_with_2 [] = false
starts_with_2 (c ∷ s) = c == b'2'

abbrev pub is_success : ℕ → Bool
is_success status = leb 200 status && ltb status 300

unfoldable pub item_detail : TransactionItem → ItemDetail
unfolding to_rupiah truncate_runes
item_detail i = record {
  id = i.id;
  name = truncate_runes i.name 50;
  price = to_rupiah i.price;
  quantity = i.quantity;
}

-- `qrCodeAction`
unfoldable pub qr_code_action : List ChargeAction → Text
qr_code_action [] = []
qr_code_action (a ∷ as') =
    let rest = qr_code_action as' in
    if text_eq a.name (codes "generate-qr-code") then a.url else rest

-- WIB is seven hours ahead of UTC.
abbrev pub wib_offset : ℕ
wib_offset = 7 * 3600 * 1000000000

abbrev pub not_decoded : Error
not_decoded = errorf plain

abbrev pub unauthentic : Error
unauthentic = sentinel Sentinel.invalid_signature

abbrev pub provided_signature : MidtransNotification → Text → Text
provided_signature n signature = if is_empty signature then n.signature_key else signature

abbrev pub webhook_result : Text → MidtransNotification → WebhookResult
webhook_result payload n = record {
  order_number = n.order_id;
  transaction_id = n.transaction_id;
  transaction_status = n.transaction_status;
  fraud_status = n.fraud_status;
  payment_type = n.payment_type;
  raw_payload = payload;
}

-- `expiry` is paymentExpiry in minutes.
unfoldable pub charge_request : ℕ → TransactionRequest → ChargeRequest
unfolding item_detail to_rupiah
charge_request expiry r = record {
  order_id = r.order_number;
  gross_amount = to_rupiah r.gross_amount;
  first_name = r.customer_name;
  email = r.customer_email;
  phone = r.customer_phone;
  item_details = map item_detail r.items;
  acquirer = codes "gopay";
  expiry_duration = expiry;
}

unfoldable pub read_status : Text → ℕ → Option StatusResponse → Result WebhookResult
read_status raw status none = err not_decoded
read_status raw status (some p) =
    if status == 404 || text_eq p.status_code (codes "404")
    then err (sentinel Sentinel.payment_order_not_found)
    else (if not (is_success status)
        then err plain
        else (if not (is_empty p.status_code) && not (starts_with_2 p.status_code)
            then err plain
            else ok (record {
              order_number = p.order_id;
              transaction_id = p.transaction_id;
              transaction_status = p.transaction_status;
              fraud_status = p.fraud_status;
              payment_type = p.payment_type;
              raw_payload = raw;
            })))

module _ (api : Api) where
  unfoldable pub parse_expiry_time : Text → Result Time
  parse_expiry_time value =
      if is_empty value
      then err plain
      else elim (api.parse_time value) [ none ↦ err (errorf plain) | some t ↦ ok (t - wib_offset) ]

  abbrev session_of : ChargeResponse → Result Time → Result PaymentSession
  session_of p (err x) = err x
  session_of p (ok t) = ok (record {
    provider_ref = p.transaction_id;
    qr_string = p.qr_string;
    qr_image_url = qr_code_action p.actions;
    expires_at = t;
    redirect_url = [];
  })

  unfoldable pub read_charge : ℕ → Option ChargeResponse → Result PaymentSession
  unfolding parse_expiry_time qr_code_action
  read_charge status none = err not_decoded
  read_charge status (some p) =
      if not (is_success status)
      then err plain
      else (if is_empty p.qr_string
          then err plain
          else session_of p (parse_expiry_time p.expiry_time))

  unfoldable pub create_transaction : ℕ → TransactionRequest → ℕ → Result PaymentSession
  unfolding charge_request read_charge
  create_transaction expiry r n = elim (api.charge (charge_request expiry r) n) [
    | err x ↦ err (errorf x)
    | ok answer ↦ read_charge answer.status (api.decode_charge answer.raw)
  ]

  unfoldable pub fetch_status : Text → ℕ → Result WebhookResult
  unfolding read_status
  fetch_status number n =
      elim (api.status (codes "/v2/" ++ (api.path_escape number ++ codes "/status")) n) [
        | err x ↦ err (errorf x)
        | ok answer ↦ read_status answer.raw answer.status (api.decode_status answer.raw)
      ]

  module _ (server_key : Text) where
    -- The digest that the provider should have sent.
    unfoldable pub expected_signature : MidtransNotification → Text
    unfolding encode_hex
    expected_signature n =
        encode_hex (api.sha512 (n.order_id ++ (n.status_code ++ (n.gross_amount ++ server_key))))

    unfoldable pub check_notification :
        Text → Text → Option MidtransNotification → Result WebhookResult
    unfolding expected_signature
    check_notification payload signature none = err (errorf unauthentic)
    check_notification payload signature (some n) =
        if is_empty n.order_id
        then err (errorf unauthentic)
        else (if is_empty (provided_signature n signature)
            then err unauthentic
            else (if text_eq (to_lower api.lower_rune (provided_signature n signature))
                  (expected_signature n)
                then ok (webhook_result payload n)
                else err unauthentic))

    unfoldable pub verify_webhook : Text → Text → Result WebhookResult
    unfolding check_notification
    verify_webhook payload signature =
        check_notification payload signature (api.decode_notification payload)

  -- MidtransGateway as the Gateway of the payment domain.
  abbrev pub midtrans_gateway : Text → ℕ → Gateway
  midtrans_gateway server_key expiry = record {
    name = codes "midtrans";
    create_transaction = create_transaction expiry;
    verify_webhook = verify_webhook server_key;
    fetch_status = fetch_status;
  }
