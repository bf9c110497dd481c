-- ===== src/Payment/Midtrans/Webhook.antt =====
-- What the signature check of a provider notification accepts.
use event_portal.Base.{
  Text, text_eq, text_eq→≡, text_eq_refl, is_empty, to_lower, true, false, Option, none, some, ◌≡◌,
  refl, sym, ◌∙◌, inl, inr, Bool-cases, ◌++◌, [], ◌∷◌, ap,
}
use event_portal.Errors.{Error, errors_is, Sentinel}
use event_portal.Effect.{Result, ok, err}
use event_portal.Payment.Midtrans.{
  Api, MidtransNotification, expected_signature, provided_signature, webhook_result,
  check_notification, verify_webhook, encode_hex,
}

-- A result that satisfies `Q`, or an error that satisfies `E`.
abbrev pub ResultIs : {A : Type 0} → (A → Type 0) → (Error → Type 0) → Result A → Type 0
ResultIs Q E (ok a) = Q a
ResultIs Q E (err x) = E x

append_assoc : (a b c : Text) → a ++ (b ++ c) ≡ (a ++ b) ++ c
append_assoc [] b c = refl
append_assoc (x ∷ a) b c = ap (λ t. x ∷ t) (append_assoc a b c)

regroup : (a b c k : Text) → a ++ (b ++ (c ++ k)) ≡ (a ++ (b ++ c)) ++ k
regroup a b c k = ap (λ t. a ++ t) (append_assoc b c k) ∙ append_assoc a (b ++ c) k

module _ (api : Api) (server_key : Text) where
  -- The payload decodes, names an order, and carries, in any case, the digest of its order id, status
  -- code and amount under the server key.
  abbrev pub Authentic : Text → Text → MidtransNotification → Type 0
  Authentic payload signature n =
      (api.decode_notification payload ≡ some n)
      × ((is_empty n.order_id ≡ false)
          × ((is_empty (provided_signature n signature) ≡ false)
              × (to_lower api.lower_rune (provided_signature n signature)
                  ≡ expected_signature api server_key n)))

  -- The error of a refused notification is ErrInvalidSignature, wrapped or not.
  abbrev pub Refused : Error → Type 0
  Refused x = errors_is x Sentinel.invalid_signature ≡ true

  checked_notification :
      (payload signature : Text) (o : Option MidtransNotification)
      → api.decode_notification payload ≡ o
      → ResultIs
          (λ r.
            (n : MidtransNotification) × (Authentic payload signature n
              × (r ≡ webhook_result payload n)))
          Refused
          (check_notification api server_key payload signature o)
  unfolding check_notification
  checked_notification payload signature none decoded = refl
  checked_notification payload signature (some n) decoded =
      elim (Bool-cases (is_empty n.order_id)) [
        | inl nameless ↦ rw nameless refl
        | inr named ↦ elim (Bool-cases (is_empty (provided_signature n signature))) [
          | inl unsigned ↦ rw (named, unsigned) refl
          | inr signed ↦
              elim (Bool-cases (
                text_eq (to_lower api.lower_rune (provided_signature n signature))
                  (expected_signature api server_key n))) [
                    | inr other ↦ rw (named, signed, other) refl
                    | inl same ↦
                        rw (named, signed, same)
                          (n, ((decoded, (named, (signed, text_eq→≡ _ _ same))), refl))
                  ]
        ]
      ]

  -- A notification that the check accepts decodes, names an order, and carries the digest of its
  -- order id, status code and amount under the server key, in any case; the result is what it says.
  -- Every other payload, also one that does not decode, is refused with ErrInvalidSignature.
  pub verify_webhook-Authentic :
      (payload signature : Text)
      → ResultIs
          (λ r.
            (n : MidtransNotification) × (Authentic payload signature n
              × (r ≡ webhook_result payload n)))
          Refused
          (verify_webhook api server_key payload signature)
  unfolding verify_webhook
  verify_webhook-Authentic payload signature =
      checked_notification payload signature (api.decode_notification payload) refl

  -- A notification that decodes, names an order and carries the digest of its order id, status code
  -- and amount under the server key is accepted.
  pub verify_webhook_accepts :
      (payload signature : Text) (n : MidtransNotification)
      → Authentic payload signature n
      → verify_webhook api server_key payload signature ≡ ok (webhook_result payload n)
  unfolding verify_webhook check_notification
  verify_webhook_accepts payload signature n (decoded, (named, (signed, same))) =
      rw (decoded, named, signed, same, text_eq_refl (expected_signature api server_key n)) refl

  -- The digest is over the order id, the status code and the amount in one text: a notification that
  -- splits that text elsewhere, or that differs in any field beside these, such as the transaction
  -- status or the fraud status, is accepted with the same signature.
  pub verify_webhook_split :
      (payload payload' signature : Text) (n n' : MidtransNotification)
      → Authentic payload signature n
      → api.decode_notification payload' ≡ some n'
      → is_empty n'.order_id ≡ false
      → n'.signature_key ≡ n.signature_key
      → n'.order_id ++ (n'.status_code ++ n'.gross_amount)
        ≡ n.order_id ++ (n.status_code ++ n.gross_amount)
      → verify_webhook api server_key payload' signature ≡ ok (webhook_result payload' n')
  unfolding expected_signature
  verify_webhook_split payload payload' signature n n' (decoded, (named, (signed, same))) decoded'
        named' key text =
      let digest : expected_signature api server_key n ≡ expected_signature api server_key n' =
        ap (λ t. encode_hex (api.sha512 t))
          (regroup n.order_id n.status_code n.gross_amount server_key
            ∙ (ap (λ t. t ++ server_key) (sym text)
                ∙ sym (regroup n'.order_id n'.status_code n'.gross_amount server_key))) in
      let signed_too : to_lower api.lower_rune (provided_signature n' signature)
          ≡ expected_signature api server_key n =
        rw key same in
      verify_webhook_accepts payload' signature n'
        (decoded', (named', (rw key signed, signed_too ∙ digest)))
