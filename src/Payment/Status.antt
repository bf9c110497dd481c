-- ===== src/Payment/Status.antt =====
-- backend/internal/payment/status.go: the mapping from a provider's status onto an order outcome.
pub mod Laws
use event_portal.Base.{
  ℕ, Text, codes, text_eq, trim_space, to_lower, ◌||◌, if◌then◌else◌, Bool, true, false, Option,
  none, some,
}
use event_portal.Store.{OrderStatus}

-- `none` is OrderStatusUnchanged, the empty string.
pub record Outcome : Type 0 where
  pub order_status : Option OrderStatus
  pub restore_quota : Bool
  pub handled : Bool

abbrev pub changes_order : Outcome → Bool
changes_order o = elim o.order_status [ none ↦ false | some _ ↦ true ]

abbrev outcome : Option OrderStatus → Bool → Bool → Outcome
outcome s q h = record { order_status = s; restore_quota = q; handled = h }

module _ (lower_rune : ℕ → ℕ) where
  unfoldable pub normalize : Text → Text
  normalize s = to_lower lower_rune (trim_space s)

  -- The inner switch: a capture counts once fraud review accepts it.
  unfoldable pub map_capture : Text → Outcome
  map_capture fraud =
      if text_eq fraud (codes "accept")
      then outcome (some OrderStatus.paid) false true
      else (if text_eq fraud (codes "challenge")
          then outcome none false true
          else outcome none false false)

  unfoldable pub map_normalized : Text → Text → Outcome
  unfolding map_capture
  map_normalized s fraud =
      if text_eq s (codes "settlement")
      then outcome (some OrderStatus.paid) false true
      else (if text_eq s (codes "capture")
          then map_capture fraud
          else (if text_eq s (codes "pending")
              then outcome none false true
              else (if text_eq s (codes "deny")
                    || (text_eq s (codes "cancel") || text_eq s (codes "failure"))
                  then outcome (some OrderStatus.cancelled) true true
                  else (if text_eq s (codes "expire")
                      then outcome (some OrderStatus.expired) true true
                      else outcome none false false))))

  unfoldable pub map_provider_status : Text → Text → Outcome
  unfolding map_normalized normalize
  map_provider_status transaction fraud = map_normalized (normalize transaction) (normalize fraud)
