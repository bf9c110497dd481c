-- ===== src/Payment/Status/Laws.antt =====
-- What the status mapping promises of every outcome.
use event_portal.Base.{
  ℕ, Text, codes, text_eq, not, Bool, false, Option, none, some, ◌≡◌, refl, inl, inr, arith, ◌⊎◌,
  text_eq→≡, ◌↔◌,
}
use event_portal.Store.{OrderStatus, is_holding}
use event_portal.Payment.Status.{
  Outcome, map_capture, map_normalized, map_provider_status, normalize,
}

-- The quota goes back exactly when the new status lets go of the seats, and an outcome that
-- changes nothing gives nothing back.
abbrev StatusBalanced : Option OrderStatus → Bool → Type 0
StatusBalanced none r = r ≡ false
StatusBalanced (some s) r = r ≡ not (is_holding s)

abbrev pub Balanced : Outcome → Type 0
Balanced o = StatusBalanced o.order_status o.restore_quota

module _ (lower_rune : ℕ → ℕ) where
  map_capture-Balanced : (fraud : Text) → Balanced (map_capture lower_rune fraud)
  unfolding map_capture
  map_capture-Balanced fraud = ground arith

  pub map_normalized-Balanced : (s fraud : Text) → Balanced (map_normalized lower_rune s fraud)
  unfolding map_normalized
  map_normalized-Balanced s fraud = ground (arith, map_capture-Balanced fraud)

  -- Every outcome of the mapping restores the quota exactly if it moves the order to a status that
  -- lets go of its seats; an outcome that leaves the order alone restores nothing.
  pub map_provider_status-Balanced :
      (transaction fraud : Text) → Balanced (map_provider_status lower_rune transaction fraud)
  unfolding map_provider_status
  map_provider_status-Balanced transaction fraud =
      map_normalized-Balanced (normalize lower_rune transaction) (normalize lower_rune fraud)

  map_normalized_paid :
      (s fraud : Text)
      → (map_normalized lower_rune s fraud).order_status ≡ some OrderStatus.paid
      → (s ≡ codes "settlement") ⊎ ((s ≡ codes "capture") × (fraud ≡ codes "accept"))
  unfolding map_normalized map_capture
  map_normalized_paid s fraud h = ground (
    arith,
    text_eq→≡ s (codes "settlement"),
    text_eq→≡ s (codes "capture"),
    text_eq→≡ fraud (codes "accept"),
  )

  map_normalized_pays :
      (s fraud : Text)
      → (s ≡ codes "settlement") ⊎ ((s ≡ codes "capture") × (fraud ≡ codes "accept"))
      → (map_normalized lower_rune s fraud).order_status ≡ some OrderStatus.paid
  unfolding map_normalized map_capture text_eq
  map_normalized_pays s fraud (inl h) = rw h refl
  map_normalized_pays s fraud (inr (h, k)) = rw (h, k) refl

  -- A provider status makes an order PAID exactly when it is `settlement`, or `capture` with the
  -- fraud status `accept`, in any case and with any spaces around.
  pub map_provider_status_paid :
      (transaction fraud : Text)
      → ((map_provider_status lower_rune transaction fraud).order_status ≡ some OrderStatus.paid)
        ↔ ((normalize lower_rune transaction ≡ codes "settlement")
            ⊎ ((normalize lower_rune transaction ≡ codes "capture")
                × (normalize lower_rune fraud ≡ codes "accept")))
  unfolding map_provider_status
  map_provider_status_paid transaction fraud = (
    map_normalized_paid (normalize lower_rune transaction) (normalize lower_rune fraud),
    map_normalized_pays (normalize lower_rune transaction) (normalize lower_rune fraud),
  )
