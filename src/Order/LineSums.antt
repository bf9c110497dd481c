-- ===== src/Order/LineSums.antt =====
-- Sums over the lines of an order and over the items that the payment gateway is asked for.
use event_portal.Base.{ℤ, pos, ◌+ℤ◌, ◌*ℤ◌, int_laws, List, [], ◌∷◌, ◌++◌, map, ◌≡◌, refl}
use event_portal.Order.Provider.{PaymentItem}
use event_portal.Order.Checkout.{ReservedLine, payment_item}

unfoldable pub line_total : List ReservedLine → ℤ
line_total [] = pos 0
line_total (l ∷ ls) = l.unit_price *ℤ l.quantity +ℤ line_total ls

pub item_total : List PaymentItem → ℤ
item_total [] = pos 0
item_total (i ∷ is) = i.price *ℤ i.quantity +ℤ item_total is

pub last_zero : (a b : ℤ) → a +ℤ b ≡ b +ℤ (a +ℤ pos 0)
last_zero a b = omega int_laws

pub assoc : (a b c : ℤ) → a +ℤ (b +ℤ c) ≡ (a +ℤ b) +ℤ c
assoc a b c = omega int_laws

zero_plus : (v : ℤ) → v +ℤ pos 0 ≡ pos 0 +ℤ v
zero_plus v = omega int_laws

line_total-snoc :
    (ls : List ReservedLine) (l : ReservedLine)
    → line_total (ls ++ (l ∷ [])) ≡ line_total ls +ℤ l.unit_price *ℤ l.quantity
unfolding line_total
line_total-snoc [] l = zero_plus (l.unit_price *ℤ l.quantity)
line_total-snoc (k ∷ ls) l =
    rw (line_total-snoc ls l)
      (assoc (k.unit_price *ℤ k.quantity) (line_total ls) (l.unit_price *ℤ l.quantity))

pub one_more :
    (total : ℤ) (ls : List ReservedLine) (l : ReservedLine)
    → total ≡ line_total ls
    → total +ℤ l.unit_price *ℤ l.quantity ≡ line_total (ls ++ (l ∷ []))
one_more total ls l h = rw (h, line_total-snoc ls l) refl

pub item_total-map : (ls : List ReservedLine) → item_total (map payment_item ls) ≡ line_total ls
unfolding item_total line_total
item_total-map [] = refl
item_total-map (l ∷ ls) = rw (item_total-map ls) refl

pub plus_zero : (a : ℤ) → a ≡ a +ℤ pos 0
plus_zero a = omega int_laws

pub zero_first : (a b : ℤ) → a ≡ b → pos 0 +ℤ b ≡ a
zero_first a b h = rw h (omega int_laws)
