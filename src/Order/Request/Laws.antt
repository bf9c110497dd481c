-- ===== src/Order/Request/Laws.antt =====
-- What the validation of a checkout request ensures.
use event_portal.Base.{
  differ_ne, ℕ, ◌+◌, ◌<◌, ◌≤◌, ℤ, pos, ◌+ℤ◌, ltb_ℤ, eqb_ℤ, wrap32, int32_bound, arith, int_laws,
  eq_of_parts, ==→≡, ◌≤ℤ◌, Text, trim_space, length, exists, ◌==◌, not, ◌||◌, if◌then◌else◌, Bool,
  true, false, none, List, [], ◌∷◌, Each, Each-map, ◌≡◌, ◌≢◌, refl, sym, ◌∙◌, inl, inr, Bool-cases,
}
use event_portal.Errors.Laws.{orelse_none, reject_none}
use event_portal.Store.{Uuid}
use event_portal.Order.Request.{
  CheckoutItem, CheckoutAttendee, CheckoutRequest, check_items, check_counts, check_ordered,
  check_attendees, validate_email, got, validate,
}

-- The attendees of a ticket type.
pub count_for : Uuid → List CheckoutAttendee → ℕ
count_for t [] = 0
count_for t (a ∷ as') =
    let rest = count_for t as' in if a.ticket_type_id == t then rest + 1 else rest

-- No ticket type stands on two lines.
abbrev pub Distinct : List CheckoutItem → Type 0
Distinct [] = Unit
Distinct (i ∷ is) = Each (λ j. j.ticket_type_id ≢ i.ticket_type_id) is × Distinct is

count_for-length : (t : Uuid) (as' : List CheckoutAttendee) → count_for t as' ≤ length as'
unfolding count_for
count_for-length t [] = omega arith
count_for-length t (a ∷ as') = ground (arith, count_for-length t as')

wrap32_small : (n : ℕ) → n < int32_bound → wrap32 (pos n) ≡ pos n
unfolding wrap32
wrap32_small n h = ground arith

pos_suc : (n : ℕ) → pos n +ℤ pos 1 ≡ pos (n + 1)
pos_suc n = omega int_laws

got-count_for :
    (t : Uuid) (as' : List CheckoutAttendee)
    → length as' < int32_bound
    → got t as' ≡ pos (count_for t as')
unfolding got count_for
got-count_for t [] h = refl
got-count_for t (a ∷ as') h = elim (Bool-cases (a.ticket_type_id == t)) [
  | inl his ↦
      rw (his, got-count_for t as' (omega arith), pos_suc)
        (wrap32_small _ (omega (arith, count_for-length t as')))
  | inr other ↦ rw (other, got-count_for t as' (omega arith)) refl
]

eqb_ℤ→≡ : (a b : ℤ) → eqb_ℤ a b ≡ true → a ≡ b
eqb_ℤ→≡ a b h = eq_of_parts a b (==→≡ _ _ h)

not-false : (b : Bool) → not b ≡ false → b ≡ true
not-false true h = refl
not-false false h = sym h

symm_ne : (a b : ℕ) → (a == b) ≡ false → b ≢ a
symm_ne a b h = ground arith

check_counts-Each :
    (as' : List CheckoutAttendee) (items : List CheckoutItem)
    → length as' < int32_bound
    → check_counts as' items ≡ none
    → Each (λ i. i.quantity ≡ pos (count_for i.ticket_type_id as')) items
unfolding check_counts
check_counts-Each as' [] h c = tt
check_counts-Each as' (i ∷ is) h c =
    let both = orelse_none _ _ c in
    (
      sym (eqb_ℤ→≡ _ _ (not-false _ (reject_none _ _ both.0)))
          ∙ got-count_for i.ticket_type_id as' h,
      check_counts-Each as' is h both.1,
    )

check_ordered-Each :
    (items : List CheckoutItem) (as' : List CheckoutAttendee)
    → check_ordered items as' ≡ none
    → Each (λ a. exists (λ i. i.ticket_type_id == a.ticket_type_id) items ≡ true) as'
unfolding check_ordered
check_ordered-Each items [] c = tt
check_ordered-Each items (a ∷ as') c =
    let both = orelse_none _ _ c in
    (not-false _ (reject_none _ _ both.0), check_ordered-Each items as' both.1)

apart : (a b : ℕ) (x : Bool) → ((a == b) || x) ≡ false → (b ≢ a) × (x ≡ false)
apart a b x h = elim (Bool-cases (a == b)) [
  | inl same ↦ cc
  | inr differ ↦ (symm_ne a b differ, rw differ at h)
]

check_items-Each :
    (seen : List Uuid) (items : List CheckoutItem)
    → check_items seen items ≡ none
    → Each (λ i. exists (λ s. s == i.ticket_type_id) seen ≡ false) items
      × (Distinct items
          × Each (λ i. (i.ticket_type_id ≢ 0) × (ltb_ℤ i.quantity (pos 1) ≡ false)) items)
unfolding check_items exists
check_items-Each seen [] c = (tt, (tt, tt))
check_items-Each seen (i ∷ is) c =
    let named = orelse_none _ _ c in
    let sized = orelse_none _ _ named.1 in
    let fresh = orelse_none _ _ sized.1 in
    let rest = check_items-Each (i.ticket_type_id ∷ seen) is fresh.1 in
    (
      (reject_none _ _ fresh.0, Each-map is (λ j h. (apart _ _ _ h).1) rest.0),
      (
        (Each-map is (λ j h. (apart _ _ _ h).0) rest.0, rest.1.0),
        ((differ_ne _ _ (reject_none _ _ named.0), reject_none _ _ sized.0), rest.1.1),
      ),
    )

at_least_one : (q : ℤ) → ltb_ℤ q (pos 1) ≡ false → pos 1 ≤ℤ q
at_least_one q h = ground arith

Each-both :
    {A : Type 0} (P Q : A → Type 0) (xs : List A) → Each P xs → Each Q xs → Each (λ x. P x × Q x) xs
Each-both P Q [] h k = tt
Each-both P Q (x ∷ xs) h k = ((h.0, k.0), Each-both P Q xs h.1 k.1)

module _ (parse_address : Text → Bool) where
  validate_email-none :
      (v : Text) → validate_email parse_address v ≡ none → parse_address (trim_space v) ≡ true
  unfolding validate_email
  validate_email-none v h = not-false _ (reject_none _ _ (orelse_none _ _ h).1)

  check_attendees-Each :
      (as' : List CheckoutAttendee)
      → check_attendees parse_address as' ≡ none
      → Each (λ a. parse_address (trim_space a.email) ≡ true) as'
  unfolding check_attendees
  check_attendees-Each [] c = tt
  check_attendees-Each (a ∷ as') c =
      let next = orelse_none _ _ (orelse_none _ _ c).1 in
      (validate_email-none a.email next.0, check_attendees-Each as' next.1)

  -- What an accepted request satisfies: one line for a ticket type, on each line at least one seat
  -- and exactly as many attendees as seats, no attendee without a line, and addresses that parse.
  pub record IsAccepted (r : CheckoutRequest) : Type 0 where
    pub distinct : Distinct r.items
    pub named : Each (λ i. i.ticket_type_id ≢ 0) r.items
    pub counted :
        Each
          (λ i. (pos 1 ≤ℤ i.quantity) × (i.quantity ≡ pos (count_for i.ticket_type_id r.attendees)))
          r.items
    pub ordered :
        Each (λ a. exists (λ i. i.ticket_type_id == a.ticket_type_id) r.items ≡ true) r.attendees
    pub reachable : Each (λ a. parse_address (trim_space a.email) ≡ true) r.attendees
    pub buyer : parse_address (trim_space r.buyer_email) ≡ true
    pub some_item : length r.items ≢ 0

  -- A checkout request that validation lets through, with fewer than 2^31 attendees, has no ticket
  -- type on two lines, on each line at least one seat and as many attendees as seats, no attendee
  -- outside its lines, and addresses that parse.
  pub validate-IsAccepted :
      (r : CheckoutRequest)
      → length r.attendees < int32_bound
      → validate parse_address r ≡ none
      → IsAccepted r
  unfolding validate
  validate-IsAccepted r few h =
      let email = orelse_none _ _ (orelse_none _ _ h).1 in
      let items = orelse_none _ _ (orelse_none _ _ email.1).1 in
      let lines = orelse_none _ _ items.1 in
      let people = orelse_none _ _ lines.1 in
      let counts = orelse_none _ _ (orelse_none _ _ people.1).1 in
      let checked = check_items-Each [] r.items lines.0 in
      record {
        distinct = checked.1.0;
        named = Each-map r.items (λ _ k. k.0) checked.1.1;
        counted =
            Each-both _ _ r.items
              (Each-map r.items (λ i k. at_least_one i.quantity k.1) checked.1.1)
              (check_counts-Each r.attendees r.items few counts.0);
        ordered = check_ordered-Each r.items r.attendees counts.1;
        reachable = check_attendees-Each r.attendees people.0;
        buyer = validate_email-none r.buyer_email email.0;
        some_item = differ_ne _ _ (reject_none _ _ items.0);
      }
