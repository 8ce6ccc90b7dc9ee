-- ===== src/Database/Ledger.antt =====
-- The database as a ledger: from order IDs to orders, with no slots and no codec. What each
-- operation of src/database.rs does to the ledger that a tree shows.
use kalatori_backend.Prelude.{
  ℕ, String, ◌≡◌, ◌≢◌, refl, ap, ◌∙◌, Option, none, some, Result, ok, err, if◌then◌else◌, arith,
  str_eq, eq_iff, eq_refl, Bool-cases, inl, inr,
}
use kalatori_backend.Database.Steps
use kalatori_backend.Errors.{DbError, order_not_found, already_paid}
use kalatori_backend.Definitions.{
  Timestamp, OrderInfo, OrderQuery, CurrencyInfo, PaymentStatus, OrderCreateResponse, new, modified,
  collision, new_order_info,
}
use kalatori_backend.Database.{
  Storage, IsStorage, calculate_death_ts, is_pending, create_order, read_order, mark_paid,
}

abbrev pub Ledger : Type 0
Ledger = String → Option OrderInfo

abbrev pub put : String → OrderInfo → Ledger → Ledger
put o i l j = if str_eq o j then some i else l j

pub put_self : (o : String) (i : OrderInfo) (l : Ledger) → put o i l o ≡ some i
put_self o i l = rw eq_refl

pub put-ne : (o j : String) (i : OrderInfo) (l : Ledger) → o ≢ j → put o i l j ≡ l j
put-ne o j i l h = ground (arith, eq_iff o j)

-- The order that a purchase leaves behind, by the order that was there.
abbrev pub create_reply :
    OrderQuery → CurrencyInfo → String → Timestamp → Option OrderInfo → OrderCreateResponse
create_reply q c account death none = new (new_order_info q c account death)
create_reply q c account death (some i) =
    if is_pending i.payment_status
    then modified (record i { death = death; currency = c; amount = q.amount })
    else collision i

abbrev pub stored : OrderCreateResponse → OrderInfo
stored (new i) = i
stored (modified i) = i
stored (collision i) = i

abbrev pub pay_reply : String → Option OrderInfo → Result DbError OrderInfo
pay_reply o none = err (order_not_found o)
pay_reply o (some i) =
    if is_pending i.payment_status
    then ok (record i { payment_status = PaymentStatus.paid })
    else err (already_paid o)

abbrev pub paid_ledger : String → Result DbError OrderInfo → Ledger → Ledger
paid_ledger o (ok i) l = put o i l
paid_ledger o (err e) l = l

module _ {Slot Tree : Type 0} (s : Storage Slot Tree) where
  -- The tree shows the ledger: every read succeeds with the ledger's entry.
  abbrev pub Shows : Tree → Ledger → Type 0
  Shows t l = (o : String) → (read_order s o t).0 ≡ ok (l o)

  -- what a successful read says of the slot
  pub data Slotted (t : Tree) (o : String) (m : Option OrderInfo) : Type 0 where
    empty : s.get t (s.encode_id o) ≡ ok none → m ≡ none → Slotted t o m
    full :
        (v : Slot) (i : OrderInfo)
        → s.get t (s.encode_id o) ≡ ok (some v)
        → s.decode_order v ≡ ok i
        → m ≡ some i
        → Slotted t o m

  read_slot :
      (t : Tree) (o : String) (m : Option OrderInfo) → (read_order s o t).0 ≡ ok m → Slotted t o m
  unfolding read_order
  read_slot t o m h = at_slot (s.get t (s.encode_id o)) refl
    where
      at_value :
          (v : Slot) (d : Result String OrderInfo)
          → s.get t (s.encode_id o) ≡ ok (some v)
          → s.decode_order v ≡ d
          → Slotted t o m
      at_value v (err e) eg ed = absurd (ground (arith, h, eg, ed))
      at_value v (ok i) eg ed = full v i eg ed (ground (arith, h, eg, ed))

      at_slot : (g : Result String (Option Slot)) → s.get t (s.encode_id o) ≡ g → Slotted t o m
      at_slot (err e) eg = absurd (ground (arith, h, eg))
      at_slot (ok none) eg = empty eg (ground (arith, h, eg))
      at_slot (ok (some v)) eg = at_value v (s.decode_order v) eg refl

  -- A read looks at no more than its slot.
  read_order_local :
      (o : String) (t u : Tree)
      → s.get t (s.encode_id o) ≡ s.get u (s.encode_id o)
      → (read_order s o t).0 ≡ (read_order s o u).0
  unfolding read_order
  read_order_local o t u h = ground arith

  pub read_order_tree : (o : String) (t : Tree) → (read_order s o t).1 ≡ t
  unfolding read_order
  read_order_tree o t = ground arith

  put_same-Shows :
      (t : Tree) (l : Ledger) (o : String) (i : OrderInfo)
      → Shows t l
      → l o ≡ some i
      → Shows t (put o i l)
  put_same-Shows t l o i h e j = elim (Bool-cases (str_eq o j)) [
    | inl same ↦ rw (same, h j) (ap ok (rw (← (eq_iff o j).0 same) e))
    | inr other ↦ rw other (h j)
  ]

  module _ (laws : IsStorage s) where
    encode_id_injective : (o j : String) → s.encode_id o ≡ s.encode_id j → o ≡ j
    encode_id_injective o j h =
        cc (laws.decode_encode_id o, laws.decode_encode_id j, ap s.decode_id h)

    pub insert-Shows :
        (t : Tree) (l : Ledger) (o : String) (i : OrderInfo)
        → Shows t l
        → Shows (s.insert t (s.encode_id o) (s.encode_order i)).1 (put o i l)
    insert-Shows t l o i h j = elim (Bool-cases (str_eq o j)) [
      | inl same ↦
          rw (same, ← (eq_iff o j).0 same)
            (unfold read_order in
              rw (
                laws.get_insert_self t (s.encode_id o) (s.encode_order i),
                laws.decode_encode_order i,
              ))
      | inr other ↦
          let ne : s.encode_id o ≢ s.encode_id j =
            λ p. cc (other, (eq_iff o j).1 (encode_id_injective o j p)) in
          rw other (
            read_order_local j (s.insert t (s.encode_id o) (s.encode_order i)).1 t
              (laws.get_insert_ne t (s.encode_id o) (s.encode_id j) (s.encode_order i) ne)
            ∙ h j)
    ]

    -- Let the tree show a ledger. A placed order is answered by what the ledger holds under its ID:
    -- new if nothing, modified if a pending order, a collision if a paid one. Afterwards the tree
    -- shows the ledger with the order of the answer under this ID, and all else as it was.
    pub create_order-refines :
        (t : Tree) (l : Ledger)
        → Shows t l
        → (o : String) (q : OrderQuery) (c : CurrencyInfo) (account : String)
        → (lifetime : Timestamp) (now : ℕ)
        → let reply = create_reply q c account (calculate_death_ts now lifetime) (l o) in
          let (r, t') = create_order s o q c account lifetime now t in
          (r ≡ ok reply) × Shows t' (put o (stored reply) l)
    create_order-refines t l h o q c account lifetime now = elim (read_slot t o (l o) (h o)) [
      | empty eg em ↦
          rw (Steps.buy_new s laws t o q c account lifetime now eg, em)
            (refl, insert-Shows t l o _ h)
      | full v i eg ed em ↦ elim (Bool-cases (is_pending i.payment_status)) [
        | inl p ↦
            rw (Steps.buy_again s laws t o q c account lifetime now v i eg ed p, em, p)
              (refl, insert-Shows t l o _ h)
        | inr p ↦
            rw (Steps.buy_paid s laws t o q c account lifetime now v i eg ed p, em, p)
              (refl, put_same-Shows t l o i h em)
      ]
    ]

    -- Let the tree show a ledger. A pending order is answered as paid and is then shown as paid; a
    -- paid or a missing one is refused. In each case all else is shown as it was.
    pub mark_paid-refines :
        (t : Tree) (l : Ledger)
        → Shows t l
        → (o : String)
        → let (r, t') = mark_paid s o t in
          (r ≡ pay_reply o (l o)) × Shows t' (paid_ledger o (pay_reply o (l o)) l)
    mark_paid-refines t l h o = elim (read_slot t o (l o) (h o)) [
      | empty eg em ↦ rw (Steps.pay_absent s laws t o eg, em) (refl, h)
      | full v i eg ed em ↦ elim (Bool-cases (is_pending i.payment_status)) [
        | inl p ↦
            rw (Steps.pay_pending s laws t o v i eg ed p, em, p) (refl, insert-Shows t l o _ h)
        | inr p ↦ rw (Steps.pay_twice s laws t o v i eg ed p, em, p) (refl, h)
      ]
    ]
