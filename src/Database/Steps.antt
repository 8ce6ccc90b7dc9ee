-- ===== src/Database/Steps.antt =====
-- `create_order` and `mark_paid` of src/database.rs on a storage whose writes succeed, by what the
-- order's slot holds.
use kalatori_backend.Prelude.{ℕ, String, ◌≡◌, refl, true, false, none, some, Result, ok, err}
use kalatori_backend.Errors.{DbError, order_not_found, already_paid}
use kalatori_backend.Definitions.{
  Timestamp, OrderInfo, OrderQuery, CurrencyInfo, PaymentStatus, OrderCreateResponse, new, modified,
  collision, new_order_info,
}
use kalatori_backend.Database.{
  Storage, IsStorage, calculate_death_ts, is_pending, create_order, mark_paid,
}

module _ {Slot Tree : Type 0} (s : Storage Slot Tree) (laws : IsStorage s) where
  -- where a write leaves the tree
  abbrev pub written : Tree → String → OrderInfo → Tree
  written t o i = (s.insert t (s.encode_id o) (s.encode_order i)).1

  module _ (t : Tree) (o : String) where
    module _ (q : OrderQuery) (c : CurrencyInfo) (account : String) (lifetime : Timestamp)
        (now : ℕ) where
      abbrev pub buy : Result DbError OrderCreateResponse × Tree
      buy = create_order s o q c account lifetime now t

      abbrev pub due : Timestamp
      due = calculate_death_ts now lifetime

      pub buy_new :
          s.get t (s.encode_id o) ≡ ok none
          → let fresh = new_order_info q c account due in buy ≡ (ok (new fresh), written t o fresh)
      unfolding create_order
      buy_new e = rw e (rw laws.insert_ok)

      module _ (v : Slot) (i : OrderInfo) (e : s.get t (s.encode_id o) ≡ ok (some v))
          (d : s.decode_order v ≡ ok i) where
        pub buy_again :
            is_pending i.payment_status ≡ true
            → let i' : OrderInfo = record i { death = due; currency = c; amount = q.amount } in
              buy ≡ (ok (modified i'), written t o i')
        unfolding create_order
        buy_again p = rw e (rw (d, p) (rw laws.insert_ok))

        pub buy_paid : is_pending i.payment_status ≡ false → buy ≡ (ok (collision i), t)
        unfolding create_order
        buy_paid p = rw e (rw (d, p) refl)

    pub pay_absent :
        s.get t (s.encode_id o) ≡ ok none → mark_paid s o t ≡ (err (order_not_found o), t)
    unfolding mark_paid
    pay_absent e = rw e

    module _ (v : Slot) (i : OrderInfo) (e : s.get t (s.encode_id o) ≡ ok (some v))
        (d : s.decode_order v ≡ ok i) where
      pub pay_pending :
          is_pending i.payment_status ≡ true
          → let i' : OrderInfo = record i { payment_status = PaymentStatus.paid } in
            mark_paid s o t ≡ (ok i', written t o i')
      unfolding mark_paid
      pay_pending p = rw e (rw (d, p) (rw laws.insert_ok))

      pub pay_twice :
          is_pending i.payment_status ≡ false → mark_paid s o t ≡ (err (already_paid o), t)
      unfolding mark_paid
      pay_twice p = rw e (rw (d, p) refl)
