-- ===== src/Database/Withdrawal.antt =====
-- `mark_withdrawn` and `mark_stuck` of src/database.rs after a purchase and a payment.
use kalatori_backend.Prelude.{ℕ, String, ◌≡◌, refl, ◌∙◌, none, ok, err}
use kalatori_backend.Errors.{order_not_found}
use kalatori_backend.Definitions.{
  Timestamp, OrderInfo, OrderQuery, CurrencyInfo, PaymentStatus, new_order_info,
}
use kalatori_backend.Database.{
  Storage, IsStorage, calculate_death_ts, is_pending, create_order, mark_paid, mark_withdrawn,
  mark_stuck,
}
use kalatori_backend.Database.Steps.{written, buy_new, pay_pending}

module _ {Slot Tree : Type 0} (s : Storage Slot Tree) where
  withdraw_absent :
      (t : Tree) (o : String)
      → s.get t (s.id_bytes o) ≡ ok none
      → (mark_withdrawn s o t ≡ (err (order_not_found o), t))
        × (mark_stuck s o t ≡ (err (order_not_found o), t))
  unfolding mark_withdrawn mark_stuck
  withdraw_absent t o e = (rw e, rw e)

  module _ (laws : IsStorage s) where
    -- Let the tree hold no record under the encoded ID of an order, nor under the bytes of the ID
    -- themselves. After the order is created and marked as paid, the order can be neither marked as
    -- withdrawn nor as stuck: both calls answer that it is not found, and change nothing.
    pub withdrawal_not_recorded :
        (t : Tree) (o : String) (q : OrderQuery) (c : CurrencyInfo) (account : String)
        → (lifetime : Timestamp) (now : ℕ) → s.get t (s.encode_id o) ≡ ok none
        → s.get t (s.id_bytes o) ≡ ok none
        → let placed = (create_order s o q c account lifetime now t).1 in
          let (r, t') = mark_paid s o placed in
          let i = new_order_info q c account (calculate_death_ts now lifetime) in
          (r ≡ ok (record i { payment_status = PaymentStatus.paid }))
          × (mark_withdrawn s o t' ≡ (err (order_not_found o), t'))
          × (mark_stuck s o t' ≡ (err (order_not_found o), t'))
    unfolding new_order_info is_pending
    withdrawal_not_recorded t o q c account lifetime now e b =
        let i : OrderInfo = new_order_info q c account (calculate_death_ts now lifetime) in
        let i' : OrderInfo = record i { payment_status = PaymentStatus.paid } in
        let placed : Tree = written s laws t o i in
        let kept = λ (u : Tree) (j : OrderInfo).
          laws.get_insert_ne u (s.encode_id o) (s.id_bytes o) (s.encode_order j)
            (laws.encode_id_ne o) in
        let lost = withdraw_absent (written s laws placed o i') o (kept placed i' ∙ kept t i ∙ b) in
        rw (buy_new s laws t o q c account lifetime now e) (
          rw
            (pay_pending s laws placed o (s.encode_order i) i
              (laws.get_insert_self t (s.encode_id o) (s.encode_order i))
              (laws.decode_encode_order i) refl)
            (refl, lost.0, lost.1))
