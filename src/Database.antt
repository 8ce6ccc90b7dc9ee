-- ===== src/Database.antt =====
-- src/database.rs: the orders of the daemon in a `sled` tree. Keys and values go through the SCALE
-- codec; the tree and the codec are third-party code, and are the parameter `Storage`.
mod Steps
pub mod Ledger
pub mod Server
pub mod Books
pub mod Final
pub mod Withdrawal
mod Tests
use kalatori_backend.Prelude.{
  ℕ, ◌+◌, ◌%◌, String, ◌≡◌, ◌≢◌, Bool, true, false, Option, none, some, List, [], ◌∷◌, Result, ok,
  err, map_err, if◌then◌else◌,
}
use kalatori_backend.Prelude.Exec.{Exec, pure, raise, lift, ◌>>=◌, ◌>>◌}
use kalatori_backend.Errors.{
  DbError, db_internal_error, codec_error, order_not_found, already_paid, not_paid,
  withdrawal_was_attempted,
}
use kalatori_backend.Definitions.{
  F64, Timestamp, u64_mod, OrderInfo, OrderQuery, CurrencyInfo, PaymentStatus, WithdrawalStatus,
  OrderCreateResponse, new, modified, collision, new_order_info,
}

-- What the database uses of `sled` (a tree from byte strings to byte strings, each call of which may
-- fail) and of `parity_scale_codec`. `Slot` is a byte string, `Tree` the state of a tree.
pub record Storage (Slot Tree : Type 0) : Type 0 where
  -- `order.encode()`
  pub encode_id : String → Slot
  -- the bytes of the string itself, which `Tree::get` takes for a `String`
  pub id_bytes : String → Slot
  -- `String::decode`
  pub decode_id : Slot → Result String String
  -- `OrderInfo::encode`
  pub encode_order : OrderInfo → Slot
  -- `OrderInfo::decode`
  pub decode_order : Slot → Result String OrderInfo
  pub get : Tree → Slot → Result String (Option Slot)
  pub insert : Tree → Slot → Slot → Result String (Unit {0}) × Tree
  pub iter : Tree → List (Result String (Slot × Slot))

-- The documented behaviour of a tree whose writes succeed, and of the codec.
pub record IsStorage {Slot Tree : Type 0} (s : Storage Slot Tree) : Type 0 where
  pub decode_encode_id : (o : String) → s.decode_id (s.encode_id o) ≡ ok o
  pub decode_encode_order : (i : OrderInfo) → s.decode_order (s.encode_order i) ≡ ok i
  -- the encoding of a string is longer than the string by its length prefix
  pub encode_id_ne : (o : String) → s.encode_id o ≢ s.id_bytes o
  pub insert_ok : (t : Tree) (k v : Slot) → (s.insert t k v).0 ≡ ok tt
  pub get_insert_self : (t : Tree) (k v : Slot) → s.get (s.insert t k v).1 k ≡ ok (some v)
  pub get_insert_ne : (t : Tree) (k j v : Slot) → k ≢ j → s.get (s.insert t k v).1 j ≡ s.get t j

-- `now` is `SystemTime::now` in milliseconds since the epoch; `as u64` truncates it, and the sum
-- wraps in the release profile.
unfoldable pub calculate_death_ts : ℕ → Timestamp → Timestamp
calculate_death_ts now account_lifetime = (now % u64_mod + account_lifetime) % u64_mod

unfoldable pub is_pending : PaymentStatus → Bool
is_pending PaymentStatus.pending = true
is_pending PaymentStatus.paid = false

unfoldable pub is_waiting : WithdrawalStatus → Bool
is_waiting WithdrawalStatus.waiting = true
is_waiting _ = false

module _ {Slot Tree : Type 0} (s : Storage Slot Tree) where
  -- `orders.get(key)?`
  fetch : Slot → Exec Tree DbError (Option Slot)
  fetch k t = (map_err db_internal_error (s.get t k), t)

  -- `orders.insert(key, value)?`
  store : Slot → Slot → Exec Tree DbError (Unit {0})
  store k v t = let (r, t') = s.insert t k v in (map_err db_internal_error r, t')

  -- `OrderInfo::decode(&mut &record[..])?`
  decode : Slot → Exec Tree DbError OrderInfo
  decode v = lift (map_err codec_error (s.decode_order v))

  -- the match on the payment status of an order that is there
  update_order :
      (order : String) (query : OrderQuery) (currency : CurrencyInfo) (death : Timestamp)
      → OrderInfo
      → Exec Tree DbError OrderCreateResponse
  unfolding store is_pending
  update_order order query currency death old =
      let changed : OrderInfo = record old {
        death = death;
        currency = currency;
        amount = query.amount;
      } in
      if is_pending old.payment_status
      then store (s.encode_id order) (s.encode_order changed) >> pure (modified changed)
      else pure (collision old)

  place_order :
      (order : String) (query : OrderQuery) (currency : CurrencyInfo)
      → (payment_account : String) (death : Timestamp) → Option Slot
      → Exec Tree DbError OrderCreateResponse
  unfolding store decode update_order
  place_order order query currency payment_account death (some found) =
      decode found >>= update_order order query currency death
  place_order order query currency payment_account death none =
      let fresh = new_order_info query currency payment_account death in
      store (s.encode_id order) (s.encode_order fresh) >> pure (new fresh)

  unfoldable pub create_order :
      (order : String) (query : OrderQuery) (currency : CurrencyInfo)
      → (payment_account : String) (account_lifetime : Timestamp) (now : ℕ)
      → Exec Tree DbError OrderCreateResponse
  unfolding fetch place_order calculate_death_ts
  create_order order query currency payment_account account_lifetime now =
      fetch (s.encode_id order)
      >>= place_order order query currency payment_account (calculate_death_ts now account_lifetime)

  decode_found : Option Slot → Exec Tree DbError (Option OrderInfo)
  unfolding decode
  decode_found none = pure none
  decode_found (some v) = do i ← decode v; pure (some i)

  unfoldable pub read_order : String → Exec Tree DbError (Option OrderInfo)
  unfolding fetch decode_found
  read_order order = fetch (s.encode_id order) >>= decode_found

  found_or : String → Option Slot → Exec Tree DbError OrderInfo
  unfolding decode
  found_or order none = raise (order_not_found order)
  found_or order (some v) = decode v

  unfoldable pub mark_paid : String → Exec Tree DbError OrderInfo
  unfolding fetch found_or store is_pending
  mark_paid order = do
    found ← fetch (s.encode_id order)
    i ← found_or order found
    let i' = record i { payment_status = PaymentStatus.paid }
    if is_pending i.payment_status
        then store (s.encode_id order) (s.encode_order i') >> pure i'
        else raise (already_paid order)

  -- what `mark_withdrawn` and `mark_stuck` share: they differ in the status that they write
  withdraw : WithdrawalStatus → String → Exec Tree DbError (Unit {0})
  unfolding fetch found_or store is_pending is_waiting
  withdraw status order = do
    found ← fetch (s.id_bytes order)
    i ← found_or order found
    let i' = record i { withdrawal_status = status }
    if is_pending i.payment_status
        then raise (not_paid order)
        else if is_waiting i.withdrawal_status
        then store (s.encode_id order) (s.encode_order i')
        else raise (withdrawal_was_attempted order)

  unfoldable pub mark_withdrawn : String → Exec Tree DbError (Unit {0})
  unfolding withdraw
  mark_withdrawn = withdraw WithdrawalStatus.completed

  unfoldable pub mark_stuck : String → Exec Tree DbError (Unit {0})
  unfolding withdraw
  mark_stuck = withdraw WithdrawalStatus.failed

  -- the `filter_map` and `filter` of `ActiveOrderList`
  unfoldable pub active_orders : List (Result String (Slot × Slot)) → List (String × OrderInfo)
  unfolding is_pending
  active_orders [] = []
  active_orders (err e ∷ rest) = active_orders rest
  active_orders (ok (k, v) ∷ more) =
      let rest = active_orders more in
      elim (s.decode_id k) [
        | err e ↦ rest
        | ok o ↦ elim (s.decode_order v) [
          | err e ↦ rest
          | ok i ↦ if is_pending i.payment_status then (o, i) ∷ rest else rest
        ]
      ]
