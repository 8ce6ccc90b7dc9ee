-- ===== src/Database/Final.antt =====
-- What no sale can change: the orders of src/database.rs over any history of requests.
use kalatori_backend.Prelude.{
  String, ◌≡◌, refl, ap, sym, ◌∙◌, Option, none, some, List, [], ◌∷◌, Result, ok, err, arith,
  str_eq, eq_iff, Bool-cases, inl, inr,
}
use kalatori_backend.Errors.{DbError}
use kalatori_backend.Definitions.{Timestamp, OrderInfo, OrderQuery, CurrencyInfo, PaymentStatus}
use kalatori_backend.Database
use kalatori_backend.Database.{Storage, IsStorage, calculate_death_ts, is_pending}
use kalatori_backend.Database.Server.{Env, Setup, Server, DbRequest, create_order, mark_paid, run}
use kalatori_backend.Database.Ledger.{Ledger, put, create_reply, stored, pay_reply, paid_ledger}
use kalatori_backend.Database.Books.{
  Books, AreSales, posted, books_step, books_run, Agrees, run-refines,
}

-- The later order has the account, the callback and the withdrawal status of the earlier one, and a
-- paid order is the same in every field.
pub record Keeps (i j : OrderInfo) : Type 0 where
  pub account : j.payment_account ≡ i.payment_account
  pub callback : j.callback ≡ i.callback
  pub withdrawal : j.withdrawal_status ≡ i.withdrawal_status
  pub settled : i.payment_status ≡ PaymentStatus.paid → j ≡ i

abbrev pub Stays : OrderInfo → Option OrderInfo → Type 0
Stays i none = ⊥
Stays i (some j) = Keeps i j

Keeps-refl : (i : OrderInfo) → Keeps i i
Keeps-refl i = record { account = refl; callback = refl; withdrawal = refl; settled = λ _. refl }

Keeps-trans : (i j k : OrderInfo) → Keeps i j → Keeps j k → Keeps i k
Keeps-trans i j k a b = record {
  account = b.account ∙ a.account;
  callback = b.callback ∙ a.callback;
  withdrawal = b.withdrawal ∙ a.withdrawal;
  settled =
      λ p. b.settled (ap (λ (x : OrderInfo). x.payment_status) (a.settled p) ∙ p) ∙ a.settled p;
}

module _ (i : OrderInfo) where
  create-Keeps :
      (q : OrderQuery) (c : CurrencyInfo) (account : String) (death : Timestamp)
      → Keeps i (stored (create_reply q c account death (some i)))
  unfolding is_pending
  create-Keeps q c account death = ground arith

  pay-Keeps : (o : String) {j : OrderInfo} → pay_reply o (some i) ≡ ok j → Keeps i j
  unfolding is_pending
  pay-Keeps o h = ground arith

  Stays-of_eq : (m : Option OrderInfo) → m ≡ some i → Stays i m
  Stays-of_eq m h = rw h (Keeps-refl i)

  -- Entering an order keeps `i` at `o`, if what is entered at `o` keeps it.
  put-Stays :
      (o' o : String) (l : Ledger) (j : OrderInfo)
      → l o ≡ some i
      → (o' ≡ o → Keeps i j)
      → Stays i (put o' j l o)
  put-Stays o' o l j h keeps = elim (Bool-cases (str_eq o' o)) [
    | inl same ↦ rw same (keeps ((eq_iff o' o).0 same))
    | inr other ↦ rw other (Stays-of_eq (l o) h)
  ]

  paid_ledger-Stays :
      (o' o : String) (l : Ledger) (r : Result DbError OrderInfo)
      → l o ≡ some i
      → pay_reply o' (l o') ≡ r
      → Stays i (paid_ledger o' r l o)
  paid_ledger-Stays o' o l (err e) h p = Stays-of_eq (l o) h
  paid_ledger-Stays o' o l (ok j) h p =
      put-Stays o' o l j h λ same. pay-Keeps o' (ap (pay_reply o') (sym (ap l same ∙ h)) ∙ p)

  posted-Stays :
      (b : Books) (l : Ledger) (o : String)
      → b.ledger o ≡ some i
      → Stays i (l o)
      → Stays i ((posted b l).ledger o)
  posted-Stays b l o h k = elim (Bool-cases b.is_open) [
    | inl up ↦ rw up k
    | inr down ↦ rw down (Stays-of_eq (b.ledger o) h)
  ]

  module _ (lifetime : Timestamp) where
    books_step-Stays :
        (env : Env) (request : DbRequest) (b : Books) (o : String)
        → b.ledger o ≡ some i
        → Stays i ((books_step lifetime env request b).1.ledger o)
    unfolding books_step
    books_step-Stays env (create_order o' q c account) b o h = posted-Stays b _ o h (
        put-Stays o' o b.ledger _ h λ same.
          rw (ap b.ledger same ∙ h)
            (create-Keeps q c account (calculate_death_ts env.now lifetime)))
    books_step-Stays env (mark_paid o') b o h =
        posted-Stays b _ o h (paid_ledger-Stays o' o b.ledger (pay_reply o' (b.ledger o')) h refl)
    books_step-Stays env _ b o h = Stays-of_eq (b.ledger o) h

Stays-trans : (i j : OrderInfo) (m : Option OrderInfo) → Keeps i j → Stays j m → Stays i m
Stays-trans i j none a b = b
Stays-trans i j (some k) a b = Keeps-trans i j k a b

step_after :
    (lifetime : Timestamp) (env : Env) (request : DbRequest) (i : OrderInfo) (b : Books)
    → (o : String) (m : Option OrderInfo) → b.ledger o ≡ m
    → Stays i m
    → Stays i ((books_step lifetime env request b).1.ledger o)
step_after lifetime env request i b o none e k = absurd k
step_after lifetime env request i b o (some j) e k =
    Stays-trans i j _ k (books_step-Stays j lifetime env request b o e)

books_run-Stays :
    (lifetime : Timestamp) (rs : List (Env × DbRequest)) (i : OrderInfo) (b : Books) (o : String)
    → Stays i (b.ledger o)
    → Stays i ((books_run lifetime rs b).1.ledger o)
unfolding books_run
books_run-Stays lifetime [] i b o k = k
books_run-Stays lifetime ((env, request) ∷ rest) i b o k =
    books_run-Stays lifetime rest i (books_step lifetime env request b).1 o
      (step_after lifetime env request i b o (b.ledger o) refl k)

module _ {Slot Tree : Type 0} (s : Storage Slot Tree) (setup : Setup Slot) where
  module _ (laws : IsStorage s) where
    -- Let the task agree with books in which the order `o` is `i`. After any requests of sales, a
    -- read of `o` finds an order with the payment account, the callback and the withdrawal status
    -- of `i`; if `i` is paid, the order is `i` itself.
    pub order_kept :
        (rs : List (Env × DbRequest)) (d : Server Tree) (b : Books) (o : String) (i : OrderInfo)
        → AreSales rs
        → Agrees s setup d b
        → b.ledger o ≡ some i
        → (m : Option OrderInfo) × ((Database.read_order s o (run s setup rs d).1.orders).0 ≡ ok m)
          × Stays i m
    order_kept rs d b o i sales a h =
        let (_, a') = run-refines s setup laws rs d b sales a in
        (
          (books_run setup.account_lifetime rs b).1.ledger o,
          a'.shows o,
          books_run-Stays setup.account_lifetime rs i b o (Stays-of_eq i (b.ledger o) h),
        )
