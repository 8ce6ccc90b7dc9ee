-- ===== src/Database/Tests.antt =====
-- The theorems on src/database.rs at a sale.

use kalatori_backend.Prelude.{◌≡◌, refl, Option, none, some, true, ok-inj, List, [], ◌∷◌, ok, err}
use kalatori_backend.Errors.{order_not_found}
use kalatori_backend.Definitions.{OrderInfo, ServerInfo, PaymentStatus, new, new_order_info}
use kalatori_backend.Database.{
  is_pending, create_order, read_order, mark_paid, mark_withdrawn, mark_stuck,
}
use kalatori_backend.Database.Ledger.{Shows, put, create_order-refines, mark_paid-refines}
use kalatori_backend.Database.Withdrawal.{withdrawal_not_recorded}
use kalatori_backend.Database.Server.{Env, DbRequest, run, ask_instance}
use kalatori_backend.Database.Server.Instance.{instance_kept}
use kalatori_backend.Database.Books.{books_step, books_run, Agrees, run-refines}
use kalatori_backend.Database.Final.{Stays, order_kept}
use kalatori_backend.Fixtures.{
  Slot, lookup, shelf, shelf-IsStorage, usdc, query, week, fresh, nothing-Shows, setup, noon, up,
  shop, up-Agrees,
}

create_order-refines_example :
    let (r, t') = create_order shelf "7" query usdc "acc7" week 1000 [] in
    (r ≡ ok (new fresh)) × Shows shelf t' (put "7" fresh (λ o. none))
create_order-refines_example =
    create_order-refines shelf shelf-IsStorage [] (λ o. none) nothing-Shows "7" query usdc "acc7"
      week 1000

mark_paid-refines_example :
    let (r, t') = mark_paid shelf "8" [] in
    (r ≡ err (order_not_found "8")) × Shows shelf t' (λ o. none)
mark_paid-refines_example = mark_paid-refines shelf shelf-IsStorage [] (λ o. none) nothing-Shows "8"

withdrawal_not_recorded_example :
    let placed = (create_order shelf "7" query usdc "acc7" week 1000 []).1 in
    let (r, t') = mark_paid shelf "7" placed in
    (r ≡ ok (record fresh { payment_status = PaymentStatus.paid }))
    × (mark_withdrawn shelf "7" t' ≡ (err (order_not_found "7"), t'))
    × (mark_stuck shelf "7" t' ≡ (err (order_not_found "7"), t'))
unfolding lookup
withdrawal_not_recorded_example =
    withdrawal_not_recorded shelf shelf-IsStorage [] "7" query usdc "acc7" week 1000 refl refl

abbrev purchase : List (Env × DbRequest)
purchase =
    (noon, DbRequest.create_order "7" query usdc "acc7")
    ∷ (noon, DbRequest.mark_paid "7")
    ∷ (noon, DbRequest.create_order "7" query usdc "acc9")
    ∷ []

run-refines_example :
    let (replies, d') = run shelf setup purchase up in
    let (replies', b') = books_run week purchase shop in
    (replies ≡ replies') × Agrees shelf setup d' b'
run-refines_example =
    run-refines shelf setup shelf-IsStorage purchase up shop (tt, (tt, (tt, tt))) up-Agrees

abbrev settled : OrderInfo
settled = record fresh { payment_status = PaymentStatus.paid }

-- The order is paid by the first purchase; the second history cannot change it.
order_kept_example :
    let d = (run shelf setup purchase up).1 in
    (m : Option OrderInfo) × ((read_order shelf "7" (run shelf setup purchase d).1.orders).0 ≡ ok m)
    × Stays settled m
unfolding books_run books_step new_order_info is_pending
order_kept_example =
    order_kept shelf setup shelf-IsStorage purchase (run shelf setup purchase up).1
      (books_run week purchase shop).1 "7" settled (tt, (tt, (tt, tt))) run-refines_example.1 refl

setup-reads : (i : ServerInfo) (v : Slot) → setup.to_vec i ≡ ok v → setup.from_slice v ≡ ok i
setup-reads i v e = rw (← ok-inj e) refl

-- another name is generated after the restart
instance_kept_example :
    let after =
      (run shelf setup
        ((noon, DbRequest.mark_paid "7") ∷ (noon, DbRequest.initialize_server_info) ∷ [])
        (ask_instance shelf setup noon up).1).1 in
    (ask_instance shelf setup
      (record noon { generated = some "dark-sea" })
      (record after { running = true })).0
    ≡ ok "calm-lake"
unfolding ask_instance lookup
instance_kept_example =
    instance_kept shelf setup shelf-IsStorage setup-reads noon
      (record noon { generated = some "dark-sea" })
      ((noon, DbRequest.mark_paid "7") ∷ (noon, DbRequest.initialize_server_info) ∷ []) "calm-lake"
      up refl refl
