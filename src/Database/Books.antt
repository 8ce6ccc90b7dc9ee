-- ===== src/Database/Books.antt =====
-- What the database task promises: the books of a shop, an abstract ledger with a flag that says
-- whether it is open. The requests of src/database.rs that a sale makes are replayed on them.
use kalatori_backend.Prelude.{
  ◌≡◌, refl, ap, ap₂, sym, ◌∙◌, Bool-cases, inl, inr, Bool, true, false, List, [], ◌∷◌, Result, ok,
  err, All, arith, if◌then◌else◌,
}
use kalatori_backend.Prelude.Exec.{Exec}
use kalatori_backend.Database
use kalatori_backend.Errors.{DbError, db_engine_down}
use kalatori_backend.Definitions.{Timestamp}
use kalatori_backend.Database.{Storage, IsStorage, calculate_death_ts, is_pending}
use kalatori_backend.Database.Server.{
  Env, Setup, Server, DbRequest, create_order, active_order_list, read_order, mark_paid,
  mark_withdrawn, mark_stuck, initialize_server_info, shutdown, DbReply, created, found, paid,
  stopped, ask, handle, run,
}
use kalatori_backend.Database.Ledger.{
  Ledger, put, create_reply, stored, pay_reply, paid_ledger, Shows, create_order-refines,
  mark_paid-refines, read_order_tree,
}

pub record Books : Type 0 where
  pub is_open : Bool
  pub ledger : Ledger

-- The requests that the daemon's state handler makes about an order, and the shutdown.
abbrev pub IsSale : DbRequest → Type 0
IsSale (create_order o q c account) = Unit
IsSale (read_order o) = Unit
IsSale (mark_paid o) = Unit
IsSale shutdown = Unit
IsSale _ = ⊥

abbrev pub or_closed : {A : Type 0} → Books → Result DbError A → Result DbError A
or_closed b r = if b.is_open then r else err db_engine_down

abbrev pub posted : Books → Ledger → Books
posted b l = if b.is_open then record b { ledger = l } else b

-- One request on the books. The requests that are no sale leave them alone.
unfoldable pub books_step : Timestamp → Env → DbRequest → Books → DbReply × Books
books_step lifetime env (create_order o q c account) b =
    let reply = create_reply q c account (calculate_death_ts env.now lifetime) (b.ledger o) in
    (created (or_closed b (ok reply)), posted b (put o (stored reply) b.ledger))
books_step lifetime env (read_order o) b = (found (or_closed b (ok (b.ledger o))), b)
books_step lifetime env (mark_paid o) b =
    let reply = pay_reply o (b.ledger o) in
    (paid (or_closed b reply), posted b (paid_ledger o reply b.ledger))
books_step lifetime env shutdown b = (stopped, record b { is_open = false })
books_step lifetime env _ b = (stopped, b)

unfoldable pub books_run : Timestamp → List (Env × DbRequest) → Books → List DbReply × Books
books_run lifetime [] b = ([], b)
books_run lifetime ((env, request) ∷ rest) b =
    let (reply, b') = books_step lifetime env request b in
    let (replies, b'') = books_run lifetime rest b' in (reply ∷ replies, b'')

abbrev pub AreSales : List (Env × DbRequest) → Type 0
AreSales = All (λ r. IsSale r.1)

module _ {Slot Tree : Type 0} (s : Storage Slot Tree) (setup : Setup Slot) where
  -- The task agrees with the books.
  pub record Agrees (d : Server Tree) (b : Books) : Type 0 where
    pub status : d.running ≡ b.is_open
    pub shows : Shows s d.orders b.ledger

  module _ (laws : IsStorage s) where
    -- An operation that the ledger follows, asked of the task.
    ask-Agrees :
        {A : Type 0} (m : Exec Tree DbError A) (r : Result DbError A) (l : Ledger)
        → (d : Server Tree) (b : Books) → Agrees d b
        → (m d.orders).0 ≡ r
        → Shows s (m d.orders).1 l
        → ((ask s setup m d).0 ≡ or_closed b r) × Agrees (ask s setup m d).1 (posted b l)
    unfolding ask
    ask-Agrees m r l d b a e h = elim (Bool-cases d.running) [
      | inl up ↦
          let open_now : b.is_open ≡ true = sym a.status ∙ up in
          rw (up, open_now, e) (refl, record { status = refl; shows = h })
      | inr down ↦
          let shut : b.is_open ≡ false = sym a.status ∙ down in
          rw (down, shut) (refl, record { status = refl; shows = a.shows })
    ]

    posted_same : (b : Books) → posted b b.ledger ≡ b
    posted_same b = ground arith

    handle-Agrees :
        (env : Env) (request : DbRequest) (d : Server Tree) (b : Books)
        → IsSale request
        → Agrees d b
        → let (reply, d') = handle s setup env request d in
          let (reply', b') = books_step setup.account_lifetime env request b in
          (reply ≡ reply') × Agrees d' b'
    unfolding handle books_step
    handle-Agrees env (create_order o q c account) d b sale a =
        let (e, h) =
          create_order-refines s laws d.orders b.ledger a.shows o q c account setup.account_lifetime
            env.now in
        let (e', a') =
          ask-Agrees (Database.create_order s o q c account setup.account_lifetime env.now) _ _ d b
            a e h in
        (ap created e', a')
    handle-Agrees env (read_order o) d b sale a =
        let (e, a') =
          ask-Agrees (Database.read_order s o) (ok (b.ledger o)) b.ledger d b a (a.shows o)
            (rw read_order_tree a.shows) in
        (ap found e, rw posted_same at a')
    handle-Agrees env (mark_paid o) d b sale a =
        let (e, h) = mark_paid-refines s laws d.orders b.ledger a.shows o in
        let (e', a') = ask-Agrees (Database.mark_paid s o) _ _ d b a e h in (ap paid e', a')
    handle-Agrees env shutdown d b sale a = (refl, record { status = refl; shows = a.shows })
    handle-Agrees env active_order_list d b sale a = absurd sale
    handle-Agrees env (mark_withdrawn o) d b sale a = absurd sale
    handle-Agrees env (mark_stuck o) d b sale a = absurd sale
    handle-Agrees env initialize_server_info d b sale a = absurd sale

    -- While the task and the books agree, any requests of sales get the same replies from both,
    -- and leave them in agreement.
    pub run-refines :
        (rs : List (Env × DbRequest)) (d : Server Tree) (b : Books)
        → AreSales rs
        → Agrees d b
        → let (replies, d') = run s setup rs d in
          let (replies', b') = books_run setup.account_lifetime rs b in
          (replies ≡ replies') × Agrees d' b'
    unfolding run books_run
    run-refines [] d b sales a = (refl, a)
    run-refines ((env, request) ∷ rest) d b (sale, sales) a =
        let (same, a') = handle-Agrees env request d b sale a in
        let (same', a'') = run-refines rest _ _ sales a' in (ap₂ ◌∷◌ same same', a'')
