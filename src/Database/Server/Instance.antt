-- ===== src/Database/Server/Instance.antt =====
-- The ID of the instance in src/database.rs, which is kept in the tree of the server info.
use kalatori_backend.Prelude.{
  String, ◌≡◌, refl, true, Bool-cases, inl, inr, Option, none, some, List, [], ◌∷◌, Result, ok, err,
  ok-inj, ap, sym, subst, arith,
}
use kalatori_backend.Prelude.Exec.{Exec}
use kalatori_backend.Errors.{DbError}
use kalatori_backend.Definitions.{ServerInfo}
use kalatori_backend.Database
use kalatori_backend.Database.{Storage, IsStorage, active_orders}
use kalatori_backend.Database.Server.{
  Env, Setup, Server, DbRequest, create_order, active_order_list, read_order, mark_paid,
  mark_withdrawn, mark_stuck, initialize_server_info, shutdown, ask, saved_id, id_of, fresh_info,
  write_made, fresh_name, write_id, instance_from, load_instance, ask_instance, order_list, handle,
  run,
}

module _ {Slot Tree : Type 0} (s : Storage Slot Tree) (setup : Setup Slot) where
  -- the tree holds an ID of the instance
  record Known (id : String) (t : Tree) : Type 0 where
    saved : Slot
    info : ServerInfo
    is_there : s.get t setup.server_info_id ≡ ok (some saved)
    is_read : setup.from_slice saved ≡ ok info
    is_id : info.instance_id ≡ id

  ask-server_info :
      {A : Type 0} (m : Exec Tree DbError A) (d : Server Tree)
      → (ask s setup m d).1.server_info ≡ d.server_info
  unfolding ask
  ask-server_info m d = elim (Bool-cases d.running) [
    | inl up ↦ rw up refl
    | inr down ↦ rw down refl
  ]

  opened_Known :
      (opened : Result String (Unit {0})) (env : Env) (id : String) (t : Tree)
      → env.opened ≡ opened
      → Known id t
      → (load_instance s setup env t).1 ≡ t
  unfolding load_instance instance_from
  opened_Known (err e) env id t at_env k = rw at_env refl
  opened_Known (ok done) env id t at_env k = rw at_env (rw k.is_there refl)

  load_instance_ok :
      (env : Env) (id : String) (t : Tree)
      → env.opened ≡ ok tt
      → Known id t
      → (load_instance s setup env t).0 ≡ ok id
  unfolding load_instance instance_from saved_id id_of
  load_instance_ok env id t at_env k = rw at_env (rw k.is_there (rw k.is_read (ap ok k.is_id)))

  ask-Known :
      {A : Type 0} (m : Exec Tree DbError A) (id : String) (d : Server Tree)
      → Known id d.server_info
      → Known id (ask s setup m d).1.server_info
  ask-Known m id d k = subst (Known id) (sym (ask-server_info m d)) k

  ask_instance-Known :
      (env : Env) (id : String) (d : Server Tree)
      → Known id d.server_info
      → Known id (ask_instance s setup env d).1.server_info
  unfolding ask_instance
  ask_instance-Known env id d k = elim (Bool-cases d.running) [
    | inl up ↦
        rw up (subst (Known id) (sym (opened_Known env.opened env id d.server_info refl k)) k)
    | inr down ↦ rw down k
  ]

  handle-Known :
      (env : Env) (r : DbRequest) (id : String) (d : Server Tree)
      → Known id d.server_info
      → Known id (handle s setup env r d).1.server_info
  unfolding handle order_list
  handle-Known env (create_order o q c account) id d k =
      ask-Known (Database.create_order s o q c account setup.account_lifetime env.now) id d k
  handle-Known env active_order_list id d k =
      ask-Known (λ t. (ok (active_orders s (s.iter t)), t)) id d k
  handle-Known env (read_order o) id d k = ask-Known (Database.read_order s o) id d k
  handle-Known env (mark_paid o) id d k = ask-Known (Database.mark_paid s o) id d k
  handle-Known env (mark_withdrawn o) id d k = ask-Known (Database.mark_withdrawn s o) id d k
  handle-Known env (mark_stuck o) id d k = ask-Known (Database.mark_stuck s o) id d k
  handle-Known env initialize_server_info id d k = ask_instance-Known env id d k
  handle-Known env shutdown id d k = k

  run-Known :
      (requests : List (Env × DbRequest)) (id : String) (d : Server Tree)
      → Known id d.server_info
      → Known id (run s setup requests d).1.server_info
  unfolding run
  run-Known [] id d k = k
  run-Known ((env, r) ∷ rest) id d k =
      run-Known rest id (handle s setup env r d).1 (handle-Known env r id d k)

  module _ (laws : IsStorage s)
      (reads : (i : ServerInfo) (v : Slot)
        → setup.to_vec i ≡ ok v
        → setup.from_slice v ≡ ok i) where
    write_id-Known :
        (name id : String) (t : Tree) (r : Result String Slot)
        → setup.to_vec (fresh_info s setup name) ≡ r
        → (write_id s setup name t).0 ≡ ok id
        → Known id (write_id s setup name t).1
    unfolding write_id write_made fresh_info
    write_id-Known name id t (err e) made h = ground (arith, made, h)
    write_id-Known name id t (ok v) made h = rw made (record {
      saved = v;
      info = fresh_info s setup name;
      is_there = laws.get_insert_self t setup.server_info_id v;
      is_read = reads (fresh_info s setup name) v made;
      is_id = ok-inj (rw (made, laws.insert_ok t setup.server_info_id v) at h);
    })

    saved_Known :
        (v : Slot) (id : String) (t : Tree) (r : Result String ServerInfo)
        → s.get t setup.server_info_id ≡ ok (some v)
        → setup.from_slice v ≡ r
        → saved_id s setup v ≡ ok id
        → Known id t
    unfolding saved_id id_of
    saved_Known v id t (err e) found read h = ground (arith, read, h)
    saved_Known v id t (ok i) found read h = record {
      saved = v;
      info = i;
      is_there = found;
      is_read = read;
      is_id = ok-inj (rw read at h);
    }

    instance_from-Known :
        (env : Env) (slot : Option Slot) (id : String) (t : Tree)
        → s.get t setup.server_info_id ≡ ok slot
        → (instance_from s setup env slot t).0 ≡ ok id
        → Known id (instance_from s setup env slot t).1
    unfolding instance_from
    instance_from-Known env none id t found h =
        write_id-Known (fresh_name s setup env.generated) id t
          (setup.to_vec (fresh_info s setup (fresh_name s setup env.generated))) refl h
    instance_from-Known env (some v) id t found h =
        saved_Known v id t (setup.from_slice v) found refl h

    load_instance-Known :
        (env : Env) (id : String) (t : Tree) (opened : Result String (Unit {0}))
        (slot : Result String (Option Slot))
        → env.opened ≡ opened
        → s.get t setup.server_info_id ≡ slot
        → (load_instance s setup env t).0 ≡ ok id
        → Known id (load_instance s setup env t).1
    unfolding load_instance
    load_instance-Known env id t (err e) slot at_env got h = ground (arith, at_env, h)
    load_instance-Known env id t (ok done) (err e) at_env got h = ground (arith, at_env, got, h)
    load_instance-Known env id t (ok done) (ok slot) at_env got h =
        rw (at_env, got) (instance_from-Known env slot id t got (rw (at_env, got) at h))

    answered-Known :
        (env : Env) (id : String) (d : Server Tree)
        → (ask_instance s setup env d).0 ≡ ok id
        → Known id (ask_instance s setup env d).1.server_info
    unfolding ask_instance
    answered-Known env id d h = elim (Bool-cases d.running) [
      | inl up ↦ rw up (
          load_instance-Known env id d.server_info env.opened
            (s.get d.server_info setup.server_info_id) refl refl (rw up at h))
      | inr down ↦ absurd (ground (arith, down, h))
    ]

    -- Let writes succeed and be read back, and let the server info be decoded from what it is encoded
    -- as. When the task of the database has answered with an ID of the instance, and has then handled
    -- any requests, it answers with the same ID after a restart that opens the tree of the server info.
    pub instance_kept :
        (env env' : Env) (requests : List (Env × DbRequest)) (id : String) (d : Server Tree)
        → (ask_instance s setup env d).0 ≡ ok id
        → env'.opened ≡ ok tt
        → let after = (run s setup requests (ask_instance s setup env d).1).1 in
          (ask_instance s setup env' (record after { running = true })).0 ≡ ok id
    unfolding ask_instance
    instance_kept env env' requests id d h at_env =
        load_instance_ok env' id _ at_env
          (run-Known requests id (ask_instance s setup env d).1 (answered-Known env id d h))
