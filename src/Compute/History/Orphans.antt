-- ===== src/Compute/History/Orphans.antt =====
-- The ways in which CreateInstance ends, and the servers and rows that it leaves.
use rcp_server.Base.{
  ℕ, ◌≡◌, refl, sym, ap, subst, Bool, true, false, List, ◌∷◌, Option, none, some, arith, Text, ◌∙◌,
  inl, inr, ◌⊎◌,
}
use rcp_server.Table.{texts, select, upsert}
use rcp_server.Compute.Instances.{
  Instance, Server, CreateServerOpts, Error, operation_failed, create_failed, Result, ok, err,
  CloudCall, creates, deletes, CloudReply, served, listed, accepted, refused, World, ask,
  next_reply, save_instance,
}
use rcp_server.Compute.Creation.{
  server_from, create_server, record_server, create_validated, save_or_recall, instance_of,
  create_instance,
}
use rcp_server.Compute.History.Runs.{
  bind-ok, bind-err, create_server-world, save_or_recall-ok, save_or_recall-err,
}
use rcp_server.Compute.History.Rows.{save_cases}

abbrev pub is_served : CloudReply → Bool
is_served (served server) = true
is_served _ = false

-- OpenStack's answer to the creation was the server, and nothing else was asked.
abbrev pub Makes : CreateServerOpts → Server → World → List (CloudCall × CloudReply) → Type 0
Makes opts server w calls = calls ≡ (creates opts, served server) ∷ w.calls

-- How a CreateInstance may end: refused before any call; with no server; with the server that was made and
-- a row of its id; or with the deletion of the server that was made as the last call, and the rows as they
-- were.
pub data IsClean (owner : ℕ) (w : World) : Result Server × World → Type 0 where
  invalid : (e : Error) → IsClean owner w (err e, w)
  unmade :
      (e : Error) (opts : CreateServerOpts)
      → is_served (ask (creates opts) w).0 ≡ false
      → IsClean owner w (err e, (ask (creates opts) w).1)
  made :
      {v : World} (opts : CreateServerOpts) (server : Server) (inst : Instance)
      → Makes opts server w v.calls
      → select server.id w.rows ≡ none
      → v.rows ≡ upsert server.id inst w.rows
      → inst.owner ≡ owner
      → IsClean owner w (ok server, v)
  recalled :
      {v : World} (e : Error) (opts : CreateServerOpts) (server : Server)
      → v.rows ≡ w.rows
      → (reply : CloudReply) (calls : List (CloudCall × CloudReply))
      → v.calls ≡ (deletes server.id, reply) ∷ calls
      → Makes opts server w calls
      → IsClean owner w (err e, v)

module _ (id : Text) (inst : Instance) (v : World) where
  recalled_result :
      (save_instance id inst v).0 ≡ err operation_failed
      → (save_or_recall id inst v).0 ≡ err operation_failed
  unfolding save_or_recall
  recalled_result h = ground arith

  saved_result : (save_instance id inst v).0 ≡ ok tt → (save_or_recall id inst v).0 ≡ ok tt
  unfolding save_or_recall
  saved_result h = ground arith

module _ (owner : ℕ) (w : World) where
  record_server-IsClean :
      (opts : CreateServerOpts) (server : Server) (v : World)
      → v.rows ≡ w.rows
      → Makes opts server w v.calls
      → IsClean owner w (record_server owner opts server v)
  unfolding record_server instance_of
  record_server-IsClean opts server v same makes =
      let inst = instance_of owner opts server in
      let (quiet, cases) = save_cases server.id inst v in
      elim cases [
        | inl (kept, failed) ↦
            subst (IsClean owner w)
              (sym (
                bind-err (save_or_recall server.id inst) (λ _ u. (ok server, u)) v operation_failed
                  (recalled_result server.id inst v failed)))
              (recalled operation_failed opts server
                (ground
                  (arith, save_or_recall-err server.id inst v operation_failed failed, kept, same))
                (ask (deletes server.id) (save_instance server.id inst v).1).0
                (save_instance server.id inst v).1.calls
                (ap (λ u. u.calls) (save_or_recall-err server.id inst v operation_failed failed))
                (quiet ∙ makes))
        | inr (free, saved, is) ↦
            let stays = save_or_recall-ok server.id inst v tt saved in
            subst (IsClean owner w)
              (sym (
                bind-ok (save_or_recall server.id inst) (λ _ u. (ok server, u)) v tt
                  (saved_result server.id inst v saved)))
              (made opts server inst (ap (λ u. u.calls) stays ∙ quiet ∙ makes)
                (ap (select server.id) (sym same) ∙ free)
                (ap (λ u. u.rows) stays ∙ is ∙ ap (upsert server.id inst) same) refl)
      ]

  server_of_reply :
      (opts : CreateServerOpts)
      → ((server : Server) × ((ask (creates opts) w).0 ≡ served server)
          × ((create_server opts w).0 ≡ ok server))
        ⊎ ((is_served (ask (creates opts) w).0 ≡ false)
            × ((create_server opts w).0 ≡ err create_failed))
  server_of_reply opts =
      elim (next_reply w.replies).0
        as (λ r.
          ((server : Server) × (r ≡ served server) × (server_from r ≡ ok server))
          ⊎ ((is_served r ≡ false) × (server_from r ≡ err create_failed))) [
            | served server ↦ inl (server, refl, refl)
            | listed servers ↦ inr (refl, refl)
            | accepted ↦ inr (refl, refl)
            | refused b ↦ inr (refl, refl)
          ]

  create_validated-IsClean :
      (opts : CreateServerOpts) (e : Option Error)
      → IsClean owner w (create_validated owner opts e w)
  unfolding create_validated
  create_validated-IsClean opts (some e) = invalid e
  create_validated-IsClean opts none = elim (server_of_reply opts) [
    | inl (server, reply, is) ↦
        subst (IsClean owner w)
          (sym (bind-ok (create_server opts) (record_server owner opts) w server is))
          (record_server-IsClean opts server _ (ap (λ u. u.rows) (create_server-world opts w)) (
            ap (λ u. u.calls) (create_server-world opts w)
            ∙ ap (λ r. (creates opts, r) ∷ w.calls) reply))
    | inr (reply, is) ↦
        subst (IsClean owner w)
          (sym (bind-err (create_server opts) (record_server owner opts) w create_failed is))
          (subst (λ u. IsClean owner w (err create_failed, u)) (sym (create_server-world opts w))
            (unmade create_failed opts reply))
  ]

  -- However CreateInstance ends, it is clean. It returns the server that OpenStack has made, of whose id no
  -- row was there and now the owner has one; or OpenStack made none, or was not asked; or no row has changed,
  -- and the last call was for the deletion of the server that was made.
  pub create_instance-IsClean :
      (default_network : Text) (raw : CreateServerOpts)
      → IsClean owner w (create_instance default_network owner raw w)
  unfolding create_instance
  create_instance-IsClean default_network raw = create_validated-IsClean _ _
