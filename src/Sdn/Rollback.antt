-- ===== src/Sdn/Rollback.antt =====
-- What a rollback of server/sdn_adapter.py takes back.
use pathwiseai.Prelude.{
  ℕ, String, ◌≡◌, refl, ap, ◌∙◌, Bool, true, false, none, some, List, [], ◌∷◌, ◌++◌, arith, eq_refl,
}
use pathwiseai.Prelude.Dict.{Dict, lookup, insert, erase, lookup-insert, lookup-erase}
use pathwiseai.Sdn.Defs.{
  odl, both, Reply, odl_put, odl_delete, onos_post, onos_delete, Exchange, returned,
  odl_install_flow, odl_delete_flow, onos_install_flow, onos_delete_flow, Installed, on_odl,
  on_onos, Adapter, is_returned_true, given_id, update_flow_table, rollback_flow, odl_after,
  odl_live_from, odl_live,
}

odl_live-append :
    (node : String) (table : ℕ) (flow : String) (live : Bool) (xs ys : List Exchange)
    → odl_live_from node table flow live (xs ++ ys)
      ≡ odl_live_from node table flow (odl_live_from node table flow live xs) ys
odl_live-append node table flow live [] ys = refl
odl_live-append node table flow live (x ∷ xs) ys =
    odl_live-append node table flow (odl_after node table flow live x) xs ys

-- A rollback, whatever the controller answers, makes the adapter forget the flow. So a second
-- rollback of the flow fails without a request, also when the first one failed.
pub rollback_flow_twice :
    (flow : String) (reply reply' : Reply) (a : Adapter)
    → let a' = (rollback_flow flow reply a).1 in
      let (success, a'') = rollback_flow flow reply' a' in
      (success ≡ false) × (a''.exchanges ≡ a'.exchanges)
unfolding rollback_flow
rollback_flow_twice flow reply reply' a =
    ground (arith, lookup-erase flow flow a.installed_flows, eq_refl flow)

module _ (node : String) (flow : String) (table : ℕ) (a : Adapter) where
  -- The adapter after an installation that it records as `entry`.
  abbrev after_update : Installed → List Exchange → Adapter
  after_update entry xs = record a {
    installed_flows = insert flow entry a.installed_flows;
    exchanges = a.exchanges ++ xs;
  }

  update-odl :
      (reply onos_reply : Reply)
      → a.controller_type ≡ odl
      → (update_flow_table node flow table reply onos_reply a).0 ≡ true
      → (odl_install_flow reply ≡ returned true)
        × ((update_flow_table node flow table reply onos_reply a).1
            ≡ after_update (on_odl node table) ((odl_put node table flow, reply) ∷ []))
  unfolding update_flow_table
  update-odl reply onos_reply alone done = ground arith

  update-both :
      (reply onos_reply : Reply) (id : String)
      → a.controller_type ≡ both
      → odl_install_flow reply ≡ returned true
      → given_id (onos_install_flow onos_reply) ≡ some id
      → (update_flow_table node flow table reply onos_reply a).1 ≡ record a {
        installed_flows =
            insert flow (on_onos node table id) (insert flow (on_odl node table) a.installed_flows);
        exchanges =
            (a.exchanges ++ (odl_put node table flow, reply) ∷ [])
            ++ (onos_post node, onos_reply) ∷ [];
      }
  unfolding update_flow_table
  update-both reply onos_reply id two odl_accepts onos_accepts = ground arith

  live_after_put :
      (reply : Reply) (live : Bool)
      → odl_install_flow reply ≡ returned true
      → odl_after node table flow live (odl_put node table flow, reply) ≡ true
  live_after_put reply live accepts = ground (arith, eq_refl node, eq_refl flow)

  dead_after_delete :
      (reply : Reply) (live : Bool)
      → odl_delete_flow reply ≡ returned true
      → odl_after node table flow live (odl_delete node table flow, reply) ≡ false
  dead_after_delete reply live accepts = ground (arith, eq_refl node, eq_refl flow)

rollback-odl :
    (flow node : String) (table : ℕ) (reply : Reply) (a : Adapter)
    → lookup flow a.installed_flows ≡ some (on_odl node table)
    → rollback_flow flow reply a ≡ (
      is_returned_true (odl_delete_flow reply),
      record a {
        installed_flows = erase flow a.installed_flows;
        exchanges = a.exchanges ++ (odl_delete node table flow, reply) ∷ [];
      },
    )
unfolding rollback_flow
rollback-odl flow node table reply a found = rw (found, rollback_flow) refl

rollback-onos :
    (flow node id : String) (table : ℕ) (reply : Reply) (a : Adapter)
    → lookup flow a.installed_flows ≡ some (on_onos node table id)
    → rollback_flow flow reply a ≡ (
      is_returned_true (onos_delete_flow reply),
      record a {
        installed_flows = erase flow a.installed_flows;
        exchanges = a.exchanges ++ (onos_delete node id, reply) ∷ [];
      },
    )
unfolding rollback_flow
rollback-onos flow node id table reply a found = rw (found, rollback_flow) refl

lookup-insert_self :
    (flow : String) (entry : Installed) (d : Dict Installed)
    → lookup flow (insert flow entry d) ≡ some entry
lookup-insert_self flow entry d = rw (lookup-insert, eq_refl) refl

lookup-erase_self : (flow : String) (d : Dict Installed) → lookup flow (erase flow d) ≡ none
lookup-erase_self flow d = rw (lookup-erase, eq_refl) refl

module _ (node flow : String) (table : ℕ) (a : Adapter) where
  -- With OpenDaylight alone: an update that succeeds puts the flow on the switch, and if
  -- OpenDaylight accepts the deletion, the rollback succeeds and takes the flow from the switch.
  pub rollback_flow-update_flow_table :
      (reply onos_reply reply' : Reply)
      → a.controller_type ≡ odl
      → (update_flow_table node flow table reply onos_reply a).0 ≡ true
      → odl_delete_flow reply' ≡ returned true
      → let a' = (update_flow_table node flow table reply onos_reply a).1 in
        let (success, a'') = rollback_flow flow reply' a' in
        (odl_live node table flow a' ≡ true)
        × (success ≡ true)
        × (odl_live node table flow a'' ≡ false)
        × (lookup flow a''.installed_flows ≡ none)
  rollback_flow-update_flow_table reply onos_reply reply' alone done accepted =
      let (installed, updated) = update-odl node flow table a reply onos_reply alone done in
      let entry = on_odl node table in
      let xs : List Exchange = (odl_put node table flow, reply) ∷ [] in
      let a' = after_update node flow table a entry xs in
      let rolled =
        rollback-odl flow node table reply' a' (lookup-insert_self flow entry a.installed_flows) in
      let live : odl_live node table flow a' ≡ true =
        odl_live-append node table flow false a.exchanges xs
        ∙ live_after_put node flow table a reply (odl_live node table flow a) installed in
      rw (updated, rolled)
        (
          live,
          ap is_returned_true accepted,
          odl_live-append node table flow false a'.exchanges
                ((odl_delete node table flow, reply') ∷ [])
              ∙ dead_after_delete node flow table a reply' (odl_live node table flow a') accepted,
          lookup-erase_self flow (insert flow entry a.installed_flows),
        )

  -- With both controllers: when both accept the flow, a rollback asks ONOS alone, so that the flow
  -- stays on the switch of OpenDaylight, and the adapter forgets it.
  pub rollback_flow-both :
      (reply onos_reply reply' : Reply) (id : String)
      → a.controller_type ≡ both
      → odl_install_flow reply ≡ returned true
      → given_id (onos_install_flow onos_reply) ≡ some id
      → let a' = (update_flow_table node flow table reply onos_reply a).1 in
        let (success, a'') = rollback_flow flow reply' a' in
        (a''.exchanges ≡ a'.exchanges ++ (onos_delete node id, reply') ∷ [])
        × (odl_live node table flow a'' ≡ true)
        × (lookup flow a''.installed_flows ≡ none)
  rollback_flow-both reply onos_reply reply' id two odl_accepts onos_accepts =
      let updated =
        update-both node flow table a reply onos_reply id two odl_accepts onos_accepts in
      let entry = on_onos node table id in
      let d = insert flow (on_odl node table) a.installed_flows in
      let xs : List Exchange = a.exchanges ++ (odl_put node table flow, reply) ∷ [] in
      let a' : Adapter = record a {
        installed_flows = insert flow entry d;
        exchanges = xs ++ (onos_post node, onos_reply) ∷ [];
      } in
      let rolled = rollback-onos flow node id table reply' a' (lookup-insert_self flow entry d) in
      rw (updated, rolled)
        (
          refl,
          odl_live-append node table flow false a'.exchanges ((onos_delete node id, reply') ∷ [])
              ∙ odl_live-append node table flow false xs ((onos_post node, onos_reply) ∷ [])
              ∙ odl_live-append node table flow false a.exchanges
                  ((odl_put node table flow, reply) ∷ [])
              ∙ live_after_put node flow table a reply (odl_live node table flow a) odl_accepts,
          lookup-erase_self flow (insert flow entry d),
        )
