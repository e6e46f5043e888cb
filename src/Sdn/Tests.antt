-- ===== src/Sdn/Tests.antt =====
-- Tests of the model of server/sdn_adapter.py, and its theorems at sample inputs.
use pathwiseai.Prelude.{◌≡◌, refl, true, false, none, some, [], ◌∷◌, ◌++◌}
use pathwiseai.Prelude.Dict.{lookup}
use pathwiseai.Sdn.Defs.{
  odl, both, response, raised, onos_delete, Adapter, Reply, returned, odl_install_flow,
  odl_delete_flow, onos_install_flow, given_id, update_flow_table, rollback_flow, odl_live,
  authenticate,
}
use pathwiseai.Sdn.Rollback.{rollback_flow-update_flow_table, rollback_flow-both}

abbrev odl_only : Adapter
odl_only = record { controller_type = odl; installed_flows = []; exchanges = [] }

abbrev two_controllers : Adapter
two_controllers = record odl_only { controller_type = both }

abbrev created : Reply
created = response 201 (some ("f9" ∷ []))

abbrev deleted : Reply
deleted = response 204 none

odl_accepts : odl_install_flow created ≡ returned true
unfolding odl_install_flow
odl_accepts = refl

odl_deletes : odl_delete_flow deleted ≡ returned true
unfolding odl_delete_flow
odl_deletes = refl

onos_accepts : given_id (onos_install_flow created) ≡ some "f9"
unfolding onos_install_flow
onos_accepts = refl

installed : (update_flow_table "openflow:2" "steer-1" 0 created raised odl_only).0 ≡ true
unfolding update_flow_table
installed = refl

rollback_flow-update_flow_table_example :
    let a' = (update_flow_table "openflow:2" "steer-1" 0 created raised odl_only).1 in
    let (success, a'') = rollback_flow "steer-1" deleted a' in
    (odl_live "openflow:2" 0 "steer-1" a' ≡ true)
    × (success ≡ true)
    × (odl_live "openflow:2" 0 "steer-1" a'' ≡ false)
    × (lookup "steer-1" a''.installed_flows ≡ none)
rollback_flow-update_flow_table_example =
    rollback_flow-update_flow_table "openflow:2" "steer-1" 0 odl_only created raised deleted refl
      installed odl_deletes

rollback_flow-both_example :
    let a' = (update_flow_table "openflow:2" "steer-1" 0 created created two_controllers).1 in
    let (success, a'') = rollback_flow "steer-1" deleted a' in
    (a''.exchanges ≡ a'.exchanges ++ (onos_delete "openflow:2" "f9", deleted) ∷ [])
    × (odl_live "openflow:2" 0 "steer-1" a'' ≡ true)
    × (lookup "steer-1" a''.installed_flows ≡ none)
rollback_flow-both_example =
    rollback_flow-both "openflow:2" "steer-1" 0 two_controllers created created deleted "f9" refl
      odl_accepts onos_accepts

authenticate_down : authenticate both true false ≡ false
unfolding authenticate
authenticate_down = refl
