-- ===== src/Sdn/Defs.antt =====
-- The adapter of server/sdn_adapter.py for the two SDN controllers. The controllers are not part of
-- the program: what they answer to a request is an argument, and each exchange goes into a log.
use pathwiseai.Prelude.{
  ℕ, String, Bool, true, false, Option, none, some, List, [], ◌∷◌, ◌++◌, str_eq, ◌==◌, ◌||◌, ◌&&◌,
  all, if◌then◌else◌,
}
use pathwiseai.Prelude.Dict.{Dict, lookup, insert, erase, values}

pub data SdnControllerType : Type 0 where
  odl onos both : SdnControllerType

-- What `httpx` makes of a request: an exception, which a missing `httpx` raises too, or a response
-- with its status and the list "flowIds" of its body, `none` when the body is no JSON.
pub data Reply : Type 0 where
  raised : Reply
  response : ℕ → Option (List String) → Reply

pub data Request : Type 0 where
  odl_put odl_delete : String → ℕ → String → Request
  onos_post : String → Request
  onos_delete : String → String → Request

abbrev pub Exchange : Type 0
Exchange = Request × Reply

-- The outcome of a call that may raise.
pub data Outcome {ℓ} (A : Type ℓ) : Type ℓ where
  returned : A → Outcome A
  exception : Outcome A

unfoldable pub odl_install_flow : Reply → Outcome Bool
odl_install_flow raised = exception
odl_install_flow (response status body) = returned (status == 200 || status == 201)

unfoldable pub odl_delete_flow : Reply → Outcome Bool
odl_delete_flow raised = exception
odl_delete_flow (response status body) = returned (status == 200 || status == 204)

abbrev pub first_id : List String → Option String
first_id [] = none
first_id (id ∷ ids) = some id

-- The flow id that ONOS assigned, if any. The body is read only after a good status.
unfoldable pub onos_install_flow : Reply → Outcome (Option String)
onos_install_flow raised = exception
onos_install_flow (response status body) =
    if status == 200 || status == 201
    then elim body [ none ↦ exception | some ids ↦ returned (first_id ids) ]
    else returned none

unfoldable pub onos_delete_flow : Reply → Outcome Bool
onos_delete_flow raised = exception
onos_delete_flow (response status body) = returned (status == 200 || status == 204)

-- The tuples of `_installed_flows`.
pub data Installed : Type 0 where
  on_odl : String → ℕ → Installed
  on_onos : String → ℕ → String → Installed

pub record Adapter : Type 0 where
  pub controller_type : SdnControllerType
  pub installed_flows : Dict Installed
  pub exchanges : List Exchange

abbrev pub uses_odl : SdnControllerType → Bool
uses_odl onos = false
uses_odl _ = true

abbrev pub uses_onos : SdnControllerType → Bool
uses_onos odl = false
uses_onos _ = true

abbrev pub is_returned_true : Outcome Bool → Bool
is_returned_true (returned true) = true
is_returned_true _ = false

-- The id, if the call returned one that is not empty.
abbrev pub given_id : Outcome (Option String) → Option String
given_id (returned (some id)) = if str_eq id "" then none else some id
given_id _ = none

abbrev pub log_exchange : Request → Reply → Adapter → Adapter
log_exchange request reply a = record a { exchanges = a.exchanges ++ (request, reply) ∷ [] }

-- The first `try` block of `update_flow_table`.
unfoldable pub update_odl : String → String → ℕ → Reply → Adapter → Bool × Adapter
unfolding odl_install_flow
update_odl node flow table reply a =
    let a' = log_exchange (odl_put node table flow) reply a in
    if is_returned_true (odl_install_flow reply)
    then (true, record a' { installed_flows = insert flow (on_odl node table) a'.installed_flows })
    else (false, a')

-- The second one. `success` is what the first left.
unfoldable pub update_onos : String → String → ℕ → Reply → Bool → Adapter → Bool × Adapter
unfolding onos_install_flow
update_onos node flow table reply success a =
    let a' = log_exchange (onos_post node) reply a in
    elim (given_id (onos_install_flow reply)) [
      | none ↦ (success, a')
      | some id ↦ (
        true,
        record a' { installed_flows = insert flow (on_onos node table id) a'.installed_flows },
      )
    ]

unfoldable pub update_flow_table : String → String → ℕ → Reply → Reply → Adapter → Bool × Adapter
unfolding update_odl update_onos
update_flow_table node flow table odl_reply onos_reply a =
    let (success, a') =
      if uses_odl a.controller_type then update_odl node flow table odl_reply a else (false, a) in
    if uses_onos a.controller_type
    then update_onos node flow table onos_reply success a'
    else (success, a')

-- `reply` is what the controller answers to the one request that a rollback sends.
unfoldable pub rollback_flow : String → Reply → Adapter → Bool × Adapter
unfolding odl_delete_flow onos_delete_flow
rollback_flow flow reply a =
    let a' = record a { installed_flows = erase flow a.installed_flows } in
    elim (lookup flow a.installed_flows) [
      | none ↦ (false, a')
      | some (on_odl node table) ↦ (
        is_returned_true (odl_delete_flow reply),
        log_exchange (odl_delete node table flow) reply a',
      )
      | some (on_onos node table id) ↦
          (is_returned_true (onos_delete_flow reply), log_exchange (onos_delete node id) reply a')
    ]

-- Whether a flow is on the ODL switch after the exchanges, by what ODL accepted.
abbrev pub odl_after : String → ℕ → String → Bool → Exchange → Bool
odl_after node table flow live (odl_put n t f, reply) =
    if (str_eq n node && t == table) && str_eq f flow
    then is_returned_true (odl_install_flow reply) || live
    else live
odl_after node table flow live (odl_delete n t f, reply) =
    if (str_eq n node && t == table) && str_eq f flow
    then (if is_returned_true (odl_delete_flow reply) then false else live)
    else live
odl_after node table flow live _ = live

abbrev pub odl_live_from : String → ℕ → String → Bool → List Exchange → Bool
odl_live_from node table flow live [] = live
odl_live_from node table flow live (x ∷ xs) =
    odl_live_from node table flow (odl_after node table flow live x) xs

abbrev pub odl_live : String → ℕ → String → Adapter → Bool
odl_live node table flow a = odl_live_from node table flow false a.exchanges

-- `health_check`, by the calls that raise.
unfoldable pub health_check : SdnControllerType → Bool → Bool → Dict String
health_check t odl_answers onos_answers =
    (if uses_odl t then ("odl", if odl_answers then "up" else "down") ∷ [] else [])
    ++ (if uses_onos t then ("onos", if onos_answers then "up" else "down") ∷ [] else [])

unfoldable pub authenticate : SdnControllerType → Bool → Bool → Bool
unfolding health_check
authenticate t odl_answers onos_answers =
    all (λ v. str_eq v "up") (values (health_check t odl_answers onos_answers))
