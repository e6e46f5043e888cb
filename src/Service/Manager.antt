-- ===== src/Service/Manager.antt =====
-- services/traffic-steering/flow_manager.py.
use pathwiseai.Prelude.{ℕ, suc, Bool, Option, none, some, List, [], ◌∷◌, ◌++◌, if◌then◌else◌}
use pathwiseai.Service.Engine.{
  SteeringDecision, Entry, Streams, evaluate, validate_in_sandbox, execute,
}

abbrev pub notify_dashboard : SteeringDecision → Streams → Streams
notify_dashboard d s = record s { events = s.events ++ d ∷ [] }

-- The client that installs the n-th decision of a round: its answer, none when it raises.
abbrev pub Client : Type 0
Client = ℕ → SteeringDecision → Option Bool

-- What stands in the streams when the client raises: the request for the sandbox, if one is made.
abbrev requested : SteeringDecision → Streams → Streams
requested d s = if d.requires_sandbox_validation then (validate_in_sandbox d s).1 else s

-- The decisions of a round, in order. An exception leaves out those that are still to come.
unfoldable pub execute_all : Client → ℕ → List SteeringDecision → Streams → Streams
execute_all client n [] s = s
execute_all client n (d ∷ ds) s = elim (client n d) [
  | none ↦ requested d s
  | some installed ↦
      let (ok, s') = execute installed d s in
      execute_all client (suc n) ds (if ok then notify_dashboard d s' else s')
]

-- One round of the loop of `run`.
unfoldable pub run_round : Client → List Entry → Streams → Streams
run_round client p s = execute_all client 0 (evaluate p) s
