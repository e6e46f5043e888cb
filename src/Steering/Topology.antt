-- ===== src/Steering/Topology.antt =====
-- The reference topology and the requirements of the traffic classes of server/sandbox.py.
-- A loss is in hundredths of a percent. The labels of switches and hosts are left out.
use pathwiseai.Prelude.{ℕ, String, List, [], ◌∷◌}
use pathwiseai.Prelude.Dict.{Dict}

pub record TopologyLink : Type 0 where
  pub src : String
  pub dst : String
  pub bw : ℕ
  pub delay_ms : ℕ
  pub loss : ℕ
  pub link_id : String
  pub hops : List String

abbrev host_link : String → String → String → TopologyLink
host_link host switch id = record {
  src = host;
  dst = switch;
  bw = 1000;
  delay_ms = 1;
  loss = 0;
  link_id = id;
  hops = [];
}

abbrev wan_link : ℕ → ℕ → ℕ → String → String → String → String → TopologyLink
wan_link bw delay loss id a b c = record {
  src = "s1";
  dst = "s2";
  bw = bw;
  delay_ms = delay;
  loss = loss;
  link_id = id;
  hops = "s1" ∷ a ∷ b ∷ c ∷ "s2" ∷ [];
}

-- `TOPOLOGY["links"]`. A host link has no entry "hops", which the code reads as the empty list.
abbrev pub links : List TopologyLink
links =
    host_link "h1" "s1" "host-link-1"
    ∷ host_link "h2" "s2" "host-link-2"
    ∷ wan_link 1000 5 1 "fiber-primary" "fiber-pop-1" "fiber-ix" "fiber-pop-2"
    ∷ wan_link 100 15 10 "broadband-secondary" "bb-modem" "bb-dslam" "bb-hub"
    ∷ wan_link 10 300 50 "satellite-backup" "sat-gs-1" "sat-geo" "sat-gs-2"
    ∷ wan_link 200 20 20 "5g-mobile" "5g-gnb-1" "5g-core" "5g-gnb-2"
    ∷ []

pub record Requirement : Type 0 where
  pub max_latency_ms : ℕ
  pub max_jitter_ms : ℕ
  pub max_loss : ℕ
  pub min_bw_mbps : ℕ

abbrev requirement : ℕ → ℕ → ℕ → ℕ → Requirement
requirement latency jitter loss bw = record {
  max_latency_ms = latency;
  max_jitter_ms = jitter;
  max_loss = loss;
  min_bw_mbps = bw;
}

-- `TRAFFIC_CLASS_REQUIREMENTS`
abbrev pub requirements : Dict Requirement
requirements =
    ("voip", requirement 50 10 50 1)
    ∷ ("video", requirement 100 20 100 10)
    ∷ ("critical", requirement 80 15 30 5)
    ∷ ("bulk", requirement 500 100 500 1)
    ∷ []
