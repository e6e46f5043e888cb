-- ===== src/Sessions/Tests.antt =====
-- Tests of the model of server/session_manager.py, and its theorems at sample inputs.
use pathwiseai.Prelude.{
  ℕ, String, ◌≡◌, ◌≢◌, refl, true, none, some, List, [], ◌∷◌, arith, eq_iff, contains,
}
use pathwiseai.Sessions.Defs.{
  NetworkSession, SessionManager, voip_rtp, active, register_session, migrate_sessions,
  get_active_sessions,
}
use pathwiseai.Sessions.Migration.{after}
use pathwiseai.Sessions.Places.{view}
use pathwiseai.Sessions.Refinement.{replay, steps_refines}
use pathwiseai.Sessions.Handoffs.{IsConsistent, Op, register, migrate, steps, steps-IsConsistent}

abbrev call : NetworkSession
call = record {
  id = "";
  session_type = voip_rtp;
  link_id = "";
  src_ip = "10.0.1.2";
  dst_ip = "10.0.2.3";
  src_port = 5004;
  dst_port = 5004;
  protocol = "udp";
  state = active;
  tcp_seq_number = none;
  tcp_ack_number = none;
  tcp_window_size = none;
  rtp_ssrc = some 77;
  rtp_sequence = some 12;
  rtp_timestamp = none;
  codec = some "G.711";
  started_at = 0;
  migrated_at = none;
  bytes_transferred = 0;
}

abbrev nothing : SessionManager
nothing = record { objects = λ r. call; next = 0; table = λ l. []; history = [] }

nothing-IsConsistent : IsConsistent nothing
nothing-IsConsistent = record { home = λ l r held. cc }

abbrev times : ℕ → ℕ
times r = 50

abbrev setup : List Op
setup = register "fiber" "s1" 10 call ∷ register "fiber" "s2" 20 call ∷ []

abbrev two : SessionManager
two = steps setup nothing

two-IsConsistent : IsConsistent two
two-IsConsistent = steps-IsConsistent setup nothing nothing-IsConsistent

steps-IsConsistent_example : IsConsistent (steps (migrate "fiber" "5g" times 3 ∷ []) two)
steps-IsConsistent_example =
    steps-IsConsistent (migrate "fiber" "5g" times 3 ∷ []) two two-IsConsistent

on_fiber : contains 1 ((steps [] two).table "fiber") ≡ true
unfolding steps register_session
on_fiber = refl

active_on_fiber : contains 1 (get_active_sessions "fiber" two) ≡ true
unfolding steps register_session get_active_sessions
active_on_fiber = refl

fiber-ne-5g : ◌≢◌ {A = String} "fiber" "5g"
fiber-ne-5g = ground (arith, eq_iff "fiber" "5g")

g5-ne-wifi : ◌≢◌ {A = String} "5g" "wifi"
g5-ne-wifi = ground (arith, eq_iff "5g" "wifi")

-- Both calls arrive on the other link.
both_arrive : (after "fiber" "5g" times 3 two).table "5g" ≡ 0 ∷ 1 ∷ []
unfolding steps register_session migrate_sessions
both_arrive = refl

steps_refines_example :
    view (steps (migrate "fiber" "5g" times 3 ∷ []) two)
    ≡ replay (migrate "fiber" "5g" times 3 ∷ []) two.next (view two)
steps_refines_example = steps_refines (migrate "fiber" "5g" times 3 ∷ []) two two-IsConsistent
