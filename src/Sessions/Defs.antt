-- ===== src/Sessions/Defs.antt =====
-- The session table of server/session_manager.py. The lists of the table hold references to session
-- objects, which a handoff mutates, so the objects stand in a store of their own.
-- A time is a whole number of microseconds.
use pathwiseai.Prelude.{
  ℕ, ◌+◌, String, Bool, true, false, Option, some, List, [], ◌∷◌, ◌++◌, map, str_eq, ◌==◌, length,
  select, if◌then◌else◌,
}

pub data SessionType : Type 0 where
  tcp udp voip_rtp voip_sip video other : SessionType

pub data SessionState : Type 0 where
  active migrating migrated dropped : SessionState

pub record NetworkSession : Type 0 where
  pub id : String
  pub session_type : SessionType
  pub link_id : String
  pub src_ip : String
  pub dst_ip : String
  pub src_port : ℕ
  pub dst_port : ℕ
  pub protocol : String
  pub state : SessionState
  pub tcp_seq_number : Option ℕ
  pub tcp_ack_number : Option ℕ
  pub tcp_window_size : Option ℕ
  pub rtp_ssrc : Option ℕ
  pub rtp_sequence : Option ℕ
  pub rtp_timestamp : Option ℕ
  pub codec : Option String
  pub started_at : ℕ
  pub migrated_at : Option ℕ
  pub bytes_transferred : ℕ

pub record Detail : Type 0 where
  pub session_id : String
  pub session_type : SessionType
  pub status : SessionState

pub record HandoffResult : Type 0 where
  pub source_link : String
  pub target_link : String
  pub total_sessions : ℕ
  pub migrated_sessions : ℕ
  pub dropped_sessions : ℕ
  pub migration_time : ℕ
  pub preserved : Bool
  pub session_details : List Detail

-- `table` is the `defaultdict(list)` of the manager: a link that was never used has the empty list.
-- The references from `next` on are free.
pub record SessionManager : Type 0 where
  pub objects : ℕ → NetworkSession
  pub next : ℕ
  pub table : String → List ℕ
  pub history : List HandoffResult

unfoldable pub set_object : ℕ → NetworkSession → (ℕ → NetworkSession) → ℕ → NetworkSession
set_object r s objects q = if q == r then s else objects q

unfoldable pub set_list : String → List ℕ → (String → List ℕ) → String → List ℕ
set_list link refs table l = if str_eq link l then refs else table l

abbrev pub is_active : NetworkSession → Bool
is_active s = elim s.state [ active ↦ true | _ ↦ false ]

-- The session arrives with the fields that the caller gave; the method sets the rest.
unfoldable pub register_session :
    String → String → ℕ → NetworkSession → SessionManager → ℕ × SessionManager
unfolding set_object set_list
register_session link_id id now given m =
    let session = record given { id = id; link_id = link_id; state = active; started_at = now } in
    (
      m.next,
      record m {
        objects = set_object m.next session m.objects;
        next = m.next + 1;
        table = set_list link_id (m.table link_id ++ m.next ∷ []) m.table;
      },
    )

unfoldable pub get_active_sessions : String → SessionManager → List ℕ
get_active_sessions link_id m = select (λ r. is_active (m.objects r)) (m.table link_id)

unfoldable pub get_session_count : String → SessionManager → ℕ
unfolding get_active_sessions
get_session_count link_id m = length (get_active_sessions link_id m)

-- What `snapshot_sessions` captures of one session.
pub record Snapshot : Type 0 where
  pub id : String
  pub session_type : SessionType
  pub src : String × ℕ
  pub dst : String × ℕ
  pub tcp_seq : Option ℕ
  pub tcp_ack : Option ℕ
  pub rtp_ssrc : Option ℕ
  pub rtp_seq : Option ℕ
  pub bytes : ℕ

abbrev pub snapshot : NetworkSession → Snapshot
snapshot s = record {
  id = s.id;
  session_type = s.session_type;
  src = (s.src_ip, s.src_port);
  dst = (s.dst_ip, s.dst_port);
  tcp_seq = s.tcp_seq_number;
  tcp_ack = s.tcp_ack_number;
  rtp_ssrc = s.rtp_ssrc;
  rtp_seq = s.rtp_sequence;
  bytes = s.bytes_transferred;
}

unfoldable pub snapshot_sessions : String → SessionManager → List Snapshot
unfolding get_active_sessions
snapshot_sessions link_id m = map (λ r. snapshot (m.objects r)) (get_active_sessions link_id m)

abbrev pub moved_to : String → ℕ → NetworkSession → NetworkSession
moved_to target now s = record s { link_id = target; state = migrated; migrated_at = some now }

-- One round of the loop. The first assignment of the state, to MIGRATING, is overwritten in the
-- same round. No statement of the `try` block raises on a session, so its handler is not reached.
-- `times` is what `time.time()` gives in the round of each reference.
unfoldable pub migrate_one : String → (ℕ → ℕ) → ℕ → SessionManager → SessionManager
unfolding set_object set_list
migrate_one target times r m = record m {
  objects = set_object r (moved_to target (times r) (m.objects r)) m.objects;
  table = set_list target (m.table target ++ r ∷ []) m.table;
}

unfoldable pub migrate_all : String → (ℕ → ℕ) → List ℕ → SessionManager → SessionManager
unfolding migrate_one
migrate_all target times [] m = m
migrate_all target times (r ∷ refs) m = migrate_all target times refs (migrate_one target times r m)

abbrev pub detail : NetworkSession → Detail
detail s = record { session_id = s.id; session_type = s.session_type; status = migrated }

-- `elapsed` is the time that `time.perf_counter` measures.
unfoldable pub migrate_sessions :
    String → String → (ℕ → ℕ) → ℕ → SessionManager → HandoffResult × SessionManager
unfolding get_active_sessions migrate_all set_list
migrate_sessions source target times elapsed m =
    let refs = get_active_sessions source m in
    let m' = migrate_all target times refs m in
    let dropped_count : ℕ = 0 in
    let result : HandoffResult = record {
      source_link = source;
      target_link = target;
      total_sessions = length refs;
      migrated_sessions = length refs;
      dropped_sessions = dropped_count;
      migration_time = elapsed;
      preserved = dropped_count == 0;
      session_details = map (λ r. detail (m.objects r)) refs;
    } in
    (
      result,
      record m' {
        table = set_list source (get_active_sessions source m') m'.table;
        history = m'.history ++ result ∷ [];
      },
    )
