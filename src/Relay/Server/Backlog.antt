-- ===== src/Relay/Server/Backlog.antt =====
-- The backlog of output, `outputBacklog` of internal/relay/session.go: its last chunks, and what each
-- handler does to it.
pub mod Run
pub mod Entrance
use getsloth.Base.{
  ℕ, ◌+◌, ◌-◌, ◌≤◌, String, true, false, Option, none, some, List, [], ◌∷◌, ◌++◌, ◌≡◌, ◌≢◌, ◌⊎◌,
  inl, inr, refl, sym, ap, ◌∙◌, ◌==◌, eq_iff, if◌then◌else◌, ltb, length, drop, length-append,
  length-drop, drop-append_le, drop-drop, map, ◌>>=◌, arith, Bool-cases, Option-cases,
}
use mathlib.Core.List.{append-nil}
use getsloth.Protocol.{Msg, AuthMsg, AuthResponseMsg, GridMsg, SessionConfigMsg}
use getsloth.Relay.Session.{
  World, Session, Reply, Event, send, replay_output_to, auth_result_of, with_session, backlog_at,
  configure, add_viewer, teardown, broadcast_output, push_backlog, max_output_backlog_chunks,
}
use getsloth.Relay.Control.{
  handle_take_control, handle_resize, handle_host_size, handle_viewer_disconnect,
}
use getsloth.Relay.KillSwitch.{handle_kill_switch}
use getsloth.Relay.Auth.{admit, handle_auth_attempt, handle_auth_response, handle_resume}
use getsloth.Relay.Presence.{broadcast_presence}
use getsloth.Relay.Probes.{check_viewer_health, handle_pong}
use getsloth.Relay.Server.{Decoder, handle_viewer_message, handle_host_message, dispatch_host}
use getsloth.Relay.Server.Cases.{viewer_message_cases, host_chunk_cases}
use getsloth.Relay.Server.Steps.{Env, Input, handle_viewer_join, handle_host_leave, step, run}

-- The last chunks of a log, as many as the relay keeps.
abbrev pub recent : List String → List String
recent log = drop (length log - max_output_backlog_chunks) log

pub recent-push :
    (log : List String) (chunk : String)
    → push_backlog (recent log) chunk ≡ recent (log ++ chunk ∷ [])
unfolding push_backlog
recent-push log chunk =
    let k : ℕ = length log - 256 in
    let grown : recent log ++ chunk ∷ [] ≡ drop k (log ++ chunk ∷ []) =
      sym (drop-append_le k log (chunk ∷ []) (omega arith)) in
    let all : length (log ++ chunk ∷ []) ≡ length log + 1 = length-append log (chunk ∷ []) in
    let size : length (drop k (log ++ chunk ∷ [])) ≡ length log + 1 - k =
      length-drop k (log ++ chunk ∷ []) ∙ ap (λ n. n - k) all in
    rw (grown, size, all)
      (elim (Bool-cases (ltb 256 (length log + 1 - k))) [
        | inl f ↦ rw f (
            drop-drop (length log + 1 - k - 256) k (log ++ chunk ∷ [])
            ∙ ap (λ n. drop n (log ++ chunk ∷ [])) (ground arith))
        | inr f ↦ rw f (ap (λ n. drop n (log ++ chunk ∷ [])) (ground arith))
      ])

pub length-recent : (log : List String) → length (recent log) ≤ max_output_backlog_chunks
length-recent log = omega (arith, length-drop (length log - 256) log)

abbrev pub SameGrid : World → World → Type 0
SameGrid w w' = (w'.session.cols ≡ w.session.cols) × (w'.session.rows ≡ w.session.rows)

abbrev pub Same : World → Reply → Type 0
Same w r = (r.0.session.output_backlog ≡ w.session.output_backlog) × SameGrid w r.0

-- The backlog stays, or it is dropped with a change of the grid.
abbrev pub Kept : World → Reply → Type 0
Kept w r =
    Same w r
    ⊎ ((r.0.session.output_backlog ≡ [])
        × ((r.0.session.cols ≢ w.session.cols) ⊎ (r.0.session.rows ≢ w.session.rows)))

backlog_at-Kept :
    (cols rows : ℕ) (s : Session)
    → ((backlog_at cols rows s ≡ s.output_backlog) × (cols ≡ s.cols) × (rows ≡ s.rows))
      ⊎ ((backlog_at cols rows s ≡ []) × ((cols ≢ s.cols) ⊎ (rows ≢ s.rows)))
backlog_at-Kept cols rows s = ground arith

pub take_control-Kept :
    (now conn : ℕ) (m : GridMsg) (w : World) → Kept w (handle_take_control now conn m w)
unfolding handle_take_control
take_control-Kept now conn m w = ground arith

pub resize-Kept : (conn : ℕ) (m : Option GridMsg) (w : World) → Kept w (handle_resize conn m w)
unfolding handle_resize
resize-Kept conn none w = inl (refl, (refl, refl))
resize-Kept conn (some m) w = ground arith

pub host_size-Kept : (m : GridMsg) (w : World) → Kept w (handle_host_size m w)
unfolding handle_host_size
host_size-Kept m w = ground arith

pub auth_attempt-Same :
    (now conn : ℕ) (addr : String) (m : Option AuthMsg) (r : Option String) (w : World)
    → Same w (handle_auth_attempt now conn addr m r w)
unfolding handle_auth_attempt
auth_attempt-Same now conn addr none r w = ground arith
auth_attempt-Same now conn addr (some m) none w = ground arith
auth_attempt-Same now conn addr (some m) (some r) w = ground arith

pub auth_response-Same :
    (now : ℕ) (m : AuthResponseMsg) (r : Option String) (w : World)
    → Same w (handle_auth_response now m r w)
unfolding handle_auth_response
auth_response-Same now m r w = ground arith

pub resume-Same :
    (now conn : ℕ) (m : Option String) (w : World) → Same w (handle_resume now conn m w)
unfolding handle_resume
resume-Same now conn m w = ground arith

pub pong-Same : (now conn : ℕ) (m : Option String) (w : World) → Same w (handle_pong now conn m w)
unfolding handle_pong
pong-Same now conn none w = (refl, (refl, refl))
pong-Same now conn (some nonce) w = ground arith

pub disconnect-Kept :
    (now conn : ℕ) (w : World)
    → let r = handle_viewer_disconnect now conn w in
      Same w r
      ⊎ ((r.0.session.output_backlog ≡ []) × (w.session.active_writer_id ≡ (w.conns conn).id))
unfolding handle_viewer_disconnect
disconnect-Kept now conn w = ground (arith, eq_iff w.session.active_writer_id (w.conns conn).id)

pub configure-Kept :
    (m : SessionConfigMsg) (w : World)
    → let r : Reply = (with_session w (configure m w.session).0, []) in
      Same w r ⊎ (r.0.session.output_backlog ≡ [])
unfolding configure
configure-Kept m w = ground arith
