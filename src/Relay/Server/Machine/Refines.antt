-- ===== src/Relay/Server/Machine/Refines.antt =====
-- Each step of the relay is a move of the control machine.
use getsloth.Base.{
  ℕ, ◌-◌, ◌≤◌, String, Bool, true, false, not, ◌&&◌, Option, none, some, ◌≡◌, ◌≢◌, ◌⊎◌, inl, inr,
  refl, sym, ap, ◌∙◌, arith, ◌==◌, eq_iff, Option-cases, Bool-cases,
}
use getsloth.Protocol.{
  GridMsg, AuthMsg, AuthResponseMsg, SessionConfigMsg, session_mode_remote, session_mode_group,
}
use getsloth.Relay.Session.{
  World, Session, Reply, configure, valid_terminal_size, teardown, broadcast_output,
  host_lock_window, add_viewer,
}
use getsloth.Relay.Control.{
  refusal, handle_take_control, handle_resize, handle_host_size, handle_viewer_disconnect,
}
use getsloth.Relay.KillSwitch.{handle_kill_switch}
use getsloth.Relay.Auth.{handle_auth_attempt, handle_auth_response, handle_resume}
use getsloth.Relay.Probes.{handle_pong, check_viewer_health}
use getsloth.Relay.Server.{Decoder, handle_viewer_message, handle_host_message}
use getsloth.Relay.Server.Cases.{viewer_message_cases, host_message_cases}
use getsloth.Relay.Server.Roles.{Roles, Proper}
use getsloth.Relay.Server.Steps.{Env, Input, handle_viewer_join, handle_host_leave, step}
use getsloth.Relay.Server.Machine.{
  machine, Move, stay, reclaim, take, drive, follow, remember, give_back, Configured, configured,
}

abbrev Moves : ℕ → World → Reply → Type 0
Moves now w r = Move now (machine w.session) (machine r.0.session)

refusal-none :
    (now : ℕ) (m : GridMsg) (s : Session)
    → refusal now m s ≡ none
    → (s.mode ≢ session_mode_group)
      × (host_lock_window ≤ now - s.last_host_reclaim)
      × (valid_terminal_size m.cols m.rows ≡ true)
unfolding refusal
refusal-none now m s h = ground (arith, eq_iff s.mode session_mode_group)

take_control-Move :
    (now conn : ℕ) (m : GridMsg) (w : World) → Moves now w (handle_take_control now conn m w)
take_control-Move now conn m w = elim (Bool-cases ((w.conns conn).id == "host")) [
  | inl e ↦ reclaim (unfold handle_take_control in ground (arith, eq_iff (w.conns conn).id "host"))
  | inr e ↦ elim (Option-cases (refusal now m w.session)) [
    | inl n ↦
        let (remote, late, valid) = refusal-none now m w.session n in
        take (w.conns conn).id m.cols m.rows
          (λ i. cc (sym e, (eq_iff (w.conns conn).id "host").1 i)) remote late valid
          (unfold handle_take_control in ground arith)
    | inr (x, n) ↦ stay (unfold handle_take_control in ground arith)
  ]
]

resize-Move :
    (now h conn : ℕ) (m : Option GridMsg) (w : World)
    → conn ≢ h
    → Roles h w
    → Moves now w (handle_resize conn m w)
unfolding handle_resize
resize-Move now h conn none w ne r = stay refl
resize-Move now h conn (some m) w ne r = elim (Bool-cases (valid_terminal_size m.cols m.rows)) [
  | inr e ↦ stay (ground arith)
  | inl e ↦ elim (Bool-cases (w.session.mode == session_mode_group)) [
    | inl g ↦ stay (ground arith)
    | inr g ↦ elim (Bool-cases (w.session.active_writer_id == (w.conns conn).id)) [
      | inr a ↦ stay (ground arith)
      | inl a ↦
          drive m.cols m.rows (λ i. r.others conn ne (sym ((eq_iff _ _).0 a) ∙ i))
            (λ i. cc (sym g, (eq_iff _ session_mode_group).1 i)) e (ground arith)
    ]
  ]
]

host_size-Move : (now : ℕ) (m : GridMsg) (w : World) → Moves now w (handle_host_size m w)
unfolding handle_host_size
host_size-Move now m w = elim (Bool-cases (valid_terminal_size m.cols m.rows)) [
  | inr e ↦ stay (ground arith)
  | inl e ↦ elim (Bool-cases (w.session.active_writer_role == "host")) [
    | inl a ↦ follow m.cols m.rows ((eq_iff _ "host").0 a) e (ground arith)
    | inr a ↦ remember m.cols m.rows (λ i. cc (sym a, (eq_iff _ "host").1 i)) e (ground arith)
  ]
]

disconnect-Move :
    (now h conn : ℕ) (w : World)
    → conn ≢ h
    → Roles h w
    → Moves now w (handle_viewer_disconnect now conn w)
unfolding handle_viewer_disconnect
disconnect-Move now h conn w ne r =
    elim (Bool-cases (w.session.active_writer_id == (w.conns conn).id)) [
      | inl a ↦ give_back (λ i. r.others conn ne (sym ((eq_iff _ _).0 a) ∙ i)) (ground arith)
      | inr a ↦ stay (ground arith)
    ]

kill-Move : (now : ℕ) (w : World) → Moves now w (handle_kill_switch w)
unfolding handle_kill_switch
kill-Move now w = stay refl

auth_attempt-Move :
    (now conn : ℕ) (addr : String) (m : Option AuthMsg) (random : Option String) (w : World)
    → Moves now w (handle_auth_attempt now conn addr m random w)
unfolding handle_auth_attempt
auth_attempt-Move now conn addr none random w = stay (ground arith)
auth_attempt-Move now conn addr (some m) none w = stay (ground arith)
auth_attempt-Move now conn addr (some m) (some r) w = stay (ground arith)

auth_response-Move :
    (now : ℕ) (m : AuthResponseMsg) (random : Option String) (w : World)
    → Moves now w (handle_auth_response now m random w)
unfolding handle_auth_response
auth_response-Move now m random w = stay (ground arith)

resume-Move :
    (now conn : ℕ) (m : Option String) (w : World) → Moves now w (handle_resume now conn m w)
unfolding handle_resume
resume-Move now conn m w = stay (ground arith)

pong-Move : (now conn : ℕ) (m : Option String) (w : World) → Moves now w (handle_pong now conn m w)
unfolding handle_pong
pong-Move now conn none w = stay refl
pong-Move now conn (some nonce) w = stay (ground arith)

configure-Configured :
    (m : SessionConfigMsg) (s : Session)
    → (configure m s ≡ (s, false)) ⊎ Configured (machine s) (machine (configure m s).0)
unfolding configure
configure-Configured m s =
    elim (Bool-cases (not (m.mode == session_mode_remote) && not (m.mode == session_mode_group))) [
      | inl e ↦ inl (rw (e, configure))
      | inr e ↦ elim (Bool-cases (valid_terminal_size m.host_cols m.host_rows)) [
        | inr v ↦ inl (rw (e, v, configure))
        | inl v ↦ inr (
            configured m.mode m.host_cols m.host_rows
              (ground (arith, eq_iff m.mode session_mode_remote, eq_iff m.mode session_mode_group))
              v (rw (e, v, configure)))
      ]
    ]

module _ {Raw : Type 0} (d : Decoder Raw) (h : ℕ) where
  -- The host's `session_config`, the one message outside the control machine.
  abbrev pub IsConfig : Input Raw → Type 0
  IsConfig (Input.host_sends raw) = d.envelope raw ≡ some "session_config"
  IsConfig _ = ⊥

  viewer_message-Move :
      (now : ℕ) (random : Option String) (conn : ℕ) (addr : String) (raw : Raw) (w : World)
      → conn ≢ h
      → Roles h w
      → Moves now w (handle_viewer_message d now random conn addr raw w)
  viewer_message-Move now random conn addr raw w ne r =
      viewer_message_cases d (Moves now w) now random conn addr raw w (stay refl)
        (λ m. auth_attempt-Move now conn addr m random w)
        (λ _. resume-Move now conn (d.resume_token raw) w) (λ _. stay refl)
        λ _. record {
          ignored = stay refl;
          pong = λ m. pong-Move now conn m w;
          control = λ m. take_control-Move now conn m w;
          input = λ m. stay refl;
          resize = λ m. resize-Move now h conn m w ne r;
          chat = λ m. stay refl;
        }

  host_message-Move :
      (now : ℕ) (random : Option String) (raw : Raw) (w : World)
      → Moves now w (handle_host_message d now random raw w)
        ⊎ ((d.envelope raw ≡ some "session_config")
            × Configured
                (machine w.session)
                (machine (handle_host_message d now random raw w).0.session))
  unfolding teardown broadcast_output
  host_message-Move now random raw w =
      host_message_cases d
        (λ r.
          Moves now w r
          ⊎ ((d.envelope raw ≡ some "session_config")
              × Configured (machine w.session) (machine r.0.session)))
        now random raw w (inl (stay refl)) (λ m typed. config m typed)
        (λ m. inl (host_size-Move now m w)) (λ chunk. inl (stay refl))
        (λ m _. inl (auth_response-Move now m random w))
        (record {
          ignored = inl (stay refl);
          control = λ c m _. inl (take_control-Move now c m w);
          kill = inl (kill-Move now w);
          end = inl (stay refl);
          chat = λ c m _. inl (stay refl);
        })
    where
      config :
          (m : SessionConfigMsg)
          → d.envelope raw ≡ some "session_config"
          → Move now (machine w.session) (machine (configure m w.session).0)
            ⊎ ((d.envelope raw ≡ some "session_config")
                × Configured (machine w.session) (machine (configure m w.session).0))
      config m typed = elim (configure-Configured m w.session) [
        | inl same ↦ inl (stay (ap (λ (r : Session × Bool). machine r.0) same))
        | inr c ↦ inr (typed, c)
      ]

  -- Every step makes a move of the control machine at its own time, or is the host's
  -- `session_config`, which sets a known mode and a valid grid.
  pub step-Move :
      (e : Env) (i : Input Raw) (w : World)
      → Proper h i
      → Roles h w
      → Move e.now (machine w.session) (machine (step d e i w).0.session)
        ⊎ (IsConfig i × Configured (machine w.session) (machine (step d e i w).0.session))
  unfolding step handle_host_leave teardown check_viewer_health handle_viewer_join add_viewer
  step-Move e (Input.viewer_joins conn id) w p r = inl (stay (ground arith))
  step-Move e (Input.viewer_sends conn addr raw) w p r =
      inl (viewer_message-Move e.now e.random conn addr raw w p r)
  step-Move e (Input.viewer_leaves conn) w p r = inl (disconnect-Move e.now h conn w p r)
  step-Move e (Input.host_sends raw) w p r = host_message-Move e.now e.random raw w
  step-Move e Input.host_leaves w p r = inl (stay refl)
  step-Move e (Input.health_tick timeout nonces) w p r = inl (stay refl)
