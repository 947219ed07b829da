-- ===== src/Relay/Server/Cases.antt =====
-- What a message can lead to: one rule for each dispatch, with the handlers shut.
use mathlib.Core.Path.{subst}
use getsloth.Base.{
  ℕ, String, true, false, Option, none, some, [], ◌∷◌, ◌≡◌, inl, inr, sym, ap, ◌∙◌, ◌==◌, eq_iff,
  Bool-cases, Option-cases,
}
use getsloth.Protocol.{SessionConfigMsg, AuthMsg, AuthResponseMsg, GridMsg, reason_process_exited}
use getsloth.Relay.Session.{World, send, Reply, with_session, configure, teardown, broadcast_output}
use getsloth.Relay.Control.{handle_take_control, handle_input, handle_resize, handle_host_size}
use getsloth.Relay.Chat.{handle_chat_message}
use getsloth.Relay.KillSwitch.{handle_kill_switch}
use getsloth.Relay.Auth.{handle_auth_attempt, handle_auth_response, handle_resume}
use getsloth.Relay.Probes.{handle_pong}
use getsloth.Relay.Server.{
  Decoder, unauthorized_error, handle_member_message, handle_viewer_message, dispatch_host,
  dispatch_host_action, handle_host_message,
}

module _ {Raw : Type 0} (d : Decoder Raw) where
  -- What an authenticated viewer's message can lead to.
  pub record Member {ℓ} (P : Reply → Type ℓ) (now conn : ℕ) (w : World) : Type ℓ where
    pub ignored : P (w, [])
    pub pong : (m : Option String) → P (handle_pong now conn m w)
    pub control : (m : GridMsg) → P (handle_take_control now conn m w)
    pub input : (m : Option String) → P (w, handle_input conn m w)
    pub resize : (m : Option GridMsg) → P (handle_resize conn m w)
    pub chat : (m : Option String) → P (w, handle_chat_message conn m w)

  member_cases {ℓ} :
      (P : Reply → Type ℓ) (now conn : ℕ) (type : String) (raw : Raw) (w : World)
      → Member P now conn w
      → P (handle_member_message d now conn type raw w)
  unfolding handle_member_message
  member_cases P now conn type raw w h = elim (Bool-cases (type == "pong")) [
    | inl e ↦ rw e (h.pong (d.pong_nonce raw))
    | inr e ↦ rw e (elim (Bool-cases (type == "take_control")) [
      | inl e ↦ rw e (elim (Option-cases (d.grid raw)) [
        | inl n ↦ rw n h.ignored
        | inr (m, s) ↦ rw s (h.control m)
      ])
      | inr e ↦ rw e (elim (Bool-cases (type == "input")) [
        | inl e ↦ rw e (h.input (d.input_data raw))
        | inr e ↦ rw e (elim (Bool-cases (type == "resize")) [
          | inl e ↦ rw e (h.resize (d.grid raw))
          | inr e ↦ rw e (elim (Bool-cases (type == "chat_message")) [
            | inl e ↦ rw e (h.chat (d.chat_text raw))
            | inr e ↦ rw e h.ignored
          ])
        ])
      ])
    ])
  ]

  pub viewer_message_cases {ℓ} :
      (P : Reply → Type ℓ) (now : ℕ) (random : Option String) (conn : ℕ) (addr : String) (raw : Raw)
      (w : World)
      → P (w, [])
      → ((m : Option AuthMsg) → P (handle_auth_attempt now conn addr m random w))
      → (d.envelope raw ≡ some "resume" → P (handle_resume now conn (d.resume_token raw) w))
      → ((w.conns conn).authenticated ≡ false → P (w, send conn unauthorized_error ∷ []))
      → ((w.conns conn).authenticated ≡ true → Member P now conn w)
      → P (handle_viewer_message d now random conn addr raw w)
  unfolding handle_viewer_message
  viewer_message_cases P now random conn addr raw w ignored attempt resume refused member =
      elim (Option-cases (d.envelope raw)) [
        | inl e ↦ rw (e, handle_viewer_message) ignored
        | inr (type, e) ↦
            rw (e, handle_viewer_message)
              (elim (Bool-cases (type == "auth")) [
                | inl f ↦ rw f (attempt (d.auth raw))
                | inr f ↦ rw f (elim (Bool-cases (type == "resume")) [
                  | inl g ↦ rw g (resume (e ∙ ap some ((eq_iff type "resume").0 g)))
                  | inr g ↦ rw g (elim (Bool-cases (w.conns conn).authenticated) [
                    | inl a ↦ rw a (member_cases P now conn type raw w (member a))
                    | inr a ↦ rw a (refused a)
                  ])
                ])
              ])
      ]

  -- What the host's own actions can lead to.
  pub record Action {ℓ} (P : Reply → Type ℓ) (now : ℕ) (w : World) : Type ℓ where
    pub ignored : P (w, [])
    pub control :
        (h : ℕ) (m : GridMsg) → w.session.host ≡ some h → P (handle_take_control now h m w)
    pub kill : P (handle_kill_switch w)
    pub end : P (teardown reason_process_exited w)
    pub chat :
        (h : ℕ) (m : Option String) → w.session.host ≡ some h → P (w, handle_chat_message h m w)

  action_cases {ℓ} :
      (P : Reply → Type ℓ) (now : ℕ) (type : String) (raw : Raw) (w : World)
      → Action P now w
      → P (dispatch_host_action d now type raw w)
  unfolding dispatch_host_action
  action_cases P now type raw w a = elim (Bool-cases (type == "take_control")) [
    | inl f ↦ rw f (elim (Option-cases (d.grid raw)) [
      | inl n ↦ rw n a.ignored
      | inr (m, s) ↦ rw s (elim (Option-cases w.session.host) [
        | inl n ↦ rw n a.ignored
        | inr (h, t) ↦
            subst (λ o. P (elim o [ none ↦ (w, []) | some h ↦ handle_take_control now h m w ]))
              (sym t) (a.control h m t)
      ])
    ])
    | inr f ↦ rw f (elim (Bool-cases (type == "kill_switch")) [
      | inl f ↦ rw f a.kill
      | inr f ↦ rw f (elim (Bool-cases (type == "end_session")) [
        | inl f ↦ rw f a.end
        | inr f ↦ rw f (elim (Bool-cases (type == "chat_message")) [
          | inl f ↦ rw f (elim (Option-cases w.session.host) [
            | inl n ↦
                subst
                  (λ o. P (elim o [
                    | none ↦ (w, [])
                    | some h ↦ (w, handle_chat_message h (d.chat_text raw) w)
                  ]))
                  (sym n) a.ignored
            | inr (h, t) ↦
                subst
                  (λ o. P (elim o [
                    | none ↦ (w, [])
                    | some h ↦ (w, handle_chat_message h (d.chat_text raw) w)
                  ]))
                  (sym t) (a.chat h (d.chat_text raw) t)
          ])
          | inr f ↦ rw f a.ignored
        ])
      ])
    ])
  ]

  -- The chunk that is broadcast is the one that the message holds.
  pub host_chunk_cases {ℓ} :
      (P : Reply → Type ℓ) (now : ℕ) (random : Option String) (raw : Raw) (w : World)
      → P (w, [])
      → ((m : SessionConfigMsg)
          → d.envelope raw ≡ some "session_config"
          → P (with_session w (configure m w.session).0, []))
      → ((m : GridMsg) → P (handle_host_size m w))
      → ((chunk : String)
          → d.envelope raw ≡ some "output"
          → d.output_data raw ≡ some chunk
          → P (broadcast_output chunk w))
      → ((m : AuthResponseMsg)
          → d.auth_response raw ≡ some m
          → P (handle_auth_response now m random w))
      → Action P now w
      → P (handle_host_message d now random raw w)
  unfolding handle_host_message dispatch_host
  host_chunk_cases P now random raw w ignored config size output response action =
      elim (Option-cases (d.envelope raw)) [
        | inl e ↦ rw (e, handle_host_message) ignored
        | inr (type, e) ↦
            rw (e, handle_host_message)
              (elim (Bool-cases (type == "session_config")) [
                | inl f ↦ rw f (elim (Option-cases (d.session_config raw)) [
                  | inl n ↦ rw n ignored
                  | inr (m, s) ↦ rw s (config m (e ∙ ap some ((eq_iff type "session_config").0 f)))
                ])
                | inr f ↦ rw f (elim (Bool-cases (type == "host_size")) [
                  | inl f ↦ rw f (elim (Option-cases (d.grid raw)) [
                    | inl n ↦ rw n ignored
                    | inr (m, s) ↦ rw s (size m)
                  ])
                  | inr f ↦ rw f (elim (Bool-cases (type == "output")) [
                    | inl f ↦ rw f (elim (Option-cases (d.output_data raw)) [
                      | inl n ↦ rw n ignored
                      | inr (m, s) ↦ rw s (output m (e ∙ ap some ((eq_iff type "output").0 f)) s)
                    ])
                    | inr f ↦ rw f (elim (Bool-cases (type == "auth_response")) [
                      | inl f ↦ rw f (elim (Option-cases (d.auth_response raw)) [
                        | inl n ↦ rw n ignored
                        | inr (m, s) ↦ rw s (response m s)
                      ])
                      | inr f ↦ rw f (action_cases P now type raw w action)
                    ])
                  ])
                ])
              ])
      ]

  pub host_message_cases {ℓ} :
      (P : Reply → Type ℓ) (now : ℕ) (random : Option String) (raw : Raw) (w : World)
      → P (w, [])
      → ((m : SessionConfigMsg)
          → d.envelope raw ≡ some "session_config"
          → P (with_session w (configure m w.session).0, []))
      → ((m : GridMsg) → P (handle_host_size m w))
      → ((chunk : String) → P (broadcast_output chunk w))
      → ((m : AuthResponseMsg)
          → d.auth_response raw ≡ some m
          → P (handle_auth_response now m random w))
      → Action P now w
      → P (handle_host_message d now random raw w)
  host_message_cases P now random raw w ignored config size output response action =
      host_chunk_cases P now random raw w ignored config size (λ chunk _ _. output chunk) response
        action
