-- ===== src/Relay/Server/Backlog/Run.antt =====
-- The backlog over a run: what a viewer who comes in is shown first, internal/relay/session.go and
-- auth.go.
use getsloth.Base.{
  ℕ, String, Option, none, some, List, [], ◌∷◌, ◌++◌, ◌≡◌, ◌≢◌, ◌⊎◌, inl, inr, refl, sym, ap, ◌∙◌,
  ◌==◌, eq_iff, if◌then◌else◌, ◌>>=◌, arith, Bool-cases, Option-cases,
}
use mathlib.Core.List.{append-nil}
use getsloth.Relay.Session.{World, Reply, add_viewer, teardown, broadcast_output, push_backlog}
use getsloth.Relay.Control.{handle_take_control, handle_host_size}
use getsloth.Relay.KillSwitch.{handle_kill_switch}
use getsloth.Relay.Probes.{check_viewer_health}
use getsloth.Relay.Server.{Decoder, handle_viewer_message, handle_host_message, dispatch_host}
use getsloth.Relay.Server.Cases.{viewer_message_cases, host_chunk_cases}
use getsloth.Relay.Server.Steps.{Env, Input, handle_viewer_join, handle_host_leave, step, run}
use getsloth.Relay.Server.Backlog.{
  recent, recent-push, SameGrid, Same, Kept, take_control-Kept, resize-Kept, host_size-Kept,
  auth_attempt-Same, auth_response-Same, resume-Same, pong-Same, disconnect-Kept, configure-Kept,
}

module _ {Raw : Type 0} (d : Decoder Raw) where
  -- The chunk of a message of the host, if it is one with output.
  abbrev chunk_of : Raw → Option String
  chunk_of raw = d.envelope raw >>= λ type. if type == "output" then d.output_data raw else none

  abbrev pub output_of : Input Raw → List String
  output_of (Input.host_sends raw) = elim (chunk_of raw) [ none ↦ [] | some chunk ↦ chunk ∷ [] ]
  output_of _ = []

  -- The writer leaves, or the host sends a configuration.
  abbrev pub StartsOver : Input Raw → World → Type 0
  StartsOver (Input.viewer_leaves conn) w = w.session.active_writer_id ≡ (w.conns conn).id
  StartsOver (Input.host_sends raw) w = d.envelope raw ≡ some "session_config"
  StartsOver _ w = ⊥

  abbrev pub Reset : Input Raw → World → World → Type 0
  Reset i w w' =
      (w'.session.cols ≢ w.session.cols) ⊎ (w'.session.rows ≢ w.session.rows) ⊎ StartsOver i w

  -- The log of a step: it grows by the output of the step, or starts over for one of the reasons.
  abbrev pub Extends : Input Raw → World → World → List String → List String → Type 0
  Extends i w w' log log' =
      ((log' ≡ log ++ output_of i) × SameGrid w w') ⊎ ((log' ≡ []) × Reset i w w')

  abbrev pub Logged : List (Env × Input Raw) → World → List String → List String → Type 0
  Logged [] w log final = final ≡ log
  Logged ((e, i) ∷ is) w log final =
      (next : List String) × Extends i w (step d e i w).0 log next
      × Logged is (step d e i w).0 next final

  -- What a step does to the backlog.
  abbrev Follows : Input Raw → World → Reply → Type 0
  Follows i w r =
      let before = w.session.output_backlog in
      let after = r.0.session.output_backlog in
      (Same w r × (output_of i ≡ []))
      ⊎ ((after ≡ []) × Reset i w r.0)
      ⊎ ((chunk : String) × (output_of i ≡ chunk ∷ [])
          × (after ≡ push_backlog before chunk)
          × SameGrid w r.0)

  Kept-Follows :
      (i : Input Raw) (w : World) (r : Reply) → output_of i ≡ [] → Kept w r → Follows i w r
  Kept-Follows i w r silent (inl same) = inl (same, silent)
  Kept-Follows i w r silent (inr (empty, inl cols)) = inr (inl (empty, inl cols))
  Kept-Follows i w r silent (inr (empty, inr rows)) = inr (inl (empty, inr (inl rows)))

  viewer_message-Kept :
      (now : ℕ) (random : Option String) (conn : ℕ) (addr : String) (raw : Raw) (w : World)
      → Kept w (handle_viewer_message d now random conn addr raw w)
  viewer_message-Kept now random conn addr raw w =
      viewer_message_cases d (Kept w) now random conn addr raw w (inl (refl, (refl, refl)))
        (λ m. inl (auth_attempt-Same now conn addr m random w))
        (λ _. inl (resume-Same now conn (d.resume_token raw) w)) (λ _. inl (refl, (refl, refl)))
        λ _. record {
          ignored = inl (refl, (refl, refl));
          pong = λ m. inl (pong-Same now conn m w);
          control = λ m. take_control-Kept now conn m w;
          input = λ m. inl (refl, (refl, refl));
          resize = λ m. resize-Kept conn m w;
          chat = λ m. inl (refl, (refl, refl));
        }

  -- A message that holds no output.
  silent-Follows :
      (now : ℕ) (random : Option String) (raw : Raw) (w : World)
      → chunk_of raw ≡ none
      → Follows (Input.host_sends raw) w (handle_host_message d now random raw w)
  unfolding teardown handle_kill_switch
  silent-Follows now random raw w silent =
      host_chunk_cases d (Follows (Input.host_sends raw) w) now random raw w
        (inl ((refl, (refl, refl)), quiet))
        (λ m config. elim (configure-Kept m w) [
          | inl same ↦ inl (same, quiet)
          | inr empty ↦ inr (inl (empty, inr (inr config)))
        ])
        (λ m. kept (handle_host_size m w) (host_size-Kept m w))
        (λ chunk type held. ground (arith, sym silent ∙ holds type held))
        (λ m _. inl (auth_response-Same now m random w, quiet))
        (record {
          ignored = inl ((refl, (refl, refl)), quiet);
          control = λ c m _. kept (handle_take_control now c m w) (take_control-Kept now c m w);
          kill = inl ((refl, (refl, refl)), quiet);
          end = inl ((refl, (refl, refl)), quiet);
          chat = λ c m _. inl ((refl, (refl, refl)), quiet);
        })
    where
      quiet : output_of (Input.host_sends raw) ≡ []
      quiet = rw (output_of, silent) refl

      holds :
          {chunk : String}
          → d.envelope raw ≡ some "output"
          → d.output_data raw ≡ some chunk
          → chunk_of raw ≡ some chunk
      holds type held = rw (type, held) refl

      kept : (r : Reply) → Kept w r → Follows (Input.host_sends raw) w r
      kept r = Kept-Follows (Input.host_sends raw) w r quiet

  chunk_of-some :
      (raw : Raw) {chunk : String}
      → chunk_of raw ≡ some chunk
      → (d.envelope raw ≡ some "output") × (d.output_data raw ≡ some chunk)
  chunk_of-some raw {chunk} told = elim (Option-cases (d.envelope raw)) [
    | inl n ↦ ground (arith, ap after_type (sym n) ∙ told)
    | inr (type, t) ↦
        let decided : after_type (some type) ≡ some chunk = ap after_type (sym t) ∙ told in
        elim (Bool-cases (type == "output")) [
          | inl f ↦ (
            t ∙ ap some ((eq_iff type "output").0 f),
            ap (λ b. if b then d.output_data raw else none) (sym f) ∙ decided,
          )
          | inr f ↦
              ground (arith, ap (λ b. if b then d.output_data raw else none) (sym f) ∙ decided)
        ]
  ]
    where
      after_type : Option String → Option String
      after_type envelope =
          envelope >>= λ type. if type == "output" then d.output_data raw else none

  output-Follows :
      (now : ℕ) (random : Option String) (raw : Raw) (w : World) (chunk : String)
      → chunk_of raw ≡ some chunk
      → Follows (Input.host_sends raw) w (handle_host_message d now random raw w)
  unfolding handle_host_message dispatch_host broadcast_output
  output-Follows now random raw w chunk told =
      let (type, held) = chunk_of-some raw told in
      inr (
        inr (
          chunk,
          rw (output_of, told) refl,
          rw (type, held, handle_host_message) refl,
          rw (type, held, handle_host_message) (refl, refl),
        ))

  step-Follows : (e : Env) (i : Input Raw) (w : World) → Follows i w (step d e i w)
  unfolding step handle_host_leave teardown check_viewer_health handle_viewer_join add_viewer
  step-Follows e (Input.viewer_joins conn id) w = inl (ground arith, refl)
  step-Follows e (Input.viewer_sends conn addr raw) w =
      Kept-Follows (Input.viewer_sends conn addr raw) w
        (handle_viewer_message d e.now e.random conn addr raw w) refl
        (viewer_message-Kept e.now e.random conn addr raw w)
  step-Follows e (Input.viewer_leaves conn) w = elim (disconnect-Kept e.now conn w) [
    | inl same ↦ inl (same, refl)
    | inr (empty, writer) ↦ inr (inl (empty, inr (inr writer)))
  ]
  step-Follows e (Input.host_sends raw) w = elim (Option-cases (chunk_of raw)) [
    | inl silent ↦ silent-Follows e.now e.random raw w silent
    | inr (chunk, told) ↦ output-Follows e.now e.random raw w chunk told
  ]
  step-Follows e Input.host_leaves w = inl ((refl, (refl, refl)), refl)
  step-Follows e (Input.health_tick configured nonces) w = inl ((refl, (refl, refl)), refl)

  pub run-Logged :
      (is : List (Env × Input Raw)) (w : World) (log : List String)
      → w.session.output_backlog ≡ recent log
      → (final : List String) × Logged is w log final
        × ((run d is w).0.session.output_backlog ≡ recent final)
  unfolding run
  run-Logged [] w log h = (log, refl, h)
  run-Logged ((e, i) ∷ is) w log h =
      let (next, extended, kept) = one_step (step-Follows e i w) in
      let (final, logged, rest) = run-Logged is (step d e i w).0 next kept in
      (final, (next, extended, logged), rest)
    where
      one_step :
          Follows i w (step d e i w)
          → (next : List String) × Extends i w (step d e i w).0 log next
            × ((step d e i w).0.session.output_backlog ≡ recent next)
      one_step (inl ((same, grid), silent)) =
          (log, inl (sym (ap (λ o. log ++ o) silent ∙ append-nil log), grid), same ∙ h)
      one_step (inr (inl (empty, reset))) = ([], inr (refl, reset), empty)
      one_step (inr (inr (chunk, told, pushed, grid))) = (
        log ++ chunk ∷ [],
        inl (sym (ap (λ o. log ++ o) told), grid),
        pushed ∙ ap (λ b. push_backlog b chunk) h ∙ recent-push log chunk,
      )
