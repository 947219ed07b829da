-- ===== src/Host/Control/Reclaim.antt =====
-- What a request to the control endpoint does, and how the host's override travels from the console
-- to the relay.
use mathlib.Core.Path.{subst}
use getsloth.Base.{
  sym, ap, ℕ, ◌+◌, ◌≤◌, ◌<◌, String, Option, none, some, get_or, List, [], ◌∷◌, ◌++◌, map, ◌≡◌, ◌≢◌,
  refl, arith, ◌==◌, eq_iff, All, Bool-cases, Option-cases, inl, inr, ◌⊎◌,
}
use getsloth.Protocol.{GridMsg}
use getsloth.Relay.Session.{World, host_lock_window}
use getsloth.Relay.Server.{Decoder}
use getsloth.Relay.Server.Steps.{Env, Input, run}
use getsloth.Relay.Server.Roles.{Roles, Proper}
use getsloth.Relay.Server.Override.{host_overrides}
use getsloth.Host.Status.{Platform}
use getsloth.Host.Control.{
  HostMsg, HostSide, Response, handle, invoke, respond, session_actions, reclaim_control,
  kill_viewers, take_snapshot, unknown_action,
}

-- Either the session is as it was, or one message went to the relay: the one of the action.
abbrev pub Did : String → (HostMsg → Option String) → HostSide → HostSide → Type 0
Did action fails s s' =
    (s' ≡ s)
    ⊎ ((action ≡ "reclaim")
        × (fails HostMsg.take_control ≡ none)
        × (s'.sent ≡ s.sent ++ HostMsg.take_control ∷ []))
    ⊎ ((action ≡ "kill")
        × (fails HostMsg.kill_switch ≡ none)
        × (s'.sent ≡ s.sent ++ HostMsg.kill_switch ∷ []))

-- A response with an error holds no snapshot, and nothing has changed; one without an error holds
-- the snapshot of the session after the action.
abbrev pub Answers : Platform → HostSide → HostSide → Option Response → Type 0
Answers p s s' none = ⊥
Answers p s s' (some r) =
    (r.error ≡ "" → r.snapshot ≡ some (take_snapshot p s'))
    × (r.error ≢ "" → (r.snapshot ≡ none) × (s' ≡ s))

module _ (p : Platform) (fails : HostMsg → Option String) where
  respond-Answers :
      (s s' : HostSide) (error : String)
      → (error ≢ "" → s' ≡ s)
      → Answers p s s' (some (respond (take_snapshot p) s' error))
  unfolding respond
  respond-Answers s s' error kept = elim (Bool-cases (error == "")) [
    | inl e ↦ rw (e, respond) ((λ _. refl), (λ ne. absurd (ne refl)))
    | inr e ↦
        let ne : error ≢ "" = ground (arith, e, eq_iff error "") in
        rw (e, respond) ((λ q. absurd (ne q)), (λ _. (refl, kept ne)))
  ]

  reclaimed :
      (s : HostSide)
      → let (s', e) = reclaim_control fails s in
        (get_or e "" ≢ "" → s' ≡ s) × Did "reclaim" fails s s'
  unfolding reclaim_control
  reclaimed s = elim (Option-cases (fails HostMsg.take_control)) [
    | inl e ↦ rw (e, reclaim_control) ((λ ne. absurd (ne refl)), inr (inl (refl, refl, refl)))
    | inr (t, e) ↦ rw (e, reclaim_control) ((λ _. refl), inl refl)
  ]

  killed :
      (s : HostSide)
      → let (s', e) = kill_viewers p fails s in (get_or e "" ≢ "" → s' ≡ s) × Did "kill" fails s s'
  unfolding kill_viewers
  killed s = elim (Option-cases (fails HostMsg.kill_switch)) [
    | inl e ↦ rw (e, kill_viewers) ((λ ne. absurd (ne refl)), inr (inr (refl, refl, refl)))
    | inr (t, e) ↦ rw (e, kill_viewers) ((λ _. refl), inl refl)
  ]

  -- A request is always answered. The answer has a snapshot exactly when it has no error; with an
  -- error nothing has changed; and at most one message goes to the relay, the one that the request
  -- names.
  pub handle-Answers :
      (action : String) (s : HostSide)
      → let (s', response) = handle (take_snapshot p) (session_actions p fails) (some action) s in
        Answers p s s' response × Did action fails s s'
  unfolding handle invoke session_actions
  handle-Answers action s = elim (Bool-cases (action == "snapshot")) [
    | inl e ↦ rw (e, handle) (respond-Answers s s "" (λ _. refl), inl refl)
    | inr e ↦ elim (Bool-cases (action == "reclaim")) [
      | inl f ↦
          let same : action ≡ "reclaim" = (eq_iff action "reclaim").0 f in
          rw (same, handle) (respond-Answers s _ _ (reclaimed s).0, (reclaimed s).1)
      | inr f ↦ elim (Bool-cases (action == "kill")) [
        | inl g ↦
            let same : action ≡ "kill" = (eq_iff action "kill").0 g in
            rw (same, handle) (respond-Answers s _ _ (killed s).0, (killed s).1)
        | inr g ↦ rw (e, f, g, handle) (respond-Answers s s unknown_action (λ _. refl), inl refl)
      ]
    ]
  ]

reclaim-sent :
    (p : Platform) (fails : HostMsg → Option String) (s : HostSide)
    → fails HostMsg.take_control ≡ none
    → s.sent ≡ []
    → (handle (take_snapshot p) (session_actions p fails) (some "reclaim") s).0.sent
      ≡ HostMsg.take_control ∷ []
unfolding handle invoke session_actions reclaim_control
reclaim-sent p fails s works fresh =
    rw (works, reclaim_control) (ap (λ l. l ++ HostMsg.take_control ∷ []) fresh)

-- From the console to the relay: when the write to the relay succeeds, a request to reclaim has the
-- host send `take_control`, and once the relay reads it, the host is the writer and stays so in
-- every run within the two seconds that follow.
pub reclaim_overrides :
    {Raw : Type 0} (p : Platform) (fails : HostMsg → Option String) (s : HostSide) (d : Decoder Raw)
    (encode : HostMsg → Raw) (m : GridMsg) (h : ℕ) (e : Env) (w : World)
    (is : List (Env × Input Raw))
    → fails HostMsg.take_control ≡ none
    → s.sent ≡ []
    → d.envelope (encode HostMsg.take_control) ≡ some "take_control"
    → d.grid (encode HostMsg.take_control) ≡ some m
    → Roles h w
    → All (λ ei. Proper h ei.1) is
    → All (λ ei. (e.now ≤ ei.0.now) × (ei.0.now < e.now + host_lock_window)) is
    → let (s', _) = handle (take_snapshot p) (session_actions p fails) (some "reclaim") s in
      (run d
        (map (λ msg. (e, Input.host_sends (encode msg))) s'.sent ++ is)
        w).0.session.active_writer_id
      ≡ "host"
reclaim_overrides p fails s d encode m h e w is works fresh typed decoded roles proper soon =
    subst
      (λ sent.
        (run d (map (λ msg. (e, Input.host_sends (encode msg))) sent ++ is)
          w).0.session.active_writer_id
        ≡ "host")
      (sym (reclaim-sent p fails s works fresh))
      (host_overrides d h e (encode HostMsg.take_control) m w is roles typed decoded proper soon)
