-- ===== src/Host/Status/Events.antt =====
-- The activity log, against a log that forgets nothing.
use getsloth.Base.{
  ℕ, zero, suc, ◌≤◌, String, not, ◌||◌, List, [], ◌∷◌, map, ◌≡◌, refl, sym, ap, ◌∙◌, arith, ◌==◌,
  if◌then◌else◌, length, take, ltb, Bool-cases, inl, inr,
}
use getsloth.Protocol.{PresenceConnectionInfo}
use getsloth.Host.Status.{
  Status, Platform, ◌+++◌, append_event, append_events, max_host_control_events,
  safe_terminal_label, render_title, print,
}
use getsloth.Host.Status.Ops.{
  Op, new_status, note_connections, note_viewer, note_writer, joined_names, update_presence,
  update_control, note_chat, note_kill_switch, set_disconnected, control_event, apply_op, apply_ops,
  set_invite, set_qr_invite,
}

take_short : (n : ℕ) (xs : List String) → length xs ≤ n → take n xs ≡ xs
take_short zero [] h = refl
take_short zero (x ∷ xs) h = absurd (omega arith)
take_short (suc n) [] h = refl
take_short (suc n) (x ∷ xs) h = rw (take_short n xs (omega arith))

take-take : (n : ℕ) (xs : List String) → take n (take n xs) ≡ take n xs
take-take zero xs = refl
take-take (suc n) [] = refl
take-take (suc n) (x ∷ xs) = rw (take-take n xs)

take-cons_take : (n : ℕ) (x : String) (xs : List String) → take n (x ∷ take n xs) ≡ take n (x ∷ xs)
take-cons_take zero x xs = refl
take-cons_take (suc n) x xs = rw (take-take_suc n xs)
  where
    take-take_suc : (n : ℕ) (xs : List String) → take n (take (suc n) xs) ≡ take n xs
    take-take_suc zero xs = refl
    take-take_suc (suc n) [] = refl
    take-take_suc (suc n) (x ∷ xs) = rw (take-take_suc n xs)

-- The events in the order in which they happen, on top of a log with the newest first.
abbrev pub pile : List String → List String → List String
pile [] log = log
pile (e ∷ es) log = pile es (e ∷ log)

module _ (p : Platform) where
  -- What an operation adds to the log, the oldest first.
  abbrev pub logged : Op → Status → List String
  logged (Op.presence connections) s =
      map (λ name. name +++ " joined")
        (p.sort_strings (
          joined_names s.viewers
            (note_connections p connections (record s { viewers = []; health = [] })).viewers))
  logged (Op.control m) s =
      if not (s.active_writer_id == m.active_writer_id)
        || not (s.active_writer_role == m.active_writer_role)
      then control_event m s ∷ []
      else []
  logged (Op.chat sender text) s =
      ("Chat from " +++ safe_terminal_label p sender +++ ": " +++ safe_terminal_label p text) ∷ []
  logged Op.kill_switch s = "Host triggered kill switch - viewers disconnected" ∷ []
  logged _ s = []

  -- The log with nothing forgotten.
  abbrev pub full_log : List Op → Status → List String → List String
  full_log [] s log = log
  full_log (op ∷ ops) s log = full_log ops (apply_op p op s) (pile (logged op s) log)

append_event-events :
    (e : String) (s : Status)
    → (append_event e s).events ≡ take max_host_control_events (e ∷ s.events)
unfolding append_event
append_event-events e s = elim (Bool-cases (ltb max_host_control_events (length (e ∷ s.events)))) [
  | inl long ↦ rw long refl
  | inr short ↦ rw short (sym (take_short 8 (e ∷ s.events) (ground arith)))
]

append_events-pile :
    (es log : List String) (s : Status)
    → s.events ≡ take max_host_control_events log
    → (append_events es s).events ≡ take max_host_control_events (pile es log)
unfolding append_events
append_events-pile [] log s h = h
append_events-pile (e ∷ es) log s h = append_events-pile es (e ∷ log) (append_event e s) (
    append_event-events e s
    ∙ ap (λ xs. take max_host_control_events (e ∷ xs)) h
    ∙ take-cons_take max_host_control_events e log)

module _ (p : Platform) where
  note_one-events :
      (c : PresenceConnectionInfo) (s : Status)
      → (note_writer c (note_viewer p c s)).events ≡ s.events
  unfolding note_writer note_viewer
  note_one-events c s = ground arith

  note_connections-events :
      (cs : List PresenceConnectionInfo) (s : Status) → (note_connections p cs s).events ≡ s.events
  unfolding note_connections
  note_connections-events [] s = refl
  note_connections-events (c ∷ cs) s =
      note_connections-events cs (note_writer c (note_viewer p c s)) ∙ note_one-events c s

  apply_op-logged :
      (op : Op) (s : Status) (log : List String)
      → s.events ≡ take max_host_control_events log
      → (apply_op p op s).events ≡ take max_host_control_events (pile (logged p op s) log)
  unfolding apply_op update_presence update_control note_chat note_kill_switch set_disconnected
      render_title set_invite set_qr_invite print append_events
  apply_op-logged (Op.presence cs) s log h =
      let cleared = record s { viewers = []; health = [] } in
      append_events-pile (logged p (Op.presence cs) s) log (note_connections p cs cleared)
        (note_connections-events cs cleared ∙ h)
  apply_op-logged (Op.control m) s log h =
      elim (Bool-cases (
        not (s.active_writer_id == m.active_writer_id)
        || not (s.active_writer_role == m.active_writer_role))) [
          | inl moved ↦ rw moved (
              append_events-pile (control_event m s ∷ []) log
                (record s {
                  active_writer_id = m.active_writer_id;
                  active_writer_role = m.active_writer_role;
                })
                h)
          | inr kept ↦ rw kept h
        ]
  apply_op-logged (Op.chat sender text) s log h =
      append_events-pile
        (("Chat from " +++ safe_terminal_label p sender +++ ": " +++ safe_terminal_label p text)
          ∷ [])
        log s h
  apply_op-logged Op.kill_switch s log h =
      append_events-pile ("Host triggered kill switch - viewers disconnected" ∷ []) log s h
  apply_op-logged (Op.invites u q) s log h = h
  apply_op-logged (Op.qr_invites u) s log h = h
  apply_op-logged Op.disconnects s log h = h
  apply_op-logged Op.prints s log h = h

  apply_ops-full_log :
      (ops : List Op) (s : Status) (log : List String)
      → s.events ≡ take max_host_control_events log
      → (apply_ops p ops s).events ≡ take max_host_control_events (full_log p ops s log)
  unfolding apply_ops
  apply_ops-full_log [] s log h = h
  apply_ops-full_log (op ∷ ops) s log h =
      apply_ops-full_log ops (apply_op p op s) (pile (logged p op s) log)
        (apply_op-logged op s log h)

  -- Whatever happens in a session, the activity log of the console is the newest eight events of
  -- all that the session has logged, the newest first.
  pub events-full_log :
      (mode : String) (ops : List Op)
      → (apply_ops p ops (new_status p mode)).events
        ≡ take max_host_control_events (full_log p ops (new_status p mode) [])
  unfolding new_status render_title
  events-full_log mode ops = apply_ops-full_log ops (new_status p mode) [] refl
