-- ===== src/Host/Process/Told/Steps.antt =====
-- The steps of the panic kill and of the cleanup keep the invariant, and the cleanup goes on.
use getsloth.Base.{◌≡◌, refl, inl, inr}
use getsloth.Host.Control.{HostMsg}
use getsloth.Host.Process.{
  Process, Outgoing, Panic, Stage, write_json, panic_kill, go_on_panic, cleanup, stop_panic,
  go_on_cleanup,
}
use getsloth.Host.Process.Told.{
  kills-Before, tells-Between, closes_too_late, kills-Place, Between-Earlier, waits-Before, State,
  write-IsEarly, write-ToldOnce, end-ToldOnce, end-Ended, at,
}

pub panic_kill-State :
    (q : Panic) (s : Stage) (p : Process) → State (at q s p) → State (panic_kill (at q s p))
unfolding panic_kill
panic_kill-State Panic.waits s p (inl (live, quiet, b)) = inl (live, quiet, waits-Before s b)
panic_kill-State Panic.waits s p (inr (inl (live, told, b))) =
    absurd (Between-Earlier s Panic.waits tt b)
panic_kill-State Panic.waits s p (inr (inr e)) = inr (inr e)
panic_kill-State Panic.kills_viewers s p h = h
panic_kill-State Panic.tells_end s p h = h
panic_kill-State Panic.closes s p h = h
panic_kill-State Panic.kills_command s p h = h
panic_kill-State Panic.done s p h = h

pub go_on_panic-State :
    (q : Panic) (s : Stage) (p : Process) → State (at q s p) → State (go_on_panic (at q s p))
unfolding go_on_panic write_json
go_on_panic-State Panic.waits s p h = h
go_on_panic-State Panic.kills_viewers s p (inl (live, quiet, b)) =
    inl (live, write-IsEarly (Outgoing.action HostMsg.kill_switch) p tt quiet, kills-Before s b)
go_on_panic-State Panic.kills_viewers s p (inr (inl (live, told, b))) =
    absurd (Between-Earlier s Panic.kills_viewers tt b)
go_on_panic-State Panic.kills_viewers s p (inr (inr (closed, told))) =
    inr (inr (closed, write-ToldOnce (Outgoing.action HostMsg.kill_switch) p tt told))
go_on_panic-State Panic.tells_end s p (inl (live, quiet, b)) =
    inr (inl (live, end-ToldOnce p live quiet, tells-Between s b))
go_on_panic-State Panic.tells_end s p (inr (inl (live, told, b))) =
    absurd (Between-Earlier s Panic.tells_end tt b)
go_on_panic-State Panic.tells_end s p (inr (inr e)) = inr (inr (end-Ended p e))
go_on_panic-State Panic.closes s p (inl (live, quiet, b)) = absurd (closes_too_late s b)
go_on_panic-State Panic.closes s p (inr (inl (live, told, b))) = inr (inr (refl, told))
go_on_panic-State Panic.closes s p (inr (inr (closed, told))) = inr (inr (refl, told))
go_on_panic-State Panic.kills_command s p (inl (live, quiet, b)) = absurd (kills-Place.0 s b)
go_on_panic-State Panic.kills_command s p (inr (inl (live, told, b))) = absurd (kills-Place.1 s b)
go_on_panic-State Panic.kills_command s p (inr (inr e)) = inr (inr e)
go_on_panic-State Panic.done s p h = h

pub cleanup-State :
    (q : Panic) (s : Stage) (p : Process) → State (at q s p) → State (cleanup (at q s p))
unfolding cleanup
cleanup-State q Stage.running p (inl u) = inl u
cleanup-State q Stage.running p (inr (inl u)) = inr (inl u)
cleanup-State q Stage.running p (inr (inr e)) = inr (inr e)
cleanup-State q Stage.stops_panic p h = h
cleanup-State q Stage.tells_end p h = h
cleanup-State q Stage.closes p h = h
cleanup-State q Stage.finished p h = h

stop_panic-State :
    (q : Panic) (p : Process)
    → State (at q Stage.stops_panic p)
    → State (stop_panic (at q Stage.stops_panic p))
unfolding stop_panic
stop_panic-State Panic.waits p (inl u) = inl u
stop_panic-State Panic.waits p (inr (inl u)) = absurd u.2
stop_panic-State Panic.waits p (inr (inr e)) = inr (inr e)
stop_panic-State Panic.kills_viewers p h = h
stop_panic-State Panic.tells_end p h = h
stop_panic-State Panic.closes p h = h
stop_panic-State Panic.kills_command p h = h
stop_panic-State Panic.done p (inl u) = absurd u.2
stop_panic-State Panic.done p (inr (inl u)) = absurd u.2
stop_panic-State Panic.done p (inr (inr e)) = inr (inr e)

pub go_on_cleanup-State :
    (q : Panic) (s : Stage) (p : Process) → State (at q s p) → State (go_on_cleanup (at q s p))
unfolding go_on_cleanup write_json
go_on_cleanup-State q Stage.running p h = h
go_on_cleanup-State q Stage.stops_panic p h = stop_panic-State q p h
go_on_cleanup-State q Stage.tells_end p (inl (live, quiet, b)) =
    inr (inl (live, end-ToldOnce p live quiet, b))
go_on_cleanup-State q Stage.tells_end p (inr (inl u)) = absurd u.2
go_on_cleanup-State q Stage.tells_end p (inr (inr e)) = inr (inr (end-Ended p e))
go_on_cleanup-State q Stage.closes p (inl u) = absurd u.2
go_on_cleanup-State q Stage.closes p (inr (inl (live, told, b))) = inr (inr (refl, told))
go_on_cleanup-State q Stage.closes p (inr (inr (closed, told))) = inr (inr (refl, told))
go_on_cleanup-State q Stage.finished p h = h

-- The cleanup has begun, and does not go back.
abbrev pub Begun : Stage → Type 0
Begun Stage.running = ⊥
Begun _ = Unit {0}

pub cleanup-Begun : (s : Stage) (p : Process) → Begun (cleanup (at p.panic s p)).stage
unfolding cleanup
cleanup-Begun Stage.running p = tt
cleanup-Begun Stage.stops_panic p = tt
cleanup-Begun Stage.tells_end p = tt
cleanup-Begun Stage.closes p = tt
cleanup-Begun Stage.finished p = tt

pub panic_kill-stage : (q : Panic) (p : Process) → (panic_kill (at q p.stage p)).stage ≡ p.stage
unfolding panic_kill
panic_kill-stage Panic.waits p = refl
panic_kill-stage Panic.kills_viewers p = refl
panic_kill-stage Panic.tells_end p = refl
panic_kill-stage Panic.closes p = refl
panic_kill-stage Panic.kills_command p = refl
panic_kill-stage Panic.done p = refl

pub go_on_panic-stage : (q : Panic) (p : Process) → (go_on_panic (at q p.stage p)).stage ≡ p.stage
unfolding go_on_panic write_json
go_on_panic-stage Panic.waits p = refl
go_on_panic-stage Panic.kills_viewers p = refl
go_on_panic-stage Panic.tells_end p = refl
go_on_panic-stage Panic.closes p = refl
go_on_panic-stage Panic.kills_command p = refl
go_on_panic-stage Panic.done p = refl

stop_panic-Begun : (q : Panic) (p : Process) → Begun (stop_panic (at q Stage.stops_panic p)).stage
unfolding stop_panic
stop_panic-Begun Panic.waits p = tt
stop_panic-Begun Panic.kills_viewers p = tt
stop_panic-Begun Panic.tells_end p = tt
stop_panic-Begun Panic.closes p = tt
stop_panic-Begun Panic.kills_command p = tt
stop_panic-Begun Panic.done p = tt

pub go_on_cleanup-Begun :
    (s : Stage) (p : Process) → Begun s → Begun (go_on_cleanup (at p.panic s p)).stage
unfolding go_on_cleanup write_json
go_on_cleanup-Begun Stage.running p b = absurd b
go_on_cleanup-Begun Stage.stops_panic p b = stop_panic-Begun p.panic p
go_on_cleanup-Begun Stage.tells_end p b = tt
go_on_cleanup-Begun Stage.closes p b = tt
go_on_cleanup-Begun Stage.finished p b = tt
