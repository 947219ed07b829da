-- ===== src/Host/Process/Told.antt =====
-- Whether the relay has been told of the end: an invariant of the two goroutines that tell it, the
-- panic kill and the cleanup of cmd/getsloth/main.go.
pub mod Steps
use getsloth.Base.{
  true, false, List, [], ◌∷◌, ◌++◌, ◌⊎◌, ◌≡◌, refl, ap, ◌∙◌, All, All-append, append_assoc,
  Bool-cases, inl, inr,
}
use getsloth.Host.Control.{HostMsg}
use getsloth.Host.Process.{
  Process, Outgoing, Panic, Stage, write_json, panic_kill, go_on_panic, cleanup, stop_panic,
  go_on_cleanup,
}

abbrev pub IsEarly : Outgoing → Type 0
IsEarly Outgoing.end_session = ⊥
IsEarly _ = Unit {0}

-- The relay was told of the end exactly once.
abbrev pub ToldOnce : Process → Type 0
ToldOnce p =
    (early : List Outgoing) × (late : List Outgoing) × (p.delivered
      ≡ early ++ Outgoing.end_session ∷ late)
    × All IsEarly early
    × All IsEarly late

abbrev pub Ended : Process → Type 0
Ended p = (p.closed ≡ true) × ToldOnce p

-- Where the panic kill is: not yet at its message, between it and the close, or done.
abbrev pub Earlier : Panic → Type 0
Earlier Panic.waits = Unit {0}
Earlier Panic.kills_viewers = Unit {0}
Earlier Panic.tells_end = Unit {0}
Earlier _ = ⊥

abbrev pub UnderWay : Panic → Type 0
UnderWay Panic.closes = Unit {0}
UnderWay _ = ⊥

abbrev pub Done : Panic → Type 0
Done Panic.done = Unit {0}
Done _ = ⊥

-- While nobody has told the relay of the end.
abbrev pub Before : Stage → Panic → Type 0
Before Stage.running q = Earlier q
Before Stage.stops_panic q = Earlier q
Before Stage.tells_end q = Done q
Before Stage.closes q = ⊥
Before Stage.finished q = ⊥

-- Between the message and the close.
abbrev pub Between : Stage → Panic → Type 0
Between Stage.running q = UnderWay q
Between Stage.stops_panic q = UnderWay q
Between Stage.tells_end q = ⊥
Between Stage.closes q = Done q
Between Stage.finished q = ⊥

pub kills-Before : (s : Stage) → Before s Panic.kills_viewers → Before s Panic.tells_end
kills-Before Stage.running b = tt
kills-Before Stage.stops_panic b = tt
kills-Before Stage.tells_end b = absurd b
kills-Before Stage.closes b = absurd b
kills-Before Stage.finished b = absurd b

pub tells-Between : (s : Stage) → Before s Panic.tells_end → Between s Panic.closes
tells-Between Stage.running b = tt
tells-Between Stage.stops_panic b = tt
tells-Between Stage.tells_end b = absurd b
tells-Between Stage.closes b = absurd b
tells-Between Stage.finished b = absurd b

-- The places where a session is not told of, and those where it is being told.
abbrev pub Place : Panic → Type 0
Place q = ((s : Stage) → Before s q → ⊥) × ((s : Stage) → Between s q → ⊥)

pub closes_too_late : (s : Stage) → Before s Panic.closes → ⊥
closes_too_late Stage.running b = b
closes_too_late Stage.stops_panic b = b
closes_too_late Stage.tells_end b = b
closes_too_late Stage.closes b = b
closes_too_late Stage.finished b = b

pub kills-Place : Place Panic.kills_command
kills-Place = (before, between)
  where
    before : (s : Stage) → Before s Panic.kills_command → ⊥
    before Stage.running b = b
    before Stage.stops_panic b = b
    before Stage.tells_end b = b
    before Stage.closes b = b
    before Stage.finished b = b

    between : (s : Stage) → Between s Panic.kills_command → ⊥
    between Stage.running b = b
    between Stage.stops_panic b = b
    between Stage.tells_end b = b
    between Stage.closes b = b
    between Stage.finished b = b

-- Between the message and the close the panic kill is not at an earlier place.
pub Between-Earlier : (s : Stage) (q : Panic) → Earlier q → Between s q → ⊥
Between-Earlier Stage.running Panic.waits e b = b
Between-Earlier Stage.running Panic.kills_viewers e b = b
Between-Earlier Stage.running Panic.tells_end e b = b
Between-Earlier Stage.stops_panic Panic.waits e b = b
Between-Earlier Stage.stops_panic Panic.kills_viewers e b = b
Between-Earlier Stage.stops_panic Panic.tells_end e b = b
Between-Earlier Stage.tells_end q e b = b
Between-Earlier Stage.closes Panic.waits e b = b
Between-Earlier Stage.closes Panic.kills_viewers e b = b
Between-Earlier Stage.closes Panic.tells_end e b = b
Between-Earlier Stage.finished q e b = b
Between-Earlier s Panic.closes e b = e
Between-Earlier s Panic.kills_command e b = e
Between-Earlier s Panic.done e b = e

pub waits-Before : (s : Stage) → Before s Panic.waits → Before s Panic.kills_viewers
waits-Before Stage.running b = tt
waits-Before Stage.stops_panic b = tt
waits-Before Stage.tells_end b = absurd b
waits-Before Stage.closes b = absurd b
waits-Before Stage.finished b = absurd b

abbrev pub Untold : Process → Type 0
Untold p = (p.closed ≡ false) × All IsEarly p.delivered × Before p.stage p.panic

abbrev pub Telling : Process → Type 0
Telling p = (p.closed ≡ false) × ToldOnce p × Between p.stage p.panic

abbrev pub State : Process → Type 0
State p = Untold p ⊎ Telling p ⊎ Ended p

pub write-IsEarly :
    (m : Outgoing) (p : Process)
    → IsEarly m
    → All IsEarly p.delivered
    → All IsEarly (write_json m p).delivered
unfolding write_json
write-IsEarly m p early all = elim (Bool-cases p.closed) [
  | inl e ↦ rw e all
  | inr e ↦ rw e (All-append IsEarly p.delivered (m ∷ []) all (early, tt))
]

pub write-ToldOnce :
    (m : Outgoing) (p : Process) → IsEarly m → ToldOnce p → ToldOnce (write_json m p)
unfolding write_json
write-ToldOnce m p early (before, after, told, quiet, quiet') = elim (Bool-cases p.closed) [
  | inl e ↦ rw e (before, after, told, quiet, quiet')
  | inr e ↦ rw e (
    before,
    after ++ m ∷ [],
    ap (λ ms. ms ++ m ∷ []) told ∙ append_assoc before (Outgoing.end_session ∷ after) (m ∷ []),
    quiet,
    All-append IsEarly after (m ∷ []) quiet' (early, tt),
  )
]

pub write-State : (m : Outgoing) (p : Process) → IsEarly m → State p → State (write_json m p)
unfolding write_json
write-State m p early (inl (live, quiet, at)) = inl (live, write-IsEarly m p early quiet, at)
write-State m p early (inr (inl (live, told, at))) =
    inr (inl (live, write-ToldOnce m p early told, at))
write-State m p early (inr (inr (closed, told))) = inr (inr (closed, write-ToldOnce m p early told))

-- The message of the end itself.
pub end-ToldOnce :
    (p : Process)
    → p.closed ≡ false
    → All IsEarly p.delivered
    → ToldOnce (write_json Outgoing.end_session p)
unfolding write_json
end-ToldOnce p live quiet = rw live (p.delivered, [], refl, quiet, tt)

pub end-Ended : (p : Process) → Ended p → Ended (write_json Outgoing.end_session p)
unfolding write_json
end-Ended p (closed, told) = rw closed (refl, told)

-- A process at a point of the panic kill and of the cleanup.
abbrev pub at : Panic → Stage → Process → Process
at q s p = record p { panic = q; stage = s }
