-- ===== src/Host/Keyboard.antt =====
-- `gatedWriter` of cmd/getsloth/pty.go: the host's own keystrokes on their way to the shell. Bytes
-- are natural numbers. The flag that `active.Load()` reads can change between two bytes, so each
-- byte comes with the value that is read for it. The destination's failure is an argument.
use getsloth.Base.{
  ℕ, Bool, true, false, not, ◌&&◌, ◌||◌, List, [], ◌∷◌, ◌++◌, ◌≡◌, ◌≢◌, refl, sym, ap, ◌∙◌, arith,
  map, append_assoc, length, ltb, eqb, if◌then◌else◌, All, Option, none, some,
}

-- Ctrl-]
abbrev pub host_command_prefix : ℕ
host_command_prefix = 29

pub data Action : Type 0 where
  reclaim : Action
  status : Action

-- `hostInputActions`: which of its two functions are set.
pub record Handlers : Type 0 where
  pub on_reclaim : Bool
  pub on_status : Bool

-- A byte with the value of `active` that is read for it.
abbrev pub Key : Type 0
Key = ℕ × Bool

-- Whether a prefix is pending, the bytes to forward, and the functions called, in order.
pub record Outcome : Type 0 where
  pub prefix_pending : Bool
  pub forward : List ℕ
  pub actions : List Action

abbrev pub quiet : Bool → Outcome
quiet pending = record { prefix_pending = pending; forward = []; actions = [] }

abbrev pub acts : Bool → Action → Outcome
acts set a = record { prefix_pending = false; forward = []; actions = if set then a ∷ [] else [] }

abbrev pub passes : Bool → List ℕ → Outcome
passes active bytes = record {
  prefix_pending = false;
  forward = if active then bytes else [];
  actions = [];
}

-- One turn of the loop.
unfoldable pub press : Handlers → Bool → Key → Outcome
press h pending (value, active) =
    if pending
    then (if eqb value 114 || eqb value 82
        then acts h.on_reclaim Action.reclaim
        else if eqb value 105 || eqb value 73
        then acts h.on_status Action.status
        else passes active (host_command_prefix ∷ value ∷ []))
    else if eqb value host_command_prefix
    then quiet true
    else passes active (value ∷ [])

abbrev pub then_outcome : Outcome → Outcome → Outcome
then_outcome a b = record {
  prefix_pending = b.prefix_pending;
  forward = a.forward ++ b.forward;
  actions = a.actions ++ b.actions;
}

-- The loop over the bytes of one `Write`.
unfoldable pub type_keys : Handlers → Bool → List Key → Outcome
unfolding press
type_keys h pending [] = quiet pending
type_keys h pending (key ∷ keys) =
    let first = press h pending key in then_outcome first (type_keys h first.prefix_pending keys)

-- What `Write` returns: the number of bytes, or none for an error of the destination. A gate with
-- no actions reads `active` once, and forwards everything or nothing.
unfoldable pub write_result : (List ℕ → Bool) → ℕ → List ℕ → Option ℕ
write_result fails total forward =
    if ltb 0 (length forward) && fails forward then none else some total

unfoldable pub plain_write : (List ℕ → Bool) → Bool → List ℕ → Option ℕ × List ℕ
plain_write fails active bytes =
    if not active
    then (some (length bytes), [])
    else ((if fails bytes then none else some (length bytes)), bytes)

unfoldable pub gated_write : (List ℕ → Bool) → Handlers → Bool → List Key → Option ℕ × Outcome
unfolding write_result type_keys
gated_write fails h pending keys =
    let o = type_keys h pending keys in (write_result fails (length keys) o.forward, o)

-- The writes one after the other, as they come from the terminal, while the destination accepts them:
-- the numbers of bytes that they return, and what became of the keys.
unfoldable pub gated_writes : Handlers → Bool → List (List Key) → List (Option ℕ) × Outcome
unfolding gated_write
gated_writes h pending [] = ([], quiet pending)
gated_writes h pending (keys ∷ writes) =
    let (result, first) = gated_write (λ bytes. false) h pending keys in
    let (results, later) = gated_writes h first.prefix_pending writes in
    (result ∷ results, then_outcome first later)

abbrev pub joined_keys : List (List Key) → List Key
joined_keys [] = []
joined_keys (keys ∷ writes) = keys ++ joined_keys writes

-- What the host means by its keys, without a state: a prefix and the key behind it are one command.
-- Those of the commands `r` and `i` call their function, any other prefix goes to the shell with the key
-- behind it, if the host is the writer when that is read. A prefix at the very end waits.
abbrev pub is_letter : ℕ → ℕ → ℕ → Bool
is_letter value small capital = eqb value small || eqb value capital

abbrev pub forwarded : List Key → List ℕ
forwarded [] = []
forwarded ((value, active) ∷ []) =
    if eqb value host_command_prefix then [] else if active then value ∷ [] else []
forwarded ((value, active) ∷ (next, active') ∷ keys) =
    let single = forwarded ((next, active') ∷ keys) in
    let paired = forwarded keys in
    if not (eqb value host_command_prefix)
    then (if active then value ∷ single else single)
    else if is_letter next 114 82 || is_letter next 105 73
    then paired
    else if active'
    then value ∷ next ∷ paired
    else paired

abbrev pub commands : Handlers → List Key → List Action
commands h [] = []
commands h (key ∷ []) = []
commands h ((value, active) ∷ (next, active') ∷ keys) =
    let single = commands h ((next, active') ∷ keys) in
    let paired = commands h keys in
    if not (eqb value host_command_prefix)
    then single
    else if is_letter next 114 82
    then (if h.on_reclaim then Action.reclaim ∷ paired else paired)
    else if is_letter next 105 73
    then (if h.on_status then Action.status ∷ paired else paired)
    else paired

type_keys-append :
    (h : Handlers) (pending : Bool) (ks ls : List Key)
    → type_keys h pending (ks ++ ls)
      ≡ then_outcome
          (type_keys h pending ks)
          (type_keys h (type_keys h pending ks).prefix_pending ls)
unfolding type_keys
type_keys-append h pending [] ls = refl
type_keys-append h pending (k ∷ ks) ls =
    let first = press h pending k in
    let rest = type_keys h first.prefix_pending ks in
    let last = type_keys h rest.prefix_pending ls in
    rw
      (
        type_keys-append h first.prefix_pending ks ls,
        append_assoc first.forward rest.forward last.forward,
        append_assoc first.actions rest.actions last.actions,
      )
      refl

abbrev Means : Handlers → List Key → Type 0
Means h keys =
    ((type_keys h false keys).forward ≡ forwarded keys)
    × ((type_keys h false keys).actions ≡ commands h keys)

type_keys-Means : (h : Handlers) (keys : List Key) → Means h keys
unfolding type_keys press
type_keys-Means h [] = (refl, refl)
type_keys-Means h (k ∷ []) = ground arith
type_keys-Means h (k ∷ l ∷ keys) =
    let single = type_keys-Means h (l ∷ keys) in
    let paired = type_keys-Means h keys in ground (arith, single.0, single.1, paired.0, paired.1)

accepted : (total : ℕ) (bytes : List ℕ) → write_result (λ bytes. false) total bytes ≡ some total
unfolding write_result
accepted total bytes = ground arith

gated_writes-joined :
    (h : Handlers) (pending : Bool) (writes : List (List Key))
    → ((gated_writes h pending writes).1 ≡ type_keys h pending (joined_keys writes))
      × ((gated_writes h pending writes).0 ≡ map (λ keys. some (length keys)) writes)
unfolding gated_writes type_keys write_result
gated_writes-joined h pending [] = (refl, refl)
gated_writes-joined h pending (keys ∷ writes) =
    let first = type_keys h pending keys in
    let rest = gated_writes-joined h first.prefix_pending writes in
    (
      ap (then_outcome first) rest.0 ∙ sym (type_keys-append h pending keys (joined_keys writes)),
      rw (accepted (length keys) first.forward, rest.1) refl,
    )

-- However the terminal cuts the host's keys into writes, and whatever the flag is when each key is
-- read, as long as the destination accepts what it is sent: the writes together forward the bytes and
-- call the functions that the keys mean when they are read as one text, and each returns its own
-- number of bytes.
pub gated_writes-forwarded :
    (h : Handlers) (writes : List (List Key))
    → let (results, outcome) = gated_writes h false writes in
      (outcome.forward ≡ forwarded (joined_keys writes))
      × (outcome.actions ≡ commands h (joined_keys writes))
      × (results ≡ map (λ keys. some (length keys)) writes)
gated_writes-forwarded h writes =
    let whole = gated_writes-joined h false writes in
    let meant = type_keys-Means h (joined_keys writes) in
    (ap (λ o. o.forward) whole.0 ∙ meant.0, ap (λ o. o.actions) whole.0 ∙ meant.1, whole.1)

press-inactive :
    (h : Handlers) (pending : Bool) (k : Key) → k.1 ≡ false → (press h pending k).forward ≡ []
unfolding press
press-inactive h pending k off = ground arith

-- While a viewer is the active writer, none of the host's keystrokes reaches the shell.
pub inactive_forwards_nothing :
    (h : Handlers) (pending : Bool) (ks : List Key)
    → All (λ k. k.1 ≡ false) ks
    → (type_keys h pending ks).forward ≡ []
unfolding type_keys
inactive_forwards_nothing h pending [] off = refl
inactive_forwards_nothing h pending (k ∷ ks) off =
    rw (press-inactive h pending k off.0)
      (inactive_forwards_nothing h (press h pending k).prefix_pending ks off.1)

press-plain :
    (h : Handlers) (k : Key)
    → k.0 ≢ host_command_prefix
    → k.1 ≡ true
    → press h false k ≡ record { prefix_pending = false; forward = k.0 ∷ []; actions = [] }
unfolding press
press-plain h k plain on = ground arith

-- While the host is the active writer, keystrokes without the prefix reach the shell as they are,
-- and call nothing.
plain_keys_pass :
    (h : Handlers) (ks : List Key)
    → All (λ k. (k.0 ≢ host_command_prefix) × (k.1 ≡ true)) ks
    → type_keys h false ks
      ≡ record { prefix_pending = false; forward = map (λ k. k.0) ks; actions = [] }
unfolding type_keys
plain_keys_pass h [] on = refl
plain_keys_pass h (k ∷ ks) on =
    rw (press-plain h k on.0.0 on.0.1) (rw (plain_keys_pass h ks on.1) refl)

-- Ctrl-] followed by `r` or `R` reclaims control whoever the active writer is, and forwards
-- nothing.
reclaim_always_works :
    (h : Handlers) (active also : Bool) (letter : ℕ)
    → h.on_reclaim ≡ true
    → (eqb letter 114 || eqb letter 82) ≡ true
    → type_keys h false ((host_command_prefix, active) ∷ (letter, also) ∷ [])
      ≡ record { prefix_pending = false; forward = []; actions = Action.reclaim ∷ [] }
unfolding type_keys
reclaim_always_works h active also letter set chosen = rw (chosen, set) refl
