-- ===== src/Console/History.antt =====
-- `hostControlHistory` of cmd/getsloth/host_control_graph.go. A sample is a round-trip time in
-- milliseconds, `none` for `rttUnknown`: the code tests for it by `ms < 0`, and the relay reports no
-- negative time.
use getsloth.Base.{
  ℕ, ◌-◌, ◌≤◌, String, Bool, true, false, not, Option, get_or, List, [], ◌∷◌, ◌++◌, ◌≡◌, arith,
  ◌==◌, if◌then◌else◌, ltb, length, length-append, length-drop, drop, Map, lookup, insert, All,
  All-insert, Bool-cases, inl, inr,
}
use getsloth.Host.Status.{Viewer, Snapshot}

abbrev pub max_rtt_history : ℕ
max_rtt_history = 300

abbrev pub Samples : Type 0
Samples = List (Option ℕ)

abbrev pub History : Type 0
History = Map Samples

-- The samples of one viewer after one more.
unfoldable pub push_sample : Samples → Option ℕ → Samples
push_sample samples sample =
    let grown = samples ++ sample ∷ [] in
    if ltb max_rtt_history (length grown)
    then drop (length grown - max_rtt_history) grown
    else grown

unfoldable pub record_viewers : List Viewer → History → History
unfolding push_sample
record_viewers [] h = h
record_viewers (v ∷ viewers) h =
    record_viewers viewers (insert v.id (push_sample (get_or (lookup v.id h) []) v.rtt_ms) h)

unfoldable pub is_present : String → List Viewer → Bool
is_present id [] = false
is_present id (v ∷ viewers) = let rest = is_present id viewers in if v.id == id then true else rest

-- The loop that forgets the viewers that left.
unfoldable pub forget_absent : List Viewer → History → History
unfolding is_present
forget_absent viewers [] = []
forget_absent viewers ((id, samples) ∷ h) =
    let rest = forget_absent viewers h in
    if not (is_present id viewers) then rest else (id, samples) ∷ rest

unfoldable pub record_snapshot : Snapshot → History → History
unfolding record_viewers forget_absent
record_snapshot s h = forget_absent s.viewers (record_viewers s.viewers h)

unfoldable pub record_all : List Snapshot → History → History
unfolding record_snapshot
record_all [] h = h
record_all (s ∷ ss) h = record_all ss (record_snapshot s h)

abbrev pub IsShort : String × Samples → Type 0
IsShort e = length e.1 ≤ max_rtt_history

push_sample-IsShort : (xs : Samples) (x : Option ℕ) → length (push_sample xs x) ≤ max_rtt_history
unfolding push_sample
push_sample-IsShort xs x = ground (
  arith,
  length-append xs (x ∷ []),
  length-drop (length (xs ++ x ∷ []) - max_rtt_history) (xs ++ x ∷ []),
)

record_viewers-IsShort :
    (vs : List Viewer) (h : History) → All IsShort h → All IsShort (record_viewers vs h)
unfolding record_viewers
record_viewers-IsShort [] h s = s
record_viewers-IsShort (v ∷ vs) h s =
    record_viewers-IsShort vs _
      (All-insert IsShort v.id _ h (push_sample-IsShort (get_or (lookup v.id h) []) v.rtt_ms) s)

abbrev pub Kept : List Viewer → String × Samples → Type 0
Kept viewers e = IsShort e × (is_present e.0 viewers ≡ true)

forget_absent-Kept :
    (vs : List Viewer) (h : History) → All IsShort h → All (Kept vs) (forget_absent vs h)
unfolding forget_absent
forget_absent-Kept vs [] s = tt
forget_absent-Kept vs ((id, samples) ∷ h) s = elim (Bool-cases (is_present id vs)) [
  | inl e ↦ rw (e, forget_absent) ((s.0, e), forget_absent-Kept vs h s.1)
  | inr e ↦ rw (e, forget_absent) (forget_absent-Kept vs h s.1)
]

Kept-IsShort : (vs : List Viewer) (h : History) → All (Kept vs) h → All IsShort h
Kept-IsShort vs [] k = tt
Kept-IsShort vs (e ∷ h) k = (k.0.0, Kept-IsShort vs h k.1)

record_all-IsShort :
    (ss : List Snapshot) (h : History) → All IsShort h → All IsShort (record_all ss h)
unfolding record_all record_snapshot
record_all-IsShort [] h s = s
record_all-IsShort (t ∷ ss) h s = record_all-IsShort ss (record_snapshot t h) (
    Kept-IsShort t.viewers _ (
      forget_absent-Kept t.viewers (record_viewers t.viewers h)
        (record_viewers-IsShort t.viewers h s)))

-- However long the console runs, its history holds at most 300 samples for a viewer, and after each
-- snapshot only viewers of that snapshot.
history_bounded :
    (before : List Snapshot) (last : Snapshot)
    → All (Kept last.viewers) (record_snapshot last (record_all before []))
unfolding record_snapshot
history_bounded before last =
    forget_absent-Kept last.viewers _
      (record_viewers-IsShort last.viewers _ (record_all-IsShort before [] tt))
