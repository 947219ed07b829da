-- ===== src/Relay/Server/Machine/Laws.antt =====
-- What the control machine promises over every run.
use getsloth.Base.{ℕ, ◌+◌, ◌≤◌, ◌<◌, List, [], ◌∷◌, ◌≡◌, ◌⊎◌, inl, inr, refl, arith, All}
use getsloth.Protocol.{session_mode_group}
use getsloth.Relay.Session.{World, host_lock_window}
use getsloth.Relay.Server.{Decoder}
use getsloth.Relay.Server.Roles.{Roles, Proper}
use getsloth.Relay.Server.Roles.Run.{step-Roles}
use getsloth.Relay.Server.Steps.{Env, Input, step, run}
use getsloth.Relay.Server.Machine.{
  Machine, machine, Move, stay, reclaim, take, drive, follow, remember, give_back, Configured,
  configured,
}
use getsloth.Relay.Server.Machine.Refines.{IsConfig, step-Move}

-- The host writes exactly under its own role, and then on its own grid.
pub record IsOwned (m : Machine) : Type 0 where
  pub by_role : m.role ≡ "host" → m.writer ≡ "host"
  pub by_writer : m.writer ≡ "host" → m.role ≡ "host"
  pub cols_own : m.writer ≡ "host" → m.cols ≡ m.host_cols
  pub rows_own : m.writer ≡ "host" → m.rows ≡ m.host_rows

Move-IsOwned : {now : ℕ} {m n : Machine} → Move now m n → IsOwned m → IsOwned n
Move-IsOwned (stay e) o = rw e o
Move-IsOwned (reclaim e) o = rw e (record {
  by_role = λ _. refl;
  by_writer = λ _. refl;
  cols_own = λ _. refl;
  rows_own = λ _. refl;
})
Move-IsOwned (take id cols rows viewer _ _ _ e) o = rw e (record {
  by_role = λ q. cc;
  by_writer = λ q. absurd (viewer q);
  cols_own = λ q. absurd (viewer q);
  rows_own = λ q. absurd (viewer q);
})
Move-IsOwned (drive cols rows viewer _ _ e) o = rw e (record {
  by_role = o.by_role;
  by_writer = o.by_writer;
  cols_own = λ q. absurd (viewer q);
  rows_own = λ q. absurd (viewer q);
})
Move-IsOwned (follow cols rows host _ e) o = rw e (record {
  by_role = o.by_role;
  by_writer = o.by_writer;
  cols_own = λ q. refl;
  rows_own = λ q. refl;
})
Move-IsOwned (remember cols rows viewer _ e) o = rw e (record {
  by_role = o.by_role;
  by_writer = o.by_writer;
  cols_own = λ q. absurd (viewer (o.by_writer q));
  rows_own = λ q. absurd (viewer (o.by_writer q));
})
Move-IsOwned (give_back viewer e) o = rw e (record {
  by_role = λ _. refl;
  by_writer = λ _. refl;
  cols_own = λ _. refl;
  rows_own = λ _. refl;
})

Configured-IsOwned : {m n : Machine} → Configured m n → IsOwned m → IsOwned n
Configured-IsOwned (configured mode cols rows _ _ e) o = rw e (record {
  by_role = o.by_role;
  by_writer = o.by_writer;
  cols_own = λ _. refl;
  rows_own = λ _. refl;
})

-- A group session in the host's hands.
abbrev IsHostGroup : Machine → Type 0
IsHostGroup m = (m.mode ≡ session_mode_group) × (m.writer ≡ "host")

Move-IsHostGroup : {now : ℕ} {m n : Machine} → Move now m n → IsHostGroup m → IsHostGroup n
Move-IsHostGroup (stay e) g = rw e g
Move-IsHostGroup (reclaim e) g = rw e (g.0, refl)
Move-IsHostGroup (take id cols rows _ remote _ _ e) g = absurd (remote g.0)
Move-IsHostGroup (drive cols rows _ remote _ e) g = absurd (remote g.0)
Move-IsHostGroup (follow cols rows _ _ e) g = rw e g
Move-IsHostGroup (remember cols rows _ _ e) g = rw e g
Move-IsHostGroup (give_back _ e) g = rw e (g.0, refl)

-- The host holds control, and reclaimed it at `t` or later.
abbrev IsReclaimed : ℕ → Machine → Type 0
IsReclaimed t m = (m.writer ≡ "host") × (t ≤ m.reclaimed_at)

Move-IsReclaimed :
    (t : ℕ) {now : ℕ} {m n : Machine}
    → t ≤ now
    → now < t + host_lock_window
    → Move now m n
    → IsReclaimed t m
    → IsReclaimed t n
Move-IsReclaimed t lo hi (stay e) g = rw e g
Move-IsReclaimed t lo hi (reclaim e) g = rw e (refl, lo)
Move-IsReclaimed t lo hi (take id cols rows _ _ late _ e) g = absurd (omega arith)
Move-IsReclaimed t lo hi (drive cols rows _ _ _ e) g = rw e g
Move-IsReclaimed t lo hi (follow cols rows _ _ e) g = rw e g
Move-IsReclaimed t lo hi (remember cols rows _ _ e) g = rw e g
Move-IsReclaimed t lo hi (give_back _ e) g = rw e (refl, g.1)

Configured-IsReclaimed :
    (t : ℕ) {m n : Machine} → Configured m n → IsReclaimed t m → IsReclaimed t n
Configured-IsReclaimed t (configured mode cols rows _ _ e) g = rw e g

module _ {Raw : Type 0} (d : Decoder Raw) (h : ℕ) where
  -- An invariant of the machine, kept by each step whose input meets `Q`, is kept by a run.
  run_invariant :
      (P : Machine → Type 0) (Q : Env → Input Raw → Type 0)
      → ((e : Env) (i : Input Raw) (m n : Machine)
          → Q e i
          → Move e.now m n ⊎ (IsConfig d h i × Configured m n)
          → P m
          → P n)
      → (is : List (Env × Input Raw)) (w : World) → All (λ ei. Proper h ei.1) is
      → All (λ ei. Q ei.0 ei.1) is
      → Roles h w
      → P (machine w.session)
      → P (machine (run d is w).0.session)
  unfolding run
  run_invariant P Q keep [] w p q r m = m
  run_invariant P Q keep ((e, i) ∷ is) w p q r m =
      run_invariant P Q keep is (step d e i w).0 p.1 q.1 (step-Roles d h e i w p.0 r)
        (keep e i _ _ q.0 (step-Move d h e i w p.0 r) m)

  -- In every run the writer's role is `host` exactly when the writer is the host, and whenever
  -- the host writes, the canonical grid is the host's own.
  pub run-IsOwned :
      (is : List (Env × Input Raw)) (w : World)
      → All (λ ei. Proper h ei.1) is
      → Roles h w
      → IsOwned (machine w.session)
      → IsOwned (machine (run d is w).0.session)
  run-IsOwned is w p r o = run_invariant IsOwned (λ _ _. Unit {0}) keep is w p (all_unit is) r o
    where
      all_unit : (is : List (Env × Input Raw)) → All (λ ei. Unit {0}) is
      all_unit [] = tt
      all_unit (i ∷ is) = (tt, all_unit is)

      keep :
          (e : Env) (i : Input Raw) (m n : Machine)
          → Unit {0}
          → Move e.now m n ⊎ (IsConfig d h i × Configured m n)
          → IsOwned m
          → IsOwned n
      keep e i m n _ (inl move) o = Move-IsOwned move o
      keep e i m n _ (inr (_, c)) o = Configured-IsOwned c o

  -- In a group session that the host controls no run gives control to a viewer, as long as the
  -- host does not configure the session again.
  pub group_host_writes :
      (is : List (Env × Input Raw)) (w : World)
      → All (λ ei. Proper h ei.1) is
      → All (λ ei. ¬ IsConfig d h ei.1) is
      → Roles h w
      → w.session.mode ≡ session_mode_group
      → w.session.active_writer_id ≡ "host"
      → (run d is w).0.session.active_writer_id ≡ "host"
  group_host_writes is w p q r mode host =
      (run_invariant IsHostGroup (λ _ i. ¬ IsConfig d h i) keep is w p q r (mode, host)).1
    where
      keep :
          (e : Env) (i : Input Raw) (m n : Machine)
          → ¬ IsConfig d h i
          → Move e.now m n ⊎ (IsConfig d h i × Configured m n)
          → IsHostGroup m
          → IsHostGroup n
      keep e i m n no_config (inl move) g = Move-IsHostGroup move g
      keep e i m n no_config (inr (is_config, c)) g = absurd (no_config is_config)

  -- Once the host has reclaimed control at time `t` or later, no run within the two seconds after
  -- `t` takes control from it, whatever viewers send.
  pub host_keeps_control :
      (t : ℕ) (is : List (Env × Input Raw)) (w : World)
      → All (λ ei. Proper h ei.1) is
      → All (λ ei. (t ≤ ei.0.now) × (ei.0.now < t + host_lock_window)) is
      → Roles h w
      → w.session.active_writer_id ≡ "host"
      → t ≤ w.session.last_host_reclaim
      → (run d is w).0.session.active_writer_id ≡ "host"
  host_keeps_control t is w p q r host late =
      (run_invariant (IsReclaimed t) (λ e _. (t ≤ e.now) × (e.now < t + host_lock_window)) keep is w
        p q r (host, late)).0
    where
      keep :
          (e : Env) (i : Input Raw) (m n : Machine)
          → (t ≤ e.now) × (e.now < t + host_lock_window)
          → Move e.now m n ⊎ (IsConfig d h i × Configured m n)
          → IsReclaimed t m
          → IsReclaimed t n
      keep e i m n when (inl move) g = Move-IsReclaimed t when.0 when.1 move g
      keep e i m n when (inr (_, c)) g = Configured-IsReclaimed t c g
