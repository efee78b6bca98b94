-- ===== src/Guard/Csf.antt =====
-- cmd/infrafence-agent/fwguard.go: the wait for csf is bounded.
use infrafence_agent.Base.{ℕ, ◌+◌, ◌≤◌, ◌<◌, true, false, List, [], ◌∷◌, ◌≡◌, ◌≢◌, ◌⊎◌, arith}
use infrafence_agent.Base.Time.{Time}
use infrafence_agent.Guard.State.{Guard, guard_csf_wait, wait_for_csf}

-- The checks of csf's lock while one process holds it, at the given times, the latest first.
pub held_by : Guard → ℕ → List Time → Guard
held_by g pid [] = g
held_by g pid (t ∷ ts) = (wait_for_csf (held_by g pid ts) t pid true).0

-- The wait for this holder has begun by `first`, or is over.
abbrev Since : ℕ → Time → Guard → Type 0
Since pid first g =
    (g.csf_pid ≡ pid) × (0 < g.csf_since) × ((g.csf_forced ≡ true) ⊎ (g.csf_since ≤ first))

step-Since :
    (g : Guard) (pid : ℕ) (first now : Time)
    → Since pid first g
    → Since pid first (wait_for_csf g now pid true).0
unfolding wait_for_csf
step-Since g pid first now s = ground arith

first-Since :
    (g : Guard) (pid : ℕ) (first : Time)
    → 0 < first
    → (g.csf_since ≤ first)
    → Since pid first (wait_for_csf g first pid true).0
unfolding wait_for_csf
first-Since g pid first p q = ground arith

held-Since :
    (g : Guard) (pid : ℕ) (first : Time) (ts : List Time)
    → Since pid first g
    → Since pid first (held_by g pid ts)
unfolding held_by
held-Since g pid first [] s = s
held-Since g pid first (t ∷ ts) s =
    step-Since (held_by g pid ts) pid first t (held-Since g pid first ts s)

not_waiting :
    (g : Guard) (pid : ℕ) (first now : Time)
    → Since pid first g
    → first + guard_csf_wait ≤ now
    → (wait_for_csf g now pid true).1 ≡ false
unfolding wait_for_csf
not_waiting g pid first now s h = ground arith

-- A process that holds csf's lock puts repairs off for two minutes at most: however often the lock is
-- looked at after the first time, from two minutes after it on the guard no longer waits.
pub csf_wait_bounded :
    (g : Guard) (pid : ℕ) (first now : Time) (ts : List Time)
    → 0 < first
    → g.csf_since ≤ first
    → first + guard_csf_wait ≤ now
    → (wait_for_csf (held_by (wait_for_csf g first pid true).0 pid ts) now pid true).1 ≡ false
csf_wait_bounded g pid first now ts p q h =
    not_waiting (held_by (wait_for_csf g first pid true).0 pid ts) pid first now
      (held-Since (wait_for_csf g first pid true).0 pid first ts (first-Since g pid first p q)) h

-- When another process takes the lock, or csf lets it go, the wait starts anew.
pub csf_wait_restarts :
    (g : Guard) (pid : ℕ) (now : Time)
    → pid ≢ g.csf_pid
    → 0 < now
    → ((wait_for_csf g now pid true).1 ≡ true)
      × ((wait_for_csf g now pid true).0.csf_since ≡ now)
      × ((wait_for_csf g now pid false).1 ≡ false)
unfolding wait_for_csf
csf_wait_restarts g pid now n p = ground arith
