-- ===== src/Launcher/Process.antt =====
-- a1/src/process_launcher.cc: the launcher and its child processes.
use cmcs624_fall.Common.{ℕ, zero, suc, ◌+◌, ◌-◌, ◌≤◌, ◌<◌, ◌≡◌, ◌↔◌, refl, ap, arith, true}
use cmcs624_fall.Launcher.{Parent, idle, waits, collects, joins, int_max, all_executed}

-- `running` children have not yet counted their request, and `counted` ones have, but have not yet
-- given back their place. `outstanding` is `*max_outstanding_`.
pub record Processes : Type 0 where
  pub parent : Parent
  pub num_requests : ℕ
  pub txns_executed : ℕ
  pub outstanding : ℕ
  pub running : ℕ
  pub counted : ℕ

-- The constructor, behind its assertion.
unfoldable pub init : ℕ → Processes
init max = record {
  parent = idle;
  num_requests = 0;
  txns_executed = 0;
  outstanding = max;
  running = 0;
  counted = 0;
}

-- What the launcher does in `ExecuteRequest` before it waits, and in what follows the wait.
abbrev pub fork_child : Processes → Processes
fork_child s = record s {
  parent = waits;
  num_requests = s.num_requests + 1;
  running = s.running + 1;
}

abbrev pub take_place : Processes → Processes
take_place s = record s { parent = idle; outstanding = s.outstanding - 1 }

-- What a child does after `Execute`: it counts the request, then it gives back its place.
abbrev pub count_done : Processes → Processes
count_done s = record s {
  running = s.running - 1;
  counted = s.counted + 1;
  txns_executed = s.txns_executed + 1;
}

abbrev pub give_place : Processes → Processes
give_place s = record s { counted = s.counted - 1; outstanding = s.outstanding + 1 }

pub data Step (s : Processes) : Processes → Type 0 where
  forks : s.parent ≡ idle → Step s (fork_child s)
  takes : s.parent ≡ waits → 0 < s.outstanding → Step s (take_place s)
  counts : 0 < s.running → Step s (count_done s)
  gives : 0 < s.counted → Step s (give_place s)

pub data Reach (max : ℕ) : Processes → Type 0 where
  start : Reach max (init max)
  later : {s t : Processes} → Reach max s → Step s t → Reach max t

abbrev extra : Parent → ℕ
extra waits = 1
extra _ = 0

record Inv (max : ℕ) (s : Processes) : Type 0 where
  pub places : s.outstanding + s.running + s.counted ≡ max + extra s.parent
  pub requests : s.txns_executed + s.running ≡ s.num_requests

Step-Inv : {max : ℕ} {s t : Processes} → Inv max s → Step s t → Inv max t
Step-Inv inv (forks e) = record {
  places = omega (arith, inv.places, ap extra e);
  requests = omega (arith, inv.requests);
}
Step-Inv inv (takes e lt) = record {
  places = omega (arith, inv.places, ap extra e);
  requests = inv.requests;
}
Step-Inv inv (counts lt) = record {
  places = omega (arith, inv.places);
  requests = omega (arith, inv.requests);
}
Step-Inv inv (gives lt) = record { places = omega (arith, inv.places); requests = inv.requests }

Reach-Inv : {max : ℕ} {s : Processes} → Reach max s → Inv max s
unfolding init
Reach-Inv start = record { places = omega arith; requests = omega arith }
Reach-Inv (later r st) = Step-Inv (Reach-Inv r) st

extra_le : (p : Parent) → extra p ≤ 1
extra_le idle = omega arith
extra_le waits = omega arith
extra_le collects = omega arith
extra_le (joins n) = omega arith

-- However the launcher and its children interleave: at most one child more than the maximum is
-- there, and none more than the maximum outside `ExecuteRequest`; the counter of places stays an
-- `int` by the constructor's assertion; and the test of `WaitOutstanding` holds exactly when no
-- child still has a request to run.
pub outstanding-bounded :
    {max : ℕ} {s : Processes}
    → max < int_max
    → Reach max s
    → (s.running + s.counted ≤ max + 1)
      × (s.parent ≡ idle → s.running + s.counted ≤ max)
      × (s.outstanding ≤ int_max)
      × ((all_executed s.txns_executed s.num_requests ≡ true) ↔ (s.running ≡ 0))
outstanding-bounded {max} {s} lt reached =
    let inv = Reach-Inv reached in
    (
      omega (arith, inv.places, extra_le s.parent),
      λ e. omega (arith, inv.places, ap extra e),
      omega (arith, inv.places, extra_le s.parent),
      (λ h. ground (arith, inv.requests), λ h. ground (arith, inv.requests)),
    )

fill :
    (max n : ℕ)
    → n ≤ max
    → (s : Processes) × Reach max s
      × (s.parent ≡ idle)
      × (s.running ≡ n)
      × (s.outstanding + n ≡ max)
unfolding init
fill max zero le = (_, start, refl, refl, omega arith)
fill max (suc n) le =
    let (s, r, e, run, left) = fill max n (omega arith) in
    (
      _,
      later (later r (forks e)) (takes refl (omega arith)),
      refl,
      omega (arith, run),
      omega (arith, left),
    )

-- The maximum is exceeded by one: for every maximum there is a run in which one child more than the
-- maximum runs at once, as the launcher forks before it waits.
pub overshoot : (max : ℕ) → (s : Processes) × Reach max s × (s.running ≡ max + 1)
overshoot max =
    let (s, r, e, run, left) = fill max max (omega arith) in
    (_, later r (forks e), omega (arith, run))
