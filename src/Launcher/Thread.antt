-- ===== src/Launcher/Thread.antt =====
-- a1/src/thread_launcher.cc: the launcher and the threads that it creates.
use cmcs624_fall.Common.{ℕ, suc, ◌+◌, ◌-◌, ◌*◌, ◌/◌, ◌%◌, ◌^◌, ◌≤◌, ◌<◌, ◌≡◌, ◌↔◌, ap, arith, true}
use cmcs624_fall.Config.{ℤ, pos, negsuc}
use cmcs624_fall.Launcher.{Parent, idle, waits, collects, joins, all_executed}

-- A thread runs its request, puts its argument on `targ_list_`, gives back its place, and counts
-- its request: `running`, `linked` and `given` are the threads before each of the three.
-- `listed` is the length of `targ_list_`, and `joined` the number of threads joined and freed.
pub record Threads : Type 0 where
  pub parent : Parent
  pub num_requests : ℕ
  pub txns_executed : ℕ
  pub outstanding : ℕ
  pub running : ℕ
  pub linked : ℕ
  pub given : ℕ
  pub listed : ℕ
  pub joined : ℕ

-- The conversion of an `int` to `uint32_t`.
abbrev pub as_uint32 : ℤ → ℕ
as_uint32 (pos n) = n % 2 ^ 32
as_uint32 (negsuc n) = 2 ^ 32 - 1 - n % 2 ^ 32

unfoldable pub init : ℤ → Threads
init max_outstanding = record {
  parent = idle;
  num_requests = 0;
  txns_executed = 0;
  outstanding = as_uint32 max_outstanding;
  running = 0;
  linked = 0;
  given = 0;
  listed = 0;
  joined = 0;
}

abbrev pub create_thread : Threads → Threads
create_thread s = record s {
  parent = waits;
  num_requests = s.num_requests + 1;
  running = s.running + 1;
}

abbrev pub take_place : Threads → Threads
take_place s = record s { parent = collects; outstanding = s.outstanding - 1 }

-- The launcher takes the whole list, which it then goes through.
abbrev pub take_list : Threads → Threads
take_list s = record s { parent = joins s.listed; listed = 0 }

abbrev pub join_thread : Threads → ℕ → Threads
join_thread s n = record s { parent = joins n; joined = s.joined + 1 }

abbrev pub all_joined : Threads → Threads
all_joined s = record s { parent = idle }

abbrev pub link_arg : Threads → Threads
link_arg s = record s { running = s.running - 1; linked = s.linked + 1; listed = s.listed + 1 }

abbrev pub give_place : Threads → Threads
give_place s = record s {
  linked = s.linked - 1;
  given = s.given + 1;
  outstanding = (s.outstanding + 1) % 2 ^ 32;
}

abbrev pub count_done : Threads → Threads
count_done s = record s { given = s.given - 1; txns_executed = s.txns_executed + 1 }

pub data Step (s : Threads) : Threads → Type 0 where
  creates : s.parent ≡ idle → Step s (create_thread s)
  takes : s.parent ≡ waits → 0 < s.outstanding → Step s (take_place s)
  collect : s.parent ≡ collects → Step s (take_list s)
  join_one : (n : ℕ) → s.parent ≡ joins (suc n) → Step s (join_thread s n)
  join_end : s.parent ≡ joins 0 → Step s (all_joined s)
  links : 0 < s.running → Step s (link_arg s)
  gives : 0 < s.linked → Step s (give_place s)
  counts : 0 < s.given → Step s (count_done s)

pub data Reach (max : ℤ) : Threads → Type 0 where
  start : Reach max (init max)
  later : {s t : Threads} → Reach max s → Step s t → Reach max t

abbrev extra : Parent → ℕ
extra waits = 1
extra _ = 0

abbrev pub to_join : Parent → ℕ
to_join (joins n) = n
to_join _ = 0

-- `wraps` counts how often `++` has taken the counter from its largest value to 0.
record Inv (max : ℕ) (s : Threads) : Type 0 where
  pub wraps : ℕ
  pub places : s.outstanding + s.running + s.linked + wraps * 2 ^ 32 ≡ max + extra s.parent
  pub requests : s.txns_executed + s.running + s.linked + s.given ≡ s.num_requests
  pub arguments : s.running + s.listed + to_join s.parent + s.joined ≡ s.num_requests

Step-Inv : {max : ℕ} {s t : Threads} → Inv max s → Step s t → Inv max t
Step-Inv inv (creates e) = record {
  wraps = inv.wraps;
  places = omega (arith, inv.places, ap extra e);
  requests = omega (arith, inv.requests);
  arguments = omega (arith, inv.arguments, ap to_join e);
}
Step-Inv inv (takes e lt) = record {
  wraps = inv.wraps;
  places = omega (arith, inv.places, ap extra e);
  requests = inv.requests;
  arguments = omega (arith, inv.arguments, ap to_join e);
}
Step-Inv inv (collect e) = record {
  wraps = inv.wraps;
  places = omega (arith, inv.places, ap extra e);
  requests = inv.requests;
  arguments = omega (arith, inv.arguments, ap to_join e);
}
Step-Inv inv (join_one n e) = record {
  wraps = inv.wraps;
  places = omega (arith, inv.places, ap extra e);
  requests = inv.requests;
  arguments = omega (arith, inv.arguments, ap to_join e);
}
Step-Inv inv (join_end e) = record {
  wraps = inv.wraps;
  places = omega (arith, inv.places, ap extra e);
  requests = inv.requests;
  arguments = omega (arith, inv.arguments, ap to_join e);
}
Step-Inv inv (links lt) = record {
  wraps = inv.wraps;
  places = omega (arith, inv.places);
  requests = omega (arith, inv.requests);
  arguments = omega (arith, inv.arguments);
}
Step-Inv {s = s} inv (gives lt) = record {
  wraps = inv.wraps + (s.outstanding + 1) / 2 ^ 32;
  places = omega (arith, inv.places);
  requests = omega (arith, inv.requests);
  arguments = inv.arguments;
}
Step-Inv inv (counts lt) = record {
  wraps = inv.wraps;
  places = inv.places;
  requests = omega (arith, inv.requests);
  arguments = inv.arguments;
}

Reach-Inv : {max : ℤ} {s : Threads} → Reach max s → Inv (as_uint32 max) s
unfolding init
Reach-Inv start = record {
  wraps = 0;
  places = omega arith;
  requests = omega arith;
  arguments = omega arith;
}
Reach-Inv (later r st) = Step-Inv (Reach-Inv r) st

extra_le : (p : Parent) → extra p ≤ 1
extra_le idle = omega arith
extra_le waits = omega arith
extra_le collects = omega arith
extra_le (joins n) = omega arith

-- However the launcher and its threads interleave: at most one more than the maximum, which the program
-- converts to `uint32_t`, have not given back their place; the threads before their request's end, those on the list, those that
-- the launcher is about to join and those that it joined are as many as the requests; and the test of
-- `WaitOutstanding` holds exactly when every thread has counted its request.
pub threads-accounted :
    {max : ℤ} {s : Threads}
    → Reach max s
    → (s.running + s.linked ≤ as_uint32 max + 1)
      × (s.running + s.listed + to_join s.parent + s.joined ≡ s.num_requests)
      × ((all_executed s.txns_executed s.num_requests ≡ true)
          ↔ (s.running + s.linked + s.given ≡ 0))
threads-accounted {max} {s} reached =
    let inv = Reach-Inv reached in
    (
      omega (arith, inv.places, extra_le s.parent),
      inv.arguments,
      (λ h. ground (arith, inv.requests), λ h. ground (arith, inv.requests)),
    )
