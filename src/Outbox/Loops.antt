-- ===== src/Outbox/Loops.antt =====
-- reconcileLoops and reapExitedLoops of outbox.go: which topics have a maintenance loop.
pub mod Reconciled
use pgoutbox.Prelude.{
  ℕ, String, Bool, true, false, not, Option, none, some, List, [], ◌∷◌, ◌++◌, map, elem, ◌==◌,
  text_test, if◌then◌else◌,
}
use pgoutbox.Sql.{select, query_row}

-- managedTopic, with the arguments of its runMaintenanceLoop and whether `done` is closed.
pub record ManagedTopic : Type 0 where
  pub topic : String
  pub ttl : ℕ
  pub cancelled : Bool
  pub dormant : Bool
  pub exited : Bool

-- The ttls of the candidate topics.
abbrev pub Ttls : Type 0
Ttls = List (String × ℕ)

unfoldable pub find_ttl : String → Ttls → Option ℕ
find_ttl topic [] = none
find_ttl topic ((t, ttl) ∷ ttls) = if t == topic then some ttl else find_ttl topic ttls

-- The first loop of reconcileLoops, for one running loop.
unfoldable pub mark : Ttls → List String → ManagedTopic → ManagedTopic
mark ttls held mt = elim (find_ttl mt.topic ttls) [
  | none ↦ record mt { dormant = true; cancelled = true }
  | some ttl ↦ if elem mt.topic held then mt else record mt { cancelled = true }
]

-- `ttls[topic]`, zero for a missing key.
abbrev ttl_or_zero : Option ℕ → ℕ
ttl_or_zero none = 0
ttl_or_zero (some ttl) = ttl

abbrev pub new_loop : Ttls → String → ManagedTopic
new_loop ttls topic = record {
  topic = topic;
  ttl = ttl_or_zero (find_ttl topic ttls);
  cancelled = false;
  dormant = false;
  exited = false;
}

abbrev pub find_loop : String → List ManagedTopic → Option ManagedTopic
find_loop topic = query_row (λ mt. mt.topic == topic)

unfoldable pub start_loop : Ttls → String → List ManagedTopic → List ManagedTopic
start_loop ttls topic managed = elim (find_loop topic managed) [
  | none ↦ managed ++ new_loop ttls topic ∷ []
  | some _ ↦ managed
]

-- The second loop of reconcileLoops.
unfoldable pub start_loops : Ttls → List String → List ManagedTopic → List ManagedTopic
unfolding start_loop
start_loops ttls [] managed = managed
start_loops ttls (topic ∷ held) managed = start_loops ttls held (start_loop ttls topic managed)

-- reconcileLoops
unfoldable pub reconcile_loops : Ttls → List String → List ManagedTopic → List ManagedTopic
unfolding mark start_loops
reconcile_loops ttls held managed = start_loops ttls held (map (mark ttls held) managed)

-- reapExitedLoops
unfoldable pub reap_exited_loops : List ManagedTopic → List ManagedTopic
reap_exited_loops = select (λ mt. not mt.exited)
