-- ===== src/Comms/NodeServer/Tests.antt =====
-- A server that is to have one connection at a time accepts two, and then waits for a slot.
use robocrisp.Base.{◌+◌, ◌<◌, ◌≤◌, ◌≡◌, ◌⊎◌, refl, true, false, [], ◌∷◌, length, size_mod, arith}
use robocrisp.Comms.NodeServer.{
  Server, waiting, new, main, accept, limits, advances, accepts, Reach, stays, goes,
}
use robocrisp.Comms.NodeServer.Laws.{is_ended, Reach-bounds}

abbrev crowded : Server
crowded = record {
  nodes = 1 ∷ 0 ∷ [];
  next_node = 2;
  max_simultaneous_connections = 1;
  max_cumulative_connections = 5;
  num_cumulative_connections = 2;
  halting = false;
  stopped = false;
  position = waiting;
}

crowded-Reach : Reach (new 1 5) crowded
unfolding main accept
crowded-Reach =
    goes
      (goes
        (goes (goes (goes (goes (goes stays (limits 1 refl)) advances) advances) (accepts refl))
          advances)
        (accepts refl))
      advances

Reach-bounds_example :
    ((crowded.max_simultaneous_connections ≡ 0) ⊎ (length crowded.nodes ≤ 1 + 1))
    × (length crowded.nodes ≤ 2)
    × ((crowded.max_cumulative_connections ≡ 0) ⊎ (2 ≤ 5))
    × (2 < size_mod)
    × ((is_ended waiting ≡ false) ⊎ ((length crowded.nodes ≡ 0) × (crowded.stopped ≡ true)))
Reach-bounds_example = Reach-bounds 1 5 crowded (omega arith) crowded-Reach
