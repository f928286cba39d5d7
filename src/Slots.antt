-- ===== src/Slots.antt =====
-- The `occupancy` of a slot in the hash tables of agents/linux: 0, 1 or 2.
pub data Occupancy : Type 0 where
  vacant taken tombstone : Occupancy
