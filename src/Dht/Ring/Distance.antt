-- ===== src/Dht/Ring/Distance.antt =====
-- The clockwise distance is a way round the ring of 2 ^ 256 places.
use task_discovery_service.Prelude.{◌+◌, ◌%◌, ◌<◌, ◌≡◌, ◌↔◌, if◌then◌else◌, ltb, arith}
use task_discovery_service.Dht.{NodeId, id_space}
use task_discovery_service.Dht.Ring.{distance}

-- The distance from a to b, both of 256 bits, is the only number below 2 ^ 256 that, added to a
-- modulo 2 ^ 256, gives b.
distance_arrives :
    (a b n : NodeId)
    → a < id_space
    → b < id_space
    → (n ≡ distance a b) ↔ ((n < id_space) × ((a + n) % id_space ≡ b))
unfolding distance
distance_arrives a b n h k = (λ e. ground arith, λ e. ground arith)

pub distance-lt : (a b : NodeId) → a < id_space → b < id_space → distance a b < id_space
unfolding distance
distance-lt a b h k = ground arith

-- Two identifiers at one distance are one.
pub distance-injective :
    (a b c : NodeId)
    → a < id_space
    → b < id_space
    → c < id_space
    → distance a b ≡ distance a c
    → b ≡ c
unfolding distance
distance-injective a b c h k l e = ground arith

-- The two ways between two identifiers make up the whole ring, or nothing if they are one.
distance_around :
    (a b : NodeId)
    → a < id_space
    → b < id_space
    → distance a b + distance b a ≡ (if ltb a b then id_space else if ltb b a then id_space else 0)
unfolding distance
distance_around a b h k = ground arith
