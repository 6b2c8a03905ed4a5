-- ===== src/Tests/Peers.antt =====
-- The registry over the distributed hash table.
use task_discovery_service.Prelude.{
  ◌≡◌, some, List, [], ◌∷◌, Text, text_eq, ◌==◌, if◌then◌else◌, take,
}
use task_discovery_service.Text.{codes}
use task_discovery_service.Tests.Samples.{digest, gate}
use task_discovery_service.Tests.Rings.{three, three-IsBuilt}
use task_discovery_service.Dht.Closest.Selection.{by_distance}
use task_discovery_service.Dht.Network.Find.{find, find-first, first_found, own_answer, asked}

abbrev second_address : List Text
second_address = codes "wxyz:80" ∷ []

-- A network where c:3 alone knows an address.
abbrev answers : Text → List Text
answers peer = if peer == codes "c:3" then codes "wxyz:80" ∷ [] else []

find_first_example :
    find digest 3 4 answers gate 20 three
    ≡ some (
        first_found (
          own_answer digest 3 4 gate 20 three
          ∷ asked answers three (take 3 (by_distance digest gate three.ring))))
find_first_example = find-first digest 3 4 answers gate 20 three three-IsBuilt
