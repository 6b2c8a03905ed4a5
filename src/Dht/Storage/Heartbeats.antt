-- ===== src/Dht/Storage/Heartbeats.antt =====
-- What StoreTask changes, and that what is stored is found while its heartbeat is recent.
use task_discovery_service.Prelude.{
  ℕ, ◌-◌, ◌<◌, ◌≡◌, true, ◌&&◌, Option, none, some, List, [], ◌∷◌, ◌++◌, Text, ◌==◌, text_eq,
  text_beq, text_beq_iff, if◌then◌else◌, arith, any, beq_refl, ◌∙◌,
}
use task_discovery_service.Assoc.{lookup, insert, lookup-insert}
use task_discovery_service.Dht.{Dht, ServiceRegistration}
use task_discovery_service.Dht.Storage.{or_nil, refresh, store_task, active_addresses}

abbrev pub find_heartbeat : Text → List ServiceRegistration → Option ℕ
find_heartbeat addr [] = none
find_heartbeat addr (e ∷ es) =
    if e.address == addr then some e.last_heartbeat else find_heartbeat addr es

-- The last heartbeat of an address for a task.
abbrev pub heartbeat_of : Text → Text → Dht → Option ℕ
heartbeat_of task addr d = find_heartbeat addr (or_nil (lookup task d.storage))

abbrev refreshed :
    Text
    → ℕ
    → List ServiceRegistration
    → Option (List ServiceRegistration)
    → List ServiceRegistration
refreshed addr now es none = es ++ (record { address = addr; last_heartbeat = now } ∷ [])
refreshed addr now es (some es') = es'

find-refreshed :
    (addr a : Text) (now : ℕ) (es : List ServiceRegistration)
    → find_heartbeat a (refreshed addr now es (refresh addr now es))
      ≡ (if addr == a then some now else find_heartbeat a es)
unfolding refresh
find-refreshed addr a now [] = ground arith
find-refreshed addr a now (e ∷ es) = ground (
  arith,
  find-refreshed addr a now es,
  text_beq_iff e.address addr,
  text_beq_iff e.address a,
  text_beq_iff addr a,
)

storage-store_task :
    (task addr : Text) (now : ℕ) (d : Dht)
    → (store_task task addr now d).storage
      ≡ insert task
          (refreshed addr now
            (or_nil (lookup task d.storage))
            (refresh addr now (or_nil (lookup task d.storage))))
          d.storage
unfolding store_task
storage-store_task task addr now d = ground arith

-- Storing gives the address of the task the present time, whether it was there or not, and leaves
-- the heartbeat of every other task and address.
pub heartbeat_of-store_task :
    (task addr t a : Text) (now : ℕ) (d : Dht)
    → heartbeat_of t a (store_task task addr now d)
      ≡ (if task == t && addr == a then some now else heartbeat_of t a d)
heartbeat_of-store_task task addr t a now d =
    rw (storage-store_task task addr now d, lookup-insert)
      (ground
        (arith, text_beq_iff task t, find-refreshed addr a now (or_nil (lookup task d.storage))))

active-find :
    (a : Text) (es : List ServiceRegistration) (now timeout h : ℕ)
    → find_heartbeat a es ≡ some h
    → now - h < timeout
    → any (λ b. text_beq b a) (active_addresses es now timeout) ≡ true
unfolding active_addresses
active-find a [] now timeout h e lt = cc
active-find a (x ∷ es) now timeout h e lt =
    ground (arith, text_beq_iff x.address a, active-find a es now timeout h)

-- An address that was stored for a task is among those found for it while less than the timeout
-- has passed.
pub store_task-active :
    (task addr : Text) (stored now timeout : ℕ) (d : Dht)
    → now - stored < timeout
    → any
        (λ b. text_beq b addr)
        (active_addresses
          (or_nil (lookup task (store_task task addr stored d).storage))
          now
          timeout)
      ≡ true
store_task-active task addr stored now timeout d lt =
    active-find addr _ now timeout stored
      (heartbeat_of-store_task task addr task addr stored d
        ∙ ground (arith, beq_refl task, beq_refl addr))
      lt
