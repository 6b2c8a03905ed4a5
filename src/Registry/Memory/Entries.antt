-- ===== src/Registry/Memory/Entries.antt =====
-- What a registration changes: the entry of its task and address, and no other.
use task_discovery_service.Prelude.{
  ℕ, ◌≡◌, ◌≢◌, refl, ◌&&◌, Option, none, some, List, [], ◌∷◌, ◌++◌, Text, ◌==◌, text_eq,
  text_beq_iff, if◌then◌else◌, arith, beq_false,
}
use task_discovery_service.Assoc.{lookup, insert, lookup-insert}
use task_discovery_service.Text.{trim_space}
use task_discovery_service.Word.{nonpos}
use task_discovery_service.Registry.{ServiceEntry}
use task_discovery_service.Registry.Memory.{
  MemoryRegistry, or_nil, update_entry, store_entry, new_entry, register, register_with_capacity,
}

abbrev pub find_entry : Text → List ServiceEntry → Option ServiceEntry
find_entry addr [] = none
find_entry addr (e ∷ es) = if e.address == addr then some e else find_entry addr es

-- The entry of a task and an address.
abbrev pub entry_of : Text → Text → MemoryRegistry → Option ServiceEntry
entry_of task addr m = find_entry addr (or_nil (lookup task m.services))

abbrev pub update_or :
    ServiceEntry → (ServiceEntry → ServiceEntry) → Option ServiceEntry → ServiceEntry
update_or new f none = new
update_or new f (some e) = f e

abbrev pub KeepsAddress : (ServiceEntry → ServiceEntry) → Type 0
KeepsAddress f = (e : ServiceEntry) → (f e).address ≡ e.address

abbrev stored : ServiceEntry → List ServiceEntry → Option (List ServiceEntry) → List ServiceEntry
stored new es none = es ++ (new ∷ [])
stored new es (some es') = es'

find-stored :
    (new : ServiceEntry) (f : ServiceEntry → ServiceEntry) (a : Text) (es : List ServiceEntry)
    → KeepsAddress f
    → find_entry a (stored new es (update_entry new.address f es))
      ≡ (if new.address == a then some (update_or new f (find_entry a es)) else find_entry a es)
unfolding update_entry
find-stored new f a [] k = ground arith
find-stored new f a (e ∷ es) k = ground (
  arith,
  k e,
  find-stored new f a es k,
  text_beq_iff e.address new.address,
  text_beq_iff e.address a,
  text_beq_iff new.address a,
)

services-store_entry :
    (task : Text) (new : ServiceEntry) (f : ServiceEntry → ServiceEntry) (m : MemoryRegistry)
    → (store_entry task new f m).services
      ≡ insert task
          (stored new
            (or_nil (lookup task m.services))
            (update_entry new.address f (or_nil (lookup task m.services))))
          m.services
unfolding store_entry
services-store_entry task new f m = ground arith

entry_of-store_entry :
    (task : Text) (new : ServiceEntry) (f : ServiceEntry → ServiceEntry) (t a : Text)
    (m : MemoryRegistry)
    → KeepsAddress f
    → entry_of t a (store_entry task new f m) ≡ (
        if task == t && new.address == a
        then some (update_or new f (entry_of t a m))
        else entry_of t a m)
entry_of-store_entry task new f t a m k =
    rw (services-store_entry task new f m, lookup-insert)
      (ground (arith, text_beq_iff task t, find-stored new f a (or_nil (lookup task m.services)) k))

-- A registration of a task and an address, both with more than spaces, adds an entry of capacity 1
-- or gives the entry that is there the present time, with its capacity kept; every other entry
-- stays.
pub entry_of-register :
    (task addr t a : Text) (now : ℕ) (m : MemoryRegistry)
    → trim_space task ≢ []
    → trim_space addr ≢ []
    → entry_of t a (register task addr now m) ≡ (
        if trim_space task == t && trim_space addr == a
        then some (
            update_or
              (new_entry (trim_space addr) now 1)
              (λ e. record e { last_heartbeat = now })
              (entry_of t a m))
        else entry_of t a m)
unfolding register
entry_of-register task addr t a now m h k =
    rw (beq_false _ _ h, beq_false _ _ k)
      (entry_of-store_entry (trim_space task) (new_entry (trim_space addr) now 1) _ t a m
        (λ e. refl))

-- A registration with a capacity of a task and an address, both with more than spaces, adds an
-- entry or gives the entry that is there the present time, in either case with that capacity, or
-- 1 if it is not positive; every other entry stays.
pub entry_of-register_with_capacity :
    (task addr t a : Text) (capacity now : ℕ) (m : MemoryRegistry)
    → trim_space task ≢ []
    → trim_space addr ≢ []
    → let c : ℕ = if nonpos capacity then 1 else capacity in
      entry_of t a (register_with_capacity task addr capacity now m) ≡ (
        if trim_space task == t && trim_space addr == a
        then some (
            update_or
              (new_entry (trim_space addr) now c)
              (λ e. record e { last_heartbeat = now; capacity = c })
              (entry_of t a m))
        else entry_of t a m)
unfolding register_with_capacity
entry_of-register_with_capacity task addr t a capacity now m h k =
    rw (beq_false _ _ h, beq_false _ _ k)
      (entry_of-store_entry (trim_space task) (new_entry (trim_space addr) now _) _ t a m
        (λ e. refl))
