-- ===== src/Registry/StoreBacked/Firewalled.antt =====
-- No answer of the store-backed registry goes round the firewall.
use task_discovery_service.Prelude.{
  ℕ, ◌≡◌, ◌⊎◌, refl, ◌∙◌, subst, Bool, true, false, Option, none, some, List, [], ◌∷◌, map, Text,
  ◌==◌, text_eq, if◌then◌else◌, arith, keep_if, All, inl, inr,
}
use task_discovery_service.Prelude.Result.{Result, ok, err}
use task_discovery_service.Ip.{Ip, Net}
use task_discovery_service.Firewall.{Firewall, is_allowed, host_part}
use task_discovery_service.Registry.{
  ServiceEntry, RegistryError, not_found, invalid_task_name, other,
}
use task_discovery_service.Registry.Weights.{select_from, select_weighted_address, service_weight}
use task_discovery_service.Text.{trim_space}
use task_discovery_service.Word.{add64, lt64}
use task_discovery_service.Registry.Destination.{destination_ip_from_address}
use task_discovery_service.Registry.Memory.{
  MemoryRegistry, is_reachable, store_entry, choose_entry, after_choice, choose_allowed,
  count_query, query_entries, get_service_for_requestor,
}
use task_discovery_service.Registry.Memory.Queries.{some_eq, Permits, get_service-permitted}
use task_discovery_service.Registry.StoreBacked.{
  Store, StoreBackedRegistry, populate_entries, populate_cache_entry,
}
use task_discovery_service.Registry.StoreBacked.Query.{
  query_store_backed, past_cache, through_cache, on_miss, after_cache, is_stored_reachable,
  stored_candidates, candidate, counted, selected, select_from_store_entries,
  should_admit_task_on_miss,
}

choice :
    (P : Text → Type 0) (b : Bool) (a : Text) (rest : Option Text) (addr : Text)
    → (if b then some a else rest) ≡ some addr
    → P a
    → (rest ≡ some addr → P addr)
    → P addr
choice P true a rest addr h here later = subst P (some_eq h) here
choice P false a rest addr h here later = later h

module _ (net : Net) where
  -- The destination of the address, by either of the two readings of it, is allowed; without a
  -- firewall or a requestor nothing is asked.
  abbrev pub Reaches : Option Firewall → Ip → Text → Type 0
  Reaches none requestor addr = Unit
  Reaches (some fw) [] addr = Unit
  Reaches (some fw) (b ∷ bs) addr =
      (dest : Ip) × ((destination_ip_from_address net addr ≡ some dest)
        ⊎ (net.parse_ip (host_part addr) ≡ some dest))
      × (is_allowed fw (b ∷ bs) dest ≡ true)

  reached :
      (fw : Firewall) (requestor : Ip) (o : Option Ip)
      → elim o as (λ _. Bool) [ none ↦ false | some dest ↦ is_allowed fw requestor dest ] ≡ true
      → (dest : Ip) × (o ≡ some dest) × (is_allowed fw requestor dest ≡ true)
  reached fw requestor none h = cc
  reached fw requestor (some dest) h = (dest, refl, h)

  Permits-Reaches :
      (fw : Option Firewall) (requestor : Ip) (e : ServiceEntry)
      → Permits net fw requestor e
      → Reaches fw requestor e.address
  unfolding is_reachable
  Permits-Reaches none requestor e p = tt
  Permits-Reaches (some fw) [] e p = tt
  Permits-Reaches (some fw) (b ∷ bs) e p =
      let (dest, at, may) = reached fw (b ∷ bs) _ p in (dest, inl at, may)

  either :
      (b : Bool) (x y : Result RegistryError Text × MemoryRegistry) (fw : Option Firewall)
      → x.1.firewall ≡ fw
      → y.1.firewall ≡ fw
      → (if b then x else y).1.firewall ≡ fw
  either true x y fw h k = h
  either false x y fw h k = k

  after_choice-firewall :
      (task : Text) (m : MemoryRegistry) (o : Option Text)
      → (after_choice net task m o).1.firewall ≡ m.firewall
  unfolding count_query
  after_choice-firewall task m none = refl
  after_choice-firewall task m (some addr) = refl

  choose_entry-firewall :
      (task : Text) (es : List ServiceEntry) (m : MemoryRegistry)
      → (choose_entry net task es m).1.firewall ≡ m.firewall
  unfolding choose_entry count_query
  choose_entry-firewall task es m = either _ _ _ _ refl (after_choice-firewall task _ _)

  choose_allowed-firewall :
      (task : Text) (m : MemoryRegistry) (o : Option (List ServiceEntry))
      → (choose_allowed net task m o).1.firewall ≡ m.firewall
  choose_allowed-firewall task m none = refl
  choose_allowed-firewall task m (some es) = choose_entry-firewall task es m

  query_entries-firewall :
      (task : Text) (requestor : Ip) (es : List ServiceEntry) (m : MemoryRegistry)
      → (query_entries net task requestor es m).1.firewall ≡ m.firewall
  unfolding query_entries
  query_entries-firewall task requestor [] m = refl
  query_entries-firewall task requestor (e ∷ es) m = choose_allowed-firewall task m _

  query-firewall :
      (task : Text) (requestor : Ip) (m : MemoryRegistry)
      → (get_service_for_requestor net task requestor m).1.firewall ≡ m.firewall
  unfolding get_service_for_requestor
  query-firewall task requestor m = either _ _ _ _ refl (query_entries-firewall _ requestor _ m)

  store_entry-firewall :
      (task : Text) (new : ServiceEntry) (f : ServiceEntry → ServiceEntry) (m : MemoryRegistry)
      → (store_entry task new f m).firewall ≡ m.firewall
  unfolding store_entry
  store_entry-firewall task new f m = ground arith

  populate-firewall :
      (task : Text) (es : List ServiceEntry) (m : MemoryRegistry)
      → (populate_entries task es m).firewall ≡ m.firewall
  unfolding populate_entries populate_cache_entry
  populate-firewall task [] m = refl
  populate-firewall task (e ∷ es) m =
      populate-firewall task es (populate_cache_entry task e m) ∙ store_entry-firewall task _ _ m

  cache-Reaches :
      (task addr : Text) (requestor : Ip) (m : MemoryRegistry)
      → (get_service_for_requestor net task requestor m).0 ≡ ok addr
      → Reaches m.firewall requestor addr
  cache-Reaches task addr requestor m h =
      let (e, at, same, permitted) = get_service-permitted net task addr requestor m h in
      subst (Reaches m.firewall requestor) same (Permits-Reaches m.firewall requestor e permitted)

  free :
      (f : ServiceEntry → ServiceEntry) (es : List ServiceEntry) → All {0, 0} (λ e. Unit) (map f es)
  free f [] = tt
  free f (e ∷ es) = (tt, free f es)

  stored-Reaches :
      (fw : Firewall) (requestor : Ip) (e : ServiceEntry)
      → is_stored_reachable net fw requestor e ≡ true
      → Reaches (some fw) requestor e.address
  unfolding is_stored_reachable
  stored-Reaches fw [] e h = tt
  stored-Reaches fw (b ∷ bs) e h =
      let (dest, at, may) = reached fw (b ∷ bs) _ h in (dest, inr at, may)

  kept :
      (fw : Firewall) (requestor : Ip) (e : ServiceEntry) (es : List ServiceEntry) (c : Bool)
      → is_stored_reachable net fw requestor e ≡ c
      → All (λ e. Reaches (some fw) requestor e.address) (map candidate es)
      → All (λ e. Reaches (some fw) requestor e.address) (map candidate (if c then e ∷ es else es))
  kept fw requestor e es true h a = (stored-Reaches fw requestor e h, a)
  kept fw requestor e es false h a = a

  -- Every candidate that is chosen from is reachable.
  candidates-Reaches :
      (fw : Option Firewall) (requestor : Ip) (es : List ServiceEntry)
      → All (λ e. Reaches fw requestor e.address) (stored_candidates net fw requestor es)
  candidates-Reaches none requestor es = free candidate es
  candidates-Reaches (some fw) [] es = free candidate es
  candidates-Reaches (some fw) (b ∷ bs) [] = tt
  candidates-Reaches (some fw) (b ∷ bs) (e ∷ es) =
      kept fw (b ∷ bs) e (keep_if (is_stored_reachable net fw (b ∷ bs)) es) _ refl
        (candidates-Reaches (some fw) (b ∷ bs) es)

  module _ {S : Type 0} (db : Store S) where
    chosen :
        (P : Text → Type 0) (running slot : ℕ) (es : List ServiceEntry) (addr : Text)
        → All (λ e. P e.address) es
        → select_from running es slot ≡ some addr
        → P addr
    chosen P running slot [] addr a h = cc
    chosen P running slot (e ∷ es) addr a h =
        let running' = add64 running (service_weight e) in
        choice P (lt64 slot running') e.address _ addr h a.0 (chosen P running' slot es addr a.1)

    unrefused :
        (b : Bool) (r r' : StoreBackedRegistry S) (addr : Text) (o : Option Text)
        → (if b then (err not_found, r) else selected net db r' o).0 ≡ ok addr
        → o ≡ some addr
    unrefused true r r' addr o h = cc
    unrefused false r r' addr none h = cc
    unrefused false r r' addr (some a) h = cc

    written :
        (a addr : Text) (failed : Option Text) (r : StoreBackedRegistry S)
        → (elim failed as (λ _. Result RegistryError Text × StoreBackedRegistry S) [
          | none ↦ (ok a, r)
          | some e ↦ (err (other e), r)
        ]).0
          ≡ ok addr
        → ◌≡◌ {A = Result RegistryError Text} (ok a) (ok addr)
    written a addr none r h = h
    written a addr (some e) r h = cc

    branches :
        {Q : Type 0} (b : Bool) (x y : Result RegistryError Text × StoreBackedRegistry S)
        (addr : Text)
        → (if b then x else y).0 ≡ ok addr
        → (x.0 ≡ ok addr → Q)
        → (y.0 ≡ ok addr → Q)
        → Q
    branches true x y addr h f g = f h
    branches false x y addr h f g = g h

    select-Reaches :
        (P : Text → Type 0) (task addr : Text) (denied : RegistryError) (es : List ServiceEntry)
        (r : StoreBackedRegistry S)
        → All (λ e. P e.address) es
        → (select_from_store_entries net db task denied es r).0 ≡ ok addr
        → P addr
    unfolding select_from_store_entries select_weighted_address
    select-Reaches P task addr denied [] r a h = cc
    select-Reaches P task addr denied (e ∷ es) r a h =
        chosen P 0 _ (e ∷ es) addr a (unrefused _ _ _ addr _ h)

    counted-ok :
        (task addr : Text) (found : Result RegistryError Text) (r : StoreBackedRegistry S)
        → (counted net db task (found, r)).0 ≡ ok addr
        → found ≡ ok addr
    counted-ok task addr (err e) r h = cc
    counted-ok task addr (ok a) r h = written a addr _ _ h

    past_cache-Reaches :
        (task addr : Text) (requestor : Ip) (es : List ServiceEntry) (r : StoreBackedRegistry S)
        → (past_cache net db task requestor es r).0 ≡ ok addr
        → Reaches r.mem_cache.firewall requestor addr
    past_cache-Reaches task addr requestor es r h =
        let fw = r.mem_cache.firewall in
        select-Reaches (Reaches fw requestor) task addr _ _ r (candidates-Reaches fw requestor es)
          (counted-ok task addr _ _ h)

    through_cache-Reaches :
        (task addr : Text) (requestor : Ip) (es : List ServiceEntry) (r : StoreBackedRegistry S)
        → (through_cache net db task requestor es r).0 ≡ ok addr
        → Reaches r.mem_cache.firewall requestor addr
    through_cache-Reaches task addr requestor es r h =
        subst (λ fw. Reaches fw requestor addr) (populate-firewall task es r.mem_cache)
          (cache-Reaches task addr requestor _ h)

    admit-firewall :
        (task : Text) (r : StoreBackedRegistry S)
        → (should_admit_task_on_miss net db task r).1.mem_cache ≡ r.mem_cache
    unfolding should_admit_task_on_miss
    admit-firewall task r = ground arith

    on_miss-Reaches :
        (task addr : Text) (requestor : Ip) (found : Result Text (List ServiceEntry))
        (r : StoreBackedRegistry S)
        → (on_miss net db task requestor found r).0 ≡ ok addr
        → Reaches r.mem_cache.firewall requestor addr
    on_miss-Reaches task addr requestor (err e) r h = cc
    on_miss-Reaches task addr requestor (ok []) r h = cc
    on_miss-Reaches task addr requestor (ok (e ∷ es)) r h =
        let (admit, r') = should_admit_task_on_miss net db task r in
        subst (λ m. Reaches m.firewall requestor addr) (admit-firewall task r)
          (branches admit _ _ addr h (through_cache-Reaches task addr requestor (e ∷ es) r')
            (past_cache-Reaches task addr requestor (e ∷ es) r'))

    after_cache-Reaches :
        (task addr : Text) (requestor : Ip) (fw : Option Firewall)
        (found : Result RegistryError Text) (r : StoreBackedRegistry S)
        → (found ≡ ok addr → Reaches fw requestor addr)
        → r.mem_cache.firewall ≡ fw
        → (after_cache net db task requestor (found, r)).0 ≡ ok addr
        → Reaches fw requestor addr
    after_cache-Reaches task addr requestor fw (ok a) r cached same h = cached h
    after_cache-Reaches task addr requestor fw (err e) r cached same h =
        subst (λ fw. Reaches fw requestor addr) same (on_miss-Reaches task addr requestor _ r h)

    -- An address that a query returns, from the cache, through it or past it, is one that the
    -- firewall lets the requestor reach, by one of the two readings of an address, if a firewall is
    -- set and the requestor known.
    pub query_store_backed-Reaches :
        (task addr : Text) (requestor : Ip) (r : StoreBackedRegistry S)
        → (query_store_backed net db task requestor r).0 ≡ ok addr
        → Reaches r.mem_cache.firewall requestor addr
    unfolding query_store_backed
    query_store_backed-Reaches task addr requestor r h =
        branches (trim_space task == []) (err invalid_task_name, r) _ addr h (λ e. cc)
          (after_cache-Reaches (trim_space task) addr requestor r.mem_cache.firewall _ _
            (cache-Reaches (trim_space task) addr requestor r.mem_cache)
            (query-firewall (trim_space task) requestor r.mem_cache))
