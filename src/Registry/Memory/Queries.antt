-- ===== src/Registry/Memory/Queries.antt =====
-- What a query answers: only entries that are registered and that the firewall lets the requestor
-- reach.
use mathlib.Core.List.{Memᴰ}
use mathlib.Core.List.Memᴰ.{head, tail, cases_cons}
use task_discovery_service.Prelude.{
  ℕ, ◌≡◌, refl, sym, ap, subst, ◌∙◌, Bool, true, false, Option, none, some, List, [], ◌∷◌, Text,
  ◌==◌, text_eq, if◌then◌else◌, keep_if, inl, inr,
}
use task_discovery_service.Prelude.Result.{Result, ok, err}
use task_discovery_service.Assoc.{lookup}
use task_discovery_service.Text.{trim_space}
use task_discovery_service.Word.{add64, lt64}
use task_discovery_service.Ip.{Ip, Net}
use task_discovery_service.Firewall.{Firewall}
use task_discovery_service.Registry.{ServiceEntry, RegistryError, not_found, invalid_task_name}
use task_discovery_service.Registry.Weights.{select_weighted_address, select_from, service_weight}
use task_discovery_service.Registry.Memory.{
  MemoryRegistry, or_nil, is_reachable, allowed_entries, choose_entry, after_choice, choose_allowed,
  query_entries, get_service_for_requestor,
}

pub some_eq {ℓ} : {A : Type ℓ} {a b : A} → some a ≡ some b → a ≡ b
some_eq h = cc

-- Some entry of the list has the address.
abbrev Chosen : Text → List ServiceEntry → Type 0
Chosen addr entries = (e : ServiceEntry) × Memᴰ e entries × (e.address ≡ addr)

later-Chosen :
    (addr : Text) (e : ServiceEntry) (es : List ServiceEntry)
    → Chosen addr es
    → Chosen addr (e ∷ es)
later-Chosen addr e es (x, at, same) = (x, tail at, same)

choice :
    (b : Bool) (e : ServiceEntry) (es : List ServiceEntry) (rest : Option Text) (addr : Text)
    → (if b then some e.address else rest) ≡ some addr
    → (rest ≡ some addr → Chosen addr es)
    → Chosen addr (e ∷ es)
choice true e es rest addr h later = (e, head refl, cc)
choice false e es rest addr h later = later-Chosen addr e es (later h)

select_from-Chosen :
    (running slot : ℕ) (es : List ServiceEntry) (addr : Text)
    → select_from running es slot ≡ some addr
    → Chosen addr es
select_from-Chosen running slot [] addr h = cc
select_from-Chosen running slot (e ∷ es) addr h =
    let running' = add64 running (service_weight e) in
    choice (lt64 slot running') e es (select_from running' es slot) addr h
      (select_from-Chosen running' slot es addr)

module _ (p : ServiceEntry → Bool) (e : ServiceEntry) where
  keep_step :
      (b : Bool) (x : ServiceEntry) (es : List ServiceEntry)
      → p x ≡ b
      → (Memᴰ e (keep_if p es) → Memᴰ e es × (p e ≡ true))
      → Memᴰ e (if b then x ∷ keep_if p es else keep_if p es)
      → Memᴰ e (x ∷ es) × (p e ≡ true)
  keep_step false x es h ih m = let (at, t) = ih m in (tail at, t)
  keep_step true x es h ih m = elim (cases_cons m) [
    | inl same ↦ (head same, ap p same ∙ h)
    | inr later ↦ let (at, t) = ih later in (tail at, t)
  ]

  keep_if-Memᴰ : (es : List ServiceEntry) → Memᴰ e (keep_if p es) → Memᴰ e es × (p e ≡ true)
  keep_if-Memᴰ [] m = elim m [ ]
  keep_if-Memᴰ (x ∷ es) m = keep_step (p x) x es refl (keep_if-Memᴰ es) m

module _ (net : Net) where
  -- What the firewall says of an entry: all is permitted without one, and to a nil requestor.
  abbrev pub Permits : Option Firewall → Ip → ServiceEntry → Type 0
  Permits none requestor e = Unit
  Permits (some fw) [] e = Unit
  Permits (some fw) (b ∷ bs) e = is_reachable net fw (b ∷ bs) e ≡ true

  nonempty :
      (kept allowed : List ServiceEntry) (e : ServiceEntry)
      → elim kept as (λ _. Option (List ServiceEntry)) [ [] ↦ none | x ∷ es ↦ some (x ∷ es) ]
        ≡ some allowed
      → Memᴰ e allowed
      → Memᴰ e kept
  nonempty [] allowed e h m = cc
  nonempty (x ∷ es) allowed e h m = subst (Memᴰ e) (sym (some_eq h)) m

  allowed_entries-Permits :
      (fw : Option Firewall) (requestor : Ip) (es allowed : List ServiceEntry) (e : ServiceEntry)
      → allowed_entries net fw requestor es ≡ some allowed
      → Memᴰ e allowed
      → Memᴰ e es × Permits fw requestor e
  unfolding allowed_entries
  allowed_entries-Permits none requestor es allowed e h m = (subst (Memᴰ e) (sym (some_eq h)) m, tt)
  allowed_entries-Permits (some fw) [] es allowed e h m = (subst (Memᴰ e) (sym (some_eq h)) m, tt)
  allowed_entries-Permits (some fw) (b ∷ bs) es allowed e h m =
      keep_if-Memᴰ (is_reachable net fw (b ∷ bs)) e es (nonempty _ allowed e h m)

  abbrev pub Answer : Option Firewall → Ip → List ServiceEntry → Text → Type 0
  Answer fw requestor es addr =
      (e : ServiceEntry) × Memᴰ e es × (e.address ≡ addr) × Permits fw requestor e

  after_choice-some :
      (task addr : Text) (m : MemoryRegistry) (o : Option Text)
      → (after_choice net task m o).0 ≡ ok addr
      → o ≡ some addr
  after_choice-some task addr m none h = cc
  after_choice-some task addr m (some a) h = cc

  not_refused :
      (b : Bool) (e : RegistryError) (m : MemoryRegistry)
      (later : Result RegistryError Text × MemoryRegistry) (addr : Text)
      → (if b then (err e, m) else later).0 ≡ ok addr
      → later.0 ≡ ok addr
  not_refused true e m later addr h = cc
  not_refused false e m later addr h = h

  choose_entry-Chosen :
      (task addr : Text) (allowed : List ServiceEntry) (m : MemoryRegistry)
      → (choose_entry net task allowed m).0 ≡ ok addr
      → Chosen addr allowed
  unfolding choose_entry select_weighted_address
  choose_entry-Chosen task addr allowed m h =
      select_from-Chosen 0 _ allowed addr
        (after_choice-some task addr _ _ (not_refused _ not_found m _ addr h))

  allowed_choice :
      (task addr : Text) (m : MemoryRegistry) (o : Option (List ServiceEntry))
      → (choose_allowed net task m o).0 ≡ ok addr
      → (allowed : List ServiceEntry) × (o ≡ some allowed) × Chosen addr allowed
  allowed_choice task addr m none h = cc
  allowed_choice task addr m (some allowed) h =
      (allowed, refl, choose_entry-Chosen task addr allowed m h)

  query_entries-Answer :
      (task addr : Text) (requestor : Ip) (es : List ServiceEntry) (m : MemoryRegistry)
      → (query_entries net task requestor es m).0 ≡ ok addr
      → Answer m.firewall requestor es addr
  unfolding query_entries
  query_entries-Answer task addr requestor [] m h = cc
  query_entries-Answer task addr requestor (x ∷ es) m h =
      let (allowed, kept, chosen) =
        allowed_choice task addr m (allowed_entries net m.firewall requestor (x ∷ es)) h in
      let (e, at, same) = chosen in
      let (registered, permitted) =
        allowed_entries-Permits m.firewall requestor (x ∷ es) allowed e kept at in
      (e, registered, same, permitted)

  -- The address that a query returns is that of an entry registered for the task, trimmed, which
  -- the firewall, if one is set and the requestor known, lets the requestor reach.
  pub get_service-permitted :
      (task addr : Text) (requestor : Ip) (m : MemoryRegistry)
      → (get_service_for_requestor net task requestor m).0 ≡ ok addr
      → Answer m.firewall requestor (or_nil (lookup (trim_space task) m.services)) addr
  unfolding get_service_for_requestor
  get_service-permitted task addr requestor m h =
      query_entries-Answer (trim_space task) addr requestor _ m
        (not_refused (trim_space task == []) invalid_task_name m _ addr h)
