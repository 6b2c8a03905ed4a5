-- ===== src/Registry/Memory/Cleanup.antt =====
-- Cleanup: which entries stay, which cursors stay, and how many entries it reports.
use task_discovery_service.Prelude.{
  ℕ, ◌+◌, ◌≡◌, refl, ap, ◌∙◌, Bool, not, Option, none, some, List, [], ◌∷◌, Text, ◌==◌, text_eq,
  text_beq_iff, if◌then◌else◌, ltb, arith, length, keep_if, Bool-cases, inl, inr,
}
use task_discovery_service.Assoc.{Assoc, lookup, Distinct, lookup-insert, lookup-delete}
use task_discovery_service.Registry.{ServiceEntry}
use task_discovery_service.Registry.Memory.{
  MemoryRegistry, or_nil, sweep_entries, sweep_tasks, keep_task, cleanup,
}

-- The last heartbeat is less than the timeout ago.
abbrev pub is_fresh : ℕ → ℕ → ServiceEntry → Bool
is_fresh now timeout e = ltb now (e.last_heartbeat + timeout)

abbrev pub stale_count : ℕ → ℕ → Assoc Text (List ServiceEntry) → ℕ
stale_count now timeout [] = 0
stale_count now timeout (e ∷ tasks) =
    length (keep_if (λ x. not (is_fresh now timeout x)) e.1) + stale_count now timeout tasks

module _ (now timeout : ℕ) where
  sweep_entries-kept :
      (task : Text) (es : List ServiceEntry) (counters : Assoc Text ℕ)
      → (sweep_entries task now timeout es counters).0 ≡ keep_if (is_fresh now timeout) es
  unfolding sweep_entries
  sweep_entries-kept task [] counters = refl
  sweep_entries-kept task (e ∷ es) counters = elim (Bool-cases (is_fresh now timeout e)) [
    | inl f ↦ rw f (ap (◌∷◌ e) (sweep_entries-kept task es counters))
    | inr f ↦ rw f (sweep_entries-kept task es _)
  ]

  sweep_entries-removed :
      (task : Text) (es : List ServiceEntry) (counters : Assoc Text ℕ)
      → (sweep_entries task now timeout es counters).2
        ≡ length (keep_if (λ x. not (is_fresh now timeout x)) es)
  unfolding sweep_entries
  sweep_entries-removed task [] counters = refl
  sweep_entries-removed task (e ∷ es) counters = elim (Bool-cases (is_fresh now timeout e)) [
    | inl f ↦ rw f (sweep_entries-removed task es counters)
    | inr f ↦ rw f (omega (arith, sweep_entries-removed task es _))
  ]

  keep_task-services :
      (task t : Text) (kept : List ServiceEntry) (counters : Assoc Text ℕ) (m : MemoryRegistry)
      → or_nil (lookup t (keep_task task kept counters m).services)
        ≡ (if task == t then kept else or_nil (lookup t m.services))
  keep_task-services task t [] counters m = ground (arith, lookup-delete task t m.services)
  keep_task-services task t (e ∷ es) counters m =
      ground (arith, lookup-insert task t (e ∷ es) m.services)

  abbrev swept : Option (List ServiceEntry) → List ServiceEntry → List ServiceEntry
  swept none old = old
  swept (some es) old = keep_if (is_fresh now timeout) es

  sweep_tasks-services :
      (t : Text) (tasks : Assoc Text (List ServiceEntry)) (m : MemoryRegistry)
      → Distinct tasks
      → or_nil (lookup t (sweep_tasks now timeout tasks m).0.services)
        ≡ swept (lookup t tasks) (or_nil (lookup t m.services))
  unfolding sweep_tasks lookup
  sweep_tasks-services t [] m d = refl
  sweep_tasks-services t ((task, es) ∷ tasks) m d =
      let r = sweep_entries task now timeout es m.query_counters in
      ground (
        arith,
        sweep_tasks-services t tasks (keep_task task r.0 r.1 m) d.1,
        keep_task-services task t r.0 r.1 m,
        sweep_entries-kept task es m.query_counters,
        text_beq_iff task t,
      )

  sweep_tasks-removed :
      (tasks : Assoc Text (List ServiceEntry)) (m : MemoryRegistry)
      → (sweep_tasks now timeout tasks m).1 ≡ stale_count now timeout tasks
  unfolding sweep_tasks
  sweep_tasks-removed [] m = refl
  sweep_tasks-removed ((task, es) ∷ tasks) m = omega (
    arith,
    sweep_entries-removed task es m.query_counters,
    sweep_tasks-removed tasks (keep_task task _ _ m),
  )

  or_nil-swept :
      (o : Option (List ServiceEntry))
      → swept o (or_nil o) ≡ keep_if (is_fresh now timeout) (or_nil o)
  or_nil-swept none = refl
  or_nil-swept (some es) = refl

  -- If no task stands twice in the registry, after a cleanup each task has exactly those of its
  -- entries, in order, whose last heartbeat is less than the timeout ago, and the number that it
  -- returns is that of the entries it dropped.
  pub cleanup-fresh :
      (m : MemoryRegistry) (t : Text)
      → Distinct m.services
      → (or_nil (lookup t (cleanup now timeout m).0.services)
          ≡ keep_if (is_fresh now timeout) (or_nil (lookup t m.services)))
        × ((cleanup now timeout m).1 ≡ stale_count now timeout m.services)
  unfolding cleanup
  cleanup-fresh m t d = (
    sweep_tasks-services t m.services m d ∙ or_nil-swept (lookup t m.services),
    sweep_tasks-removed m.services m,
  )
