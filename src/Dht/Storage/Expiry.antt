-- ===== src/Dht/Storage/Expiry.antt =====
-- What the two cleanups remove.
use task_discovery_service.Prelude.{
  ℕ, ◌+◌, ◌<◌, ◌≡◌, refl, ◌∙◌, Bool, false, not, Option, none, some, List, [], ◌∷◌, Text, ◌==◌,
  text_eq, text_beq_iff, if◌then◌else◌, arith, nat_beq, keep_if, length, Bool-cases, inl, inr,
}
use task_discovery_service.Assoc.{Assoc, lookup, delete, Distinct, lookup-insert, lookup-delete}
use task_discovery_service.Dht.{NodeId, Dht, ServiceRegistration}
use task_discovery_service.Dht.Closest.{am_i_in_k_closest_locked}
use task_discovery_service.Dht.Storage.{
  or_nil, is_active, is_fresh, put_kept, sweep_expired, sweep_stale, cleanup_expired_registrations,
  cleanup_stale_data,
}

abbrev pub expired_count : ℕ → ℕ → Assoc Text (List ServiceRegistration) → ℕ
expired_count now timeout [] = 0
expired_count now timeout (e ∷ tasks) =
    length (keep_if (λ x. not (is_fresh now timeout x)) e.1) + expired_count now timeout tasks

module _ (now timeout : ℕ) where
  put_kept-storage :
      (task t : Text) (kept : List ServiceRegistration) (d : Dht)
      → or_nil (lookup t (put_kept task kept d).storage)
        ≡ (if task == t then kept else or_nil (lookup t d.storage))
  put_kept-storage task t [] d = ground (arith, lookup-delete task t d.storage)
  put_kept-storage task t (e ∷ es) d = ground (arith, lookup-insert task t (e ∷ es) d.storage)

  abbrev swept :
      Option (List ServiceRegistration) → List ServiceRegistration → List ServiceRegistration
  swept none old = old
  swept (some es) old = keep_if (is_fresh now timeout) es

  sweep_expired-storage :
      (t : Text) (tasks : Assoc Text (List ServiceRegistration)) (d : Dht)
      → Distinct tasks
      → or_nil (lookup t (sweep_expired now timeout tasks d).0.storage)
        ≡ swept (lookup t tasks) (or_nil (lookup t d.storage))
  unfolding sweep_expired lookup
  sweep_expired-storage t [] d h = refl
  sweep_expired-storage t ((task, es) ∷ tasks) d h =
      let kept = keep_if (is_fresh now timeout) es in
      ground (
        arith,
        sweep_expired-storage t tasks (put_kept task kept d) h.1,
        put_kept-storage task t kept d,
        text_beq_iff task t,
      )

  sweep_expired-count :
      (tasks : Assoc Text (List ServiceRegistration)) (d : Dht)
      → (sweep_expired now timeout tasks d).1 ≡ expired_count now timeout tasks
  unfolding sweep_expired
  sweep_expired-count [] d = refl
  sweep_expired-count ((task, es) ∷ tasks) d =
      omega (arith, sweep_expired-count tasks (put_kept task _ d))

  swept-or_nil :
      (o : Option (List ServiceRegistration))
      → swept o (or_nil o) ≡ keep_if (is_fresh now timeout) (or_nil o)
  swept-or_nil none = refl
  swept-or_nil (some es) = refl

  -- With a positive timeout and no task stored twice, each task keeps exactly those
  -- registrations, in order, whose last heartbeat is less than the timeout ago, and the number
  -- that is returned is that of the registrations that are gone.
  pub cleanup_expired-fresh :
      (t : Text) (d : Dht)
      → 0 < timeout
      → Distinct d.storage
      → (or_nil (lookup t (cleanup_expired_registrations timeout now d).0.storage)
          ≡ keep_if (is_fresh now timeout) (or_nil (lookup t d.storage)))
        × ((cleanup_expired_registrations timeout now d).1 ≡ expired_count now timeout d.storage)
  unfolding cleanup_expired_registrations
  cleanup_expired-fresh t d p h =
      let positive : nat_beq timeout 0 ≡ false = ground arith in
      rw positive (
        sweep_expired-storage t d.storage d h ∙ swept-or_nil (lookup t d.storage),
        sweep_expired-count d.storage d,
      )

  keep_if-active :
      (es : List ServiceRegistration)
      → 0 < timeout
      → keep_if (is_active now timeout) (keep_if (is_fresh now timeout) es)
        ≡ keep_if (is_active now timeout) es
  keep_if-active [] p = refl
  keep_if-active (e ∷ es) p = ground (arith, keep_if-active es p)

module _ (sha256 : Text → NodeId) (k : ℕ) where
  -- The test looks at the peers and at the node itself, not at what is stored.
  abbrev pub is_kept : Text → Dht → Bool
  is_kept t d = am_i_in_k_closest_locked sha256 t k d

  is_kept-deleted :
      (t : Text) (s : Assoc Text (List ServiceRegistration)) (d : Dht)
      → is_kept t (record d { storage = s }) ≡ is_kept t d
  unfolding am_i_in_k_closest_locked
  is_kept-deleted t s d = refl

  abbrev drop_unless :
      Bool
      → Option (List ServiceRegistration)
      → Option (List ServiceRegistration)
      → Option (List ServiceRegistration)
  drop_unless keep none old = old
  drop_unless keep (some es) old = if keep then old else none

  sweep_stale-storage :
      (t : Text) (tasks : Assoc Text (List ServiceRegistration)) (d : Dht)
      → Distinct tasks
      → lookup t (sweep_stale sha256 k tasks d).0.storage
        ≡ drop_unless (is_kept t d) (lookup t tasks) (lookup t d.storage)
  unfolding sweep_stale lookup
  sweep_stale-storage t [] d h = refl
  sweep_stale-storage t ((task, es) ∷ tasks) d h = elim (Bool-cases (is_kept task d)) [
    | inl keep ↦
        rw keep (ground (arith, text_beq_iff task t, sweep_stale-storage t tasks d h.1, keep, h.0))
    | inr out ↦
        let d' : Dht = record d { storage = delete task d.storage } in
        rw out (
          ground (
            arith,
            text_beq_iff task t,
            sweep_stale-storage t tasks d' h.1,
            is_kept-deleted t (delete task d.storage) d,
            lookup-delete task t d.storage,
            out,
            h.0,
          ))
  ]

  drop_unless-same :
      (keep : Bool) (o : Option (List ServiceRegistration))
      → drop_unless keep o o ≡ (if keep then o else none)
  drop_unless-same keep none = ground arith
  drop_unless-same keep (some es) = refl

  -- With no task stored twice, a task keeps all of its registrations when the node is among the
  -- k closest to it, and loses all of them when it is not.
  pub cleanup_stale-kept :
      (t : Text) (d : Dht)
      → Distinct d.storage
      → lookup t (cleanup_stale_data sha256 k d).0.storage
        ≡ (if is_kept t d then lookup t d.storage else none)
  unfolding cleanup_stale_data
  cleanup_stale-kept t d h =
      sweep_stale-storage t d.storage d h ∙ drop_unless-same (is_kept t d) (lookup t d.storage)
