-- ===== src/Dht/Network/Store/Attempts.antt =====
-- The variables of the loop of Store after any number of rounds: the counts, the error and the storage
-- that follow from the addresses which were attempted.
use task_discovery_service.Prelude.{
  ℕ, zero, suc, ◌+◌, ◌≡◌, refl, sym, ap, subst, ◌∙◌, Bool, true, false, Option, none, some, List,
  [], ◌∷◌, Text, ◌==◌, text_eq, text_beq, if◌then◌else◌, if_both, any, ltb, arith, length, keep_if,
  beq→eq, beq_sym, Bool-cases, Option-cases, inl, inr,
}
use task_discovery_service.Prelude.Result.{Result, ok, err}
use task_discovery_service.Assoc.{Assoc, lookup}
use task_discovery_service.Text.{codes}
use task_discovery_service.Dht.{NodeId, Dht, ServiceRegistration}
use task_discovery_service.Dht.Ring.{add_peer, rebuild_ring}
use task_discovery_service.Dht.Storage.{or_nil, refresh, store_task}
use task_discovery_service.Dht.Network.{Message}
use task_discovery_service.Dht.Network.Store.{
  Suggestions, StoreRun, is_attempted, queue_closer, follow, on_response, contact, visit,
  store_rounds,
}

add_peer-kept :
    (sha256 : Text → NodeId) (addr : Text) (now : ℕ) (d : Dht)
    → let d' = add_peer sha256 addr now d in (d'.self ≡ d.self) × (d'.storage ≡ d.storage)
unfolding add_peer rebuild_ring
add_peer-kept sha256 addr now d = ground arith

queue_closer-kept :
    (sha256 : Text → NodeId) (task_hash : NodeId) (farthest now : ℕ)
    (attempted suggested queue : List Text) (d : Dht)
    → let d' = (queue_closer sha256 task_hash farthest now attempted suggested queue d).1 in
      (d'.self ≡ d.self) × (d'.storage ≡ d.storage)
unfolding queue_closer
queue_closer-kept sha256 task_hash farthest now attempted [] queue d = (refl, refl)
queue_closer-kept sha256 task_hash farthest now attempted (addr ∷ suggested) queue d =
    let (self, storage) = add_peer-kept sha256 addr now d in
    let (self', storage') =
      queue_closer-kept sha256 task_hash farthest now attempted suggested _
        (add_peer sha256 addr now d) in
    (self' ∙ self, storage' ∙ storage)

store_task-self :
    (task address : Text) (now : ℕ) (d : Dht) → (store_task task address now d).self ≡ d.self
unfolding store_task
store_task-self task address now d = ground arith

store_task-same :
    (task address : Text) (now : ℕ) (d d' : Dht) (storage : Assoc Text (List ServiceRegistration))
    → (store_task task address now (record d { storage = storage })).storage
      ≡ (store_task task address now (record d' { storage = storage })).storage
unfolding store_task
store_task-same task address now d d' storage =
    elim (Option-cases (refresh address now (or_nil (lookup task storage)))) [
      | inl e ↦ rw (e, store_task) refl
      | inr (es, e) ↦ rw (e, store_task) refl
    ]

store_task-storage :
    (task address : Text) (now : ℕ) (d d' : Dht)
    → d.storage ≡ d'.storage
    → (store_task task address now d).storage ≡ (store_task task address now d').storage
store_task-storage task address now d d' e =
    ap (λ st. (store_task task address now (record d { storage = st })).storage) e
    ∙ store_task-same task address now d d' d'.storage

-- No address stands twice.
abbrev pub IsDistinct : List Text → Type 0
IsDistinct [] = Unit
IsDistinct (addr ∷ addrs) = (is_attempted addr addrs ≡ false) × IsDistinct addrs

module _ {Raw : Type 0} where
  abbrev pub is_ok : Result Text (Message Raw) → Bool
  is_ok (err e) = false
  is_ok (ok resp) = resp.kind == codes "OK"

  abbrev pub error_of : Result Text (Message Raw) → Option Text → Option Text
  error_of (err e) before = some e
  error_of (ok resp) before = before

count_if :
    (b : Bool) (n : ℕ) (addr : Text) (addrs : List Text)
    → n ≡ length addrs
    → (if b then n + 1 else n) ≡ length (if b then addr ∷ addrs else addrs)
count_if true n addr addrs h = omega (arith, h)
count_if false n addr addrs h = h

same_run : {r r' : StoreRun} → some r ≡ some r' → r ≡ r'
same_run e = cc

pub ltb-any : (p : Text → Bool) (addrs : List Text) → ltb 0 (length (keep_if p addrs)) ≡ any p addrs
ltb-any p [] = refl
ltb-any p (addr ∷ addrs) = ground (arith, ltb-any p addrs)

module _ (sha256 : Text → NodeId) (k : ℕ) {Raw : Type 0} (json : Suggestions Raw)
    (send : Text → Result Text (Message Raw)) (clock : Text → ℕ) (task address : Text)
    (d : Dht) where
  -- The node itself accepts, and a peer that answers OK.
  abbrev pub accepts : Text → Bool
  accepts addr = if addr == d.self.address then true else is_ok (send addr)

  -- The error of the address that is tried last, of those that cannot be reached.
  abbrev pub last_error : List Text → Option Text
  last_error [] = none
  last_error (addr ∷ attempted) =
      let before = last_error attempted in
      if addr == d.self.address then before else error_of (send addr) before

  abbrev pub storage_after : List Text → Assoc Text (List ServiceRegistration)
  storage_after attempted =
      if is_attempted d.self.address attempted
      then (store_task task address (clock d.self.address) d).storage
      else d.storage

  pub record IsRun (r : StoreRun) : Type 0 where
    pub self_kept : r.node.self ≡ d.self
    pub counted : r.success_count ≡ length (keep_if accepts r.attempted)
    pub failed : r.last_err ≡ last_error r.attempted
    pub stored : r.node.storage ≡ storage_after r.attempted
    pub distinct : IsDistinct r.attempted

  -- What the answer of an address changes.
  record IsAnswered (answer : Result Text (Message Raw)) (r r' : StoreRun) : Type 0 where
    attempted_same : r'.attempted ≡ r.attempted
    self_same : r'.node.self ≡ r.node.self
    storage_same : r'.node.storage ≡ r.node.storage
    count_next : r'.success_count ≡ (if is_ok answer then r.success_count + 1 else r.success_count)
    error_next : r'.last_err ≡ error_of answer r.last_err

  follow-IsAnswered :
      (resp : Message Raw) (found : Option (List Text)) (now : ℕ) (queue : List Text) (r : StoreRun)
      → is_ok (ok resp) ≡ false
      → IsAnswered (ok resp) r (follow sha256 k json send clock task address found now queue r).1
  follow-IsAnswered resp none now queue r n = record {
    attempted_same = refl;
    self_same = refl;
    storage_same = refl;
    count_next = rw n refl;
    error_next = refl;
  }
  follow-IsAnswered resp (some suggested) now queue r n =
      let (self, storage) = queue_closer-kept sha256 _ _ now r.attempted suggested queue r.node in
      record {
        attempted_same = refl;
        self_same = self;
        storage_same = storage;
        count_next = rw n refl;
        error_next = refl;
      }

  response-IsAnswered :
      (answer : Result Text (Message Raw)) (now : ℕ) (queue : List Text) (r : StoreRun)
      → IsAnswered answer r (on_response sha256 k json send clock task address answer now queue r).1
  response-IsAnswered (err e) now queue r = record {
    attempted_same = refl;
    self_same = refl;
    storage_same = refl;
    count_next = refl;
    error_next = refl;
  }
  response-IsAnswered (ok resp) now queue r = elim (Bool-cases (resp.kind == codes "OK")) [
    | inl e ↦ rw e (record {
      attempted_same = refl;
      self_same = refl;
      storage_same = refl;
      count_next = rw e refl;
      error_next = refl;
    })
    | inr e ↦
        let follows = follow-IsAnswered resp (json.unmarshal_closest resp.payload) now queue r e in
        let stays = follow-IsAnswered resp none now queue r e in
        rw e (
          if_both {A = List Text × StoreRun} (λ v. IsAnswered (ok resp) r v.1) _ _ (queue, r)
            follows stays)
  ]

  self-IsRun :
      (addr : Text) (r : StoreRun)
      → IsRun r
      → is_attempted addr r.attempted ≡ false
      → (addr == d.self.address) ≡ true
      → IsRun (record {
        node = store_task task address (clock addr) r.node;
        attempted = addr ∷ r.attempted;
        success_count = r.success_count + 1;
        last_err = r.last_err;
      })
  self-IsRun addr r i new e =
      let here : addr ≡ d.self.address = beq→eq addr d.self.address e in
      let absent : is_attempted d.self.address r.attempted ≡ false =
        subst (λ a. is_attempted a r.attempted ≡ false) here new in
      let clean : r.node.storage ≡ d.storage = i.stored ∙ rw absent refl in
      let there : text_beq d.self.address addr ≡ true = beq_sym d.self.address addr ∙ e in
      record {
        self_kept = store_task-self task address (clock addr) r.node ∙ i.self_kept;
        counted = rw e (omega (arith, i.counted));
        failed = rw e i.failed;
        stored =
            rw (there, here)
              (store_task-storage task address (clock d.self.address) r.node d clean);
        distinct = (new, i.distinct);
      }

  answered-IsRun :
      (addr : Text) (r r' : StoreRun)
      → IsRun r
      → is_attempted addr r.attempted ≡ false
      → (addr == d.self.address) ≡ false
      → IsAnswered (send addr) (record r { attempted = addr ∷ r.attempted }) r'
      → IsRun r'
  answered-IsRun addr r r' i new e n =
      let there : text_beq d.self.address addr ≡ false = beq_sym d.self.address addr ∙ e in
      record {
        self_kept = n.self_same ∙ i.self_kept;
        counted =
            rw (n.attempted_same, e)
              (n.count_next ∙ count_if (is_ok (send addr)) _ addr _ i.counted);
        failed = rw (n.attempted_same, e) (n.error_next ∙ ap (error_of (send addr)) i.failed);
        stored = rw (n.attempted_same, there) (n.storage_same ∙ i.stored);
        distinct = rw n.attempted_same (new, i.distinct);
      }

  contact-IsRun :
      (addr : Text) (queue : List Text) (r : StoreRun)
      → IsRun r
      → is_attempted addr r.attempted ≡ false
      → IsRun
          (contact sha256 k json send clock task address addr queue
            (record r { attempted = addr ∷ r.attempted })).1
  unfolding contact
  contact-IsRun addr queue r i new =
      let same = ap (λ self. addr == self.address) i.self_kept in
      elim (Bool-cases (addr == r.node.self.address)) [
        | inl e ↦ rw e (self-IsRun addr r i new (sym same ∙ e))
        | inr e ↦ rw e (
            answered-IsRun addr r _ i new (sym same ∙ e) (
              response-IsAnswered (send addr) (clock addr) queue
                (record r { attempted = addr ∷ r.attempted })))
      ]

  visit-IsRun :
      (addr : Text) (queue : List Text) (r : StoreRun)
      → IsRun r
      → IsRun (visit sha256 k json send clock task address addr queue r).1
  unfolding visit
  visit-IsRun addr queue r i = elim (Bool-cases (is_attempted addr r.attempted)) [
    | inl e ↦ rw e i
    | inr e ↦ rw e (contact-IsRun addr queue r i e)
  ]

  pub store_rounds-IsRun :
      (fuel : ℕ) (queue : List Text) (r r' : StoreRun)
      → IsRun r
      → store_rounds sha256 k json send clock task address fuel queue r ≡ some r'
      → IsRun r'
  unfolding store_rounds
  store_rounds-IsRun fuel [] r r' i e = subst IsRun (same_run e) i
  store_rounds-IsRun zero (addr ∷ queue) r r' i e = cc
  store_rounds-IsRun (suc fuel) (addr ∷ queue) r r' i e =
      store_rounds-IsRun fuel _ _ r' (visit-IsRun addr queue r i) e
