-- ===== src/Simulation/Station/Batches.antt =====
-- What a station forwards: full batches of one card type, each for that type's back office.
use task_discovery_service.Prelude.{
  ℕ, ◌≡◌, ◌⊎◌, refl, false, Option, none, some, List, [], ◌∷◌, ◌++◌, Text, ◌==◌, text_eq, if_both,
  ltb, arith, length, All, All-append, beq→eq, Bool-cases, inl, inr,
}
use task_discovery_service.Prelude.Result.{Result, ok, err}
use task_discovery_service.Assoc.{lookup}
use task_discovery_service.Text.{codes}
use task_discovery_service.Simulation.Proxy.{ensure_http_base, trim_slashes}
use task_discovery_service.Simulation.{Transaction, TransactionAck}
use task_discovery_service.Simulation.Station.{
  Buffers, or_no_transactions, add_transaction, Posting, kept_transaction, is_refused, handle_body,
  handle_transaction, bo_task, posted, settled, forward_batch, Station, StationEvent, arrives,
  settles, new_station, remove_at, with_batch, with_delivery, kept_body, batch_task, settle,
  station_step, station_run,
}
use task_discovery_service.Simulation.Station.Filing.{
  IsOf, IsFiled, All-take-drop, IsTaken, remove_at-IsTaken, lookup-IsOf, insert-IsFiled,
  requeue-IsFiled, taken_length,
}

-- The addresses that the proxy answers in a run, by the task that is asked for.
abbrev pub Answered : List StationEvent → Text → Text → Type 0
Answered [] task addr = ⊥
Answered (arrives posting ∷ events) task addr = Answered events task addr
Answered (settles n query post ∷ events) task addr =
    (query task ≡ ok addr) ⊎ Answered events task addr

module _ (batch_size : ℕ) where
  -- A full batch of transactions of one card type.
  abbrev pub IsFull : Text → List Transaction → Type 0
  IsFull card_type batch = (length batch ≡ batch_size) × All (IsOf card_type) batch

  add-IsFull :
      (tx : Transaction) (b : Buffers)
      → is_refused tx ≡ false
      → IsFiled b
      → let (remaining, batch, b') = add_transaction batch_size tx b in
        ((batch ≡ []) ⊎ IsFull tx.card_type batch) × IsFiled b'
  unfolding add_transaction
  add-IsFull tx b valid f =
      let cur = or_no_transactions (lookup tx.card_type b) ++ (tx ∷ []) in
      let all : All (IsOf tx.card_type) cur =
        All-append (IsOf tx.card_type) _ (tx ∷ []) (lookup-IsOf tx.card_type b f)
          ((refl, valid), tt) in
      let (front, back) = All-take-drop (IsOf tx.card_type) batch_size cur all in
      elim (Bool-cases (ltb (length cur) batch_size)) [
        | inl e ↦ rw e (inl refl, insert-IsFiled tx.card_type cur b all f)
        | inr e ↦
            rw e
              (inr (taken_length batch_size cur e, front), insert-IsFiled tx.card_type _ b back f)
      ]

  module _ (station_id oybo_task pctrbo_task : Text) where
    -- The back office of a card type: that of Oyster cards, or that of PCTR cards.
    abbrev pub IsOffice : Text → Text → Type 0
    IsOffice task card_type =
        ((card_type ≡ codes "OY") × (task ≡ oybo_task))
        ⊎ ((card_type ≡ codes "PCTR") × (task ≡ pctrbo_task))

    -- A batch on its way to the back office of its type, and one that was posted to an address of it.
    abbrev pub IsBatch : Text × List Transaction → Type 0
    IsBatch (task, batch) = (card_type : Text) × IsOffice task card_type × IsFull card_type batch

    abbrev pub IsDelivery : (Text → Text → Type 0) → Text × List Transaction → Type 0
    IsDelivery Serves (url, batch) =
        (card_type : Text) × (task : Text) × (addr : Text) × IsOffice task card_type
        × Serves task addr
        × (url ≡ trim_slashes (ensure_http_base addr) ++ codes "/batch")
        × IsFull card_type batch

    bo_task-IsOffice :
        (tx : Transaction)
        → is_refused tx ≡ false
        → IsOffice (bo_task oybo_task pctrbo_task tx.card_type) tx.card_type
    unfolding bo_task is_refused
    bo_task-IsOffice tx e = elim (Bool-cases (tx.card_type == codes "PCTR")) [
      | inl p ↦ rw p (inr (beq→eq tx.card_type (codes "PCTR") p, refl))
      | inr n ↦ rw n (inl (beq→eq tx.card_type (codes "OY") (ground (arith, e, n)), refl))
    ]

    with_batch-IsBatch :
        (task card_type : Text) (batch : List Transaction) (flying : List (Text × List Transaction))
        → IsOffice task card_type
        → ((batch ≡ []) ⊎ IsFull card_type batch)
        → All IsBatch flying
        → All IsBatch (with_batch task batch flying)
    with_batch-IsBatch task card_type [] flying to w h = h
    with_batch-IsBatch task card_type (tx ∷ txs) flying to (inl e) h = cc
    with_batch-IsBatch task card_type (tx ∷ txs) flying to (inr full) h =
        All-append IsBatch flying _ h ((card_type, to, full), tt)

    -- What became of a post, whose URL is that of the address asked for.
    sent-url :
        (o : Option Text) (url sent : Text)
        → Path (Result Text Text) (elim o [ none ↦ ok sent | some e ↦ err e ]) (ok url)
        → url ≡ sent
    sent-url none url sent e = cc
    sent-url (some text) url sent e = cc

    posted-url :
        (post : Text → List Transaction → Option Text) (batch : List Transaction)
        (found : Result Text Text) (url : Text)
        → posted post batch found ≡ ok url
        → (addr : Text) × (found ≡ ok addr)
          × (url ≡ trim_slashes (ensure_http_base addr) ++ codes "/batch")
    posted-url post batch (err e) url h = cc
    posted-url post batch (ok addr) url h =
        let sent = trim_slashes (ensure_http_base addr) ++ codes "/batch" in
        (addr, refl, sent-url (post sent batch) url sent h)

    module _ (Serves : Text → Text → Type 0) where
      record IsSound (s : Station) : Type 0 where
        filed : IsFiled s.buffers
        flying : All IsBatch s.in_flight
        arrived : All (IsDelivery Serves) s.delivered

      -- What a request at /transaction leaves.
      abbrev IsAnswered :
          Text
          → List (Text × List Transaction)
          → ℕ × TransactionAck × List Transaction × Buffers
          → Type 0
      IsAnswered task flying answer =
          IsFiled answer.3 × All IsBatch (with_batch task answer.2 flying)

      body-IsAnswered :
          (posting : Posting) (body : Option Transaction) (s : Station)
          → IsSound s
          → IsAnswered
              (batch_task batch_size station_id oybo_task pctrbo_task
                (kept_body batch_size station_id oybo_task pctrbo_task posting body))
              s.in_flight
              (handle_body batch_size station_id posting body s.buffers)
      body-IsAnswered posting none s i = (i.filed, i.flying)
      body-IsAnswered posting (some tx) s i =
          let tx' = kept_transaction station_id posting tx in
          elim (Bool-cases (is_refused tx')) [
            | inl e ↦ rw e (i.filed, i.flying)
            | inr e ↦
                let (batch, filed) = add-IsFull tx' s.buffers e i.filed in
                rw e (
                  filed,
                  with_batch-IsBatch _ tx'.card_type _ s.in_flight (bo_task-IsOffice tx' e) batch
                      i.flying,
                )
          ]

      settled-IsSound :
          (task : Text) (batch : List Transaction) (outcome : Result Text Text)
          (others : List (Text × List Transaction)) (s : Station)
          → IsSound s
          → IsBatch (task, batch)
          → ((url : Text)
              → outcome ≡ ok url
              → (addr : Text) × Serves task addr
                × (url ≡ trim_slashes (ensure_http_base addr) ++ codes "/batch"))
          → All IsBatch others
          → let (url, b') = settled batch outcome s.buffers in
            IsSound (record s {
              buffers = b';
              in_flight = others;
              delivered = with_delivery url batch s.delivered;
            })
      settled-IsSound task batch (err e) others s i (card_type, to, full) went h = record {
        filed = requeue-IsFiled card_type batch s.buffers full.1 i.filed;
        flying = h;
        arrived = i.arrived;
      }
      settled-IsSound task batch (ok url) others s i (card_type, to, full) went h =
          let (addr, serves, same) = went url refl in
          record {
            filed = i.filed;
            flying = h;
            arrived = ((card_type, task, addr, to, serves, same, full), i.arrived);
          }

      abbrev IsHonest : StationEvent → Type 0
      IsHonest (arrives posting) = Unit
      IsHonest (settles n query post) = (task addr : Text) → query task ≡ ok addr → Serves task addr

      settle-IsSound :
          (query : Text → Result Text Text) (post : Text → List Transaction → Option Text)
          (found : Option ((Text × List Transaction) × List (Text × List Transaction)))
          (s : Station)
          → ((task addr : Text) → query task ≡ ok addr → Serves task addr)
          → IsSound s
          → IsTaken IsBatch found
          → IsSound (settle batch_size station_id oybo_task pctrbo_task query post found s)
      unfolding forward_batch
      settle-IsSound query post none s honest i t = i
      settle-IsSound query post (some ((task, batch), others)) s honest i t =
          settled-IsSound task batch (posted post batch (query task)) others s i t.0
            (λ url e.
              let (addr, answered, same) = posted-url post batch (query task) url e in
              (addr, honest task addr answered, same))
            t.1

      step-IsSound :
          (event : StationEvent) (s : Station)
          → IsHonest event
          → IsSound s
          → IsSound (station_step batch_size station_id oybo_task pctrbo_task event s)
      unfolding station_step handle_transaction
      step-IsSound (arrives posting) s honest i =
          let task =
            batch_task batch_size station_id oybo_task pctrbo_task
              (kept_body batch_size station_id oybo_task pctrbo_task posting posting.body) in
          let (filed, flying) =
            if_both (IsAnswered task s.in_flight) posting.is_post _ _
              (body-IsAnswered posting posting.body s i) (i.filed, i.flying) in
          record { filed = filed; flying = flying; arrived = i.arrived }
      step-IsSound (settles n query post) s honest i =
          settle-IsSound query post (remove_at n s.in_flight) s honest i
            (remove_at-IsTaken IsBatch n s.in_flight i.flying)

      run-IsSound :
          (events : List StationEvent) (s : Station)
          → ((task addr : Text) → Answered events task addr → Serves task addr)
          → IsSound s
          → IsSound (station_run batch_size station_id oybo_task pctrbo_task events s)
      unfolding station_run
      run-IsSound [] s honest i = i
      run-IsSound (arrives posting ∷ events) s honest i =
          run-IsSound events _ honest (step-IsSound (arrives posting) s tt i)
      run-IsSound (settles n query post ∷ events) s honest i =
          run-IsSound events _ (λ task addr h. honest task addr (inr h))
            (step-IsSound (settles n query post) s (λ task addr h. honest task addr (inl h)) i)

    -- Whatever a station is sent after its start, each batch on the way has exactly the batch size of
    -- transactions, all of one card type and passed by the guards, and is for the task of the Oyster
    -- back office if the type is OY and for that of the PCTR back office if it is PCTR. Each
    -- delivered batch is such a batch too, and its URL is /batch at an address that the proxy answered
    -- for that task.
    pub station_run-batches :
        (events : List StationEvent)
        → let s = station_run batch_size station_id oybo_task pctrbo_task events new_station in
          All IsBatch s.in_flight × All (IsDelivery (Answered events)) s.delivered
    station_run-batches events =
        let start : IsSound (Answered events) new_station = record {
          filed = (tt, (tt, tt));
          flying = tt;
          arrived = tt;
        } in
        let i = run-IsSound (Answered events) events new_station (λ task addr h. h) start in
        (i.flying, i.arrived)
