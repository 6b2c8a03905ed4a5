-- ===== src/Simulation/Station/Conservation.antt =====
-- No transaction that a station accepts is lost or doubled on its way, whatever the order in which
-- requests arrive and batches end.
use task_discovery_service.Prelude.{
  ℕ, zero, suc, ◌+◌, ◌≡◌, refl, sym, ap, ◌∙◌, Bool, false, Option, none, some, List, [], ◌∷◌, ◌++◌,
  Text, ◌==◌, text_eq, if_both, ltb, arith, length, take, drop, keep_if, take-append-drop,
  Bool-cases, inl, inr,
}
use task_discovery_service.Prelude.Result.{Result, ok, err}
use task_discovery_service.Assoc.{lookup, insert}
use task_discovery_service.Simulation.{Transaction, TransactionAck}
use task_discovery_service.Simulation.Station.{
  Buffers, or_no_transactions, add_transaction, Posting, kept_transaction, is_refused,
  handle_received, handle_body, handle_transaction, requeue, posted, settled, forward_batch,
  Station, StationEvent, arrives, settles, new_station, remove_at, with_batch, with_delivery,
  with_accepted, kept_body, batch_task, settle, station_step, station_run,
}

module _ (p : Transaction → Bool) where
  -- How many transactions of a list, of the buffers and of batches pass the test.
  abbrev pub count_txs : List Transaction → ℕ
  count_txs txs = length (keep_if p txs)

  abbrev pub count_buffered : Buffers → ℕ
  count_buffered [] = 0
  count_buffered ((card_type, txs) ∷ b) = count_txs txs + count_buffered b

  abbrev pub count_batches : List (Text × List Transaction) → ℕ
  count_batches [] = 0
  count_batches ((label, txs) ∷ batches) = count_txs txs + count_batches batches

  count-append : (xs ys : List Transaction) → count_txs (xs ++ ys) ≡ count_txs xs + count_txs ys
  count-append [] ys = omega arith
  count-append (x ∷ xs) ys = ground (arith, count-append xs ys)

  count_batches-append :
      (xs ys : List (Text × List Transaction))
      → count_batches (xs ++ ys) ≡ count_batches xs + count_batches ys
  count_batches-append [] ys = omega arith
  count_batches-append ((label, txs) ∷ xs) ys = omega (arith, count_batches-append xs ys)

  count-insert :
      (card_type : Text) (txs : List Transaction) (b : Buffers)
      → count_buffered (insert card_type txs b)
          + count_txs (or_no_transactions (lookup card_type b))
        ≡ count_buffered b + count_txs txs
  unfolding insert lookup
  count-insert card_type txs [] = omega arith
  count-insert card_type txs ((other, old) ∷ b) = elim (Bool-cases (other == card_type)) [
    | inl e ↦ rw e (omega arith)
    | inr e ↦ rw e (omega (arith, count-insert card_type txs b))
  ]

  count-add :
      (batch_size : ℕ) (tx : Transaction) (b : Buffers)
      → let (remaining, batch, b') = add_transaction batch_size tx b in
        count_buffered b' + count_txs batch ≡ count_buffered b + count_txs (tx ∷ [])
  unfolding add_transaction
  count-add batch_size tx b =
      let old = or_no_transactions (lookup tx.card_type b) in
      let cur = old ++ (tx ∷ []) in
      let split : count_txs cur ≡ count_txs old + count_txs (tx ∷ []) =
        count-append old (tx ∷ []) in
      elim (Bool-cases (ltb (length cur) batch_size)) [
        | inl e ↦ rw e (omega (arith, split, count-insert tx.card_type cur b))
        | inr e ↦
            let rest = drop batch_size cur in
            let cut : count_txs cur ≡ count_txs (take batch_size cur) + count_txs rest =
              ap count_txs (sym (take-append-drop batch_size cur))
              ∙ count-append (take batch_size cur) rest in
            rw e (omega (arith, split, cut, count-insert tx.card_type rest b))
      ]

  count-requeue :
      (batch : List Transaction) (b : Buffers)
      → count_buffered (requeue batch b) ≡ count_buffered b + count_txs batch
  unfolding requeue
  count-requeue [] b = omega arith
  count-requeue (tx ∷ txs) b =
      let old = or_no_transactions (lookup tx.card_type b) in
      omega (arith, count-append (tx ∷ txs) old, count-insert tx.card_type ((tx ∷ txs) ++ old) b)

  count-settled :
      (batch : List Transaction) (outcome : Result Text Text) (b : Buffers)
      (delivered : List (Text × List Transaction))
      → let (url, b') = settled batch outcome b in
        count_buffered b' + count_batches (with_delivery url batch delivered)
        ≡ count_buffered b + count_batches delivered + count_txs batch
  count-settled batch (err e) b delivered = omega (arith, count-requeue batch b)
  count-settled batch (ok url) b delivered = omega arith

  count-with_batch :
      (task : Text) (batch : List Transaction) (flying : List (Text × List Transaction))
      → count_batches (with_batch task batch flying) ≡ count_batches flying + count_txs batch
  count-with_batch task [] flying = omega arith
  count-with_batch task (tx ∷ txs) flying =
      omega (arith, count_batches-append flying ((task, tx ∷ txs) ∷ []))

  abbrev taken : Option ((Text × List Transaction) × List (Text × List Transaction)) → ℕ → ℕ
  taken none whole = whole
  taken (some ((task, batch), others)) whole = count_txs batch + count_batches others

  taken_later :
      (o : Option ((Text × List Transaction) × List (Text × List Transaction))) (task : Text)
      (batch : List Transaction) (whole : ℕ)
      → whole ≡ taken o whole
      → count_txs batch + whole
        ≡ taken
            (elim o [ none ↦ none | some (y, ys) ↦ some (y, (task, batch) ∷ ys) ])
            (count_txs batch + whole)
  taken_later none task batch whole e = refl
  taken_later (some ((t, b), others)) task batch whole e = omega (arith, e)

  count-remove_at :
      (n : ℕ) (flying : List (Text × List Transaction))
      → count_batches flying ≡ taken (remove_at n flying) (count_batches flying)
  count-remove_at n [] = refl
  count-remove_at zero ((task, batch) ∷ flying) = refl
  count-remove_at (suc n) ((task, batch) ∷ flying) =
      taken_later (remove_at n flying) task batch (count_batches flying) (count-remove_at n flying)

  -- What a station has accepted, less what it has delivered, is what it still has.
  abbrev pub IsConserved : Station → Type 0
  IsConserved s =
      count_txs s.accepted
      ≡ count_buffered s.buffers + count_batches s.in_flight + count_batches s.delivered

  module _ (batch_size : ℕ) (station_id oybo_task pctrbo_task : Text) where
    received-IsConserved :
        (posting : Posting) (tx : Transaction) (s : Station) (task : Text)
        → IsConserved s
        → let (status, ack, batch, b') =
            handle_received batch_size (kept_transaction station_id posting tx) s.buffers in
          count_txs
            (with_accepted ack.accepted (some (kept_transaction station_id posting tx)) s.accepted)
          ≡ count_buffered b'
            + count_batches (with_batch task batch s.in_flight)
            + count_batches s.delivered
    received-IsConserved posting tx s task c =
        let tx' = kept_transaction station_id posting tx in
        let (remaining, batch, b') = add_transaction batch_size tx' s.buffers in
        elim (Bool-cases (is_refused tx')) [
          | inl e ↦ rw e c
          | inr e ↦ rw e (
              omega (
                arith,
                c,
                count-append (tx' ∷ []) s.accepted,
                count-add batch_size tx' s.buffers,
                count-with_batch task batch s.in_flight,
              ))
        ]

    refused-IsConserved :
        (task : Text) (kept : Option Transaction) (s : Station)
        → IsConserved s
        → count_txs (with_accepted false kept s.accepted)
          ≡ count_buffered s.buffers
            + count_batches (with_batch task [] s.in_flight)
            + count_batches s.delivered
    refused-IsConserved task none s c = c
    refused-IsConserved task (some tx) s c = c

    body-IsConserved :
        (posting : Posting) (body : Option Transaction) (s : Station)
        → IsConserved s
        → let (status, ack, batch, b') = handle_body batch_size station_id posting body s.buffers in
          let kept = kept_body batch_size station_id oybo_task pctrbo_task posting body in
          count_txs (with_accepted ack.accepted kept s.accepted)
          ≡ count_buffered b'
            + count_batches (
                with_batch
                  (batch_task batch_size station_id oybo_task pctrbo_task kept)
                  batch
                  s.in_flight)
            + count_batches s.delivered
    body-IsConserved posting none s c = c
    body-IsConserved posting (some tx) s c = received-IsConserved posting tx s _ c

    arrives-IsConserved :
        (posting : Posting) (s : Station)
        → IsConserved s
        → IsConserved (station_step batch_size station_id oybo_task pctrbo_task (arrives posting) s)
    unfolding station_step handle_transaction
    arrives-IsConserved posting s c =
        let kept = kept_body batch_size station_id oybo_task pctrbo_task posting posting.body in
        let task = batch_task batch_size station_id oybo_task pctrbo_task kept in
        if_both
          (λ (answer : ℕ × TransactionAck × List Transaction × Buffers).
            count_txs (with_accepted answer.1.accepted kept s.accepted)
            ≡ count_buffered answer.3
              + count_batches (with_batch task answer.2 s.in_flight)
              + count_batches s.delivered)
          posting.is_post _ _ (body-IsConserved posting posting.body s c)
          (refused-IsConserved task kept s c)

    settle-IsConserved :
        (query : Text → Result Text Text) (post : Text → List Transaction → Option Text)
        (found : Option ((Text × List Transaction) × List (Text × List Transaction))) (s : Station)
        → IsConserved s
        → count_batches s.in_flight ≡ taken found (count_batches s.in_flight)
        → IsConserved (settle batch_size station_id oybo_task pctrbo_task query post found s)
    unfolding forward_batch
    settle-IsConserved query post none s c e = c
    settle-IsConserved query post (some ((task, batch), others)) s c e =
        omega
          (arith, c, e, count-settled batch (posted post batch (query task)) s.buffers s.delivered)

    step-IsConserved :
        (event : StationEvent) (s : Station)
        → IsConserved s
        → IsConserved (station_step batch_size station_id oybo_task pctrbo_task event s)
    unfolding station_step
    step-IsConserved (arrives posting) s c = arrives-IsConserved posting s c
    step-IsConserved (settles n query post) s c =
        settle-IsConserved query post (remove_at n s.in_flight) s c (count-remove_at n s.in_flight)

    run-IsConserved :
        (events : List StationEvent) (s : Station)
        → IsConserved s
        → IsConserved (station_run batch_size station_id oybo_task pctrbo_task events s)
    unfolding station_run
    run-IsConserved [] s c = c
    run-IsConserved (event ∷ events) s c = run-IsConserved events _ (step-IsConserved event s c)

    -- Whatever requests arrive at a station after its start, and whenever and however the forwarding
    -- of its batches ends: of every kind of transaction it has accepted as many as are buffered, on
    -- the way in a batch, or delivered.
    pub station_run-conserves :
        (events : List StationEvent)
        → let s = station_run batch_size station_id oybo_task pctrbo_task events new_station in
          count_txs s.accepted
          ≡ count_buffered s.buffers + count_batches s.in_flight + count_batches s.delivered
    station_run-conserves events = run-IsConserved events new_station refl
