-- ===== src/Core/Outbox/Ends.antt =====
-- connectcore/clienttelemetry/outbox.go and manager.go: the cap of the queue, and the end of the loop
-- that drains it.
use mathlib.Core.Path.{subst}
use openrung.Base.{
  ℕ, zero, suc, ◌-◌, ◌≤◌, ◌<◌, ◌≡◌, ◌≢◌, refl, ap, ◌∙◌, inl, inr, Bool, true, false, not, ◌||◌,
  List, [], ◌∷◌, Option, none, some, arith, ◌==◌, if◌then◌else◌, length, length-drop, if_elim, map,
}
use openrung.Core.Outbox.Batch.{Event, Json, is_empty, sanitize}
use openrung.Core.Outbox.{
  Outbox, Io, newest, load, load_file, adopt, rewrite, parse_file, outbox_max_queued,
}
use openrung.Core.Outbox.Queue.{
  Delivery, FlushError, outbox_closed, outbox_unavailable, invalid_event, batch_rejected,
  send_failed, Report, flush_next_batch, Drained, drained, end_of, drain,
}
use openrung.Core.Outbox.Drain.{IsReady, Shorter, flush_queue-Flushed}

-- A queue that has at most the events of the cap.
abbrev pub IsCapped : Outbox → Type 0
IsCapped o = length o.events ≤ outbox_max_queued

newest_cap : (es : List Event) → length (newest es) ≤ outbox_max_queued
newest_cap es = omega (arith, length-drop (length es - outbox_max_queued) es)

module _ (j : Json) where
  -- What a load of an outbox gives: a queue under the cap, and one that is loaded if it succeeds.
  abbrev pub Loads : Outbox → Outbox × Bool → Type 0
  Loads o (u, ready) = (u.closed ≡ o.closed) × IsCapped u × (ready ≡ true → u.loaded ≡ true)

  adopt-Loads :
      (io : Io) (o : Outbox) (parsed : List Event × Bool × ℕ) → Loads o (adopt j io o parsed)
  unfolding adopt rewrite
  adopt-Loads io o (parsed, dirty, n) =
      let es = newest (map sanitize parsed) in
      let cap = newest_cap (map sanitize parsed) in
      if_elim (Loads o) (dirty || not (n == length es))
        (λ _.
          elim io.repair
            as (λ b. Loads o (elim b as (λ _. Outbox × Bool) [
              | true ↦
                  rewrite j true (record o { loaded = true; events = es; file_lines = length es })
              | false ↦ (record o { loaded = false; events = []; file_lines = 0 }, false)
            ])) [ true ↦ (refl, cap, λ _. refl) | false ↦ (refl, omega arith, λ p. cc) ])
        (λ _. (refl, cap, λ _. refl))

  load_file-Loads : (io : Io) (o : Outbox) → IsCapped o → Loads o (load_file j io o)
  unfolding load_file
  load_file-Loads io o h =
      if_elim (Loads o) (not io.read) (λ _. (refl, h, λ p. cc))
        (λ _.
          if_elim (Loads o) (is_empty o.file) (λ _. (refl, omega arith, λ _. refl))
            (λ _. adopt-Loads io o (parse_file j o.file)))

  pub load-Loads : (io : Io) (o : Outbox) → IsCapped o → Loads o (load j io o)
  unfolding load
  load-Loads io o h =
      if_elim (Loads o) o.loaded (λ y. (refl, h, λ _. y))
        (λ _.
          if_elim (Loads o) o.locked (λ _. load_file-Loads io o h)
            (λ _.
              if_elim (Loads o) io.lock (λ _. load_file-Loads io (record o { locked = true }) h)
                (λ _. (refl, h, λ p. cc))))

  -- What a flush without a failure leaves of what was loaded.
  abbrev Turned : List Event → Outbox × Report → Type 0
  Turned es (u, r) =
      r.failure ≡ none → IsReady u × (r.pending ≡ length u.events) × Shorter u.events es

  flush-Turned :
      (io : Io) (valid_url : Bool) (send : List Event → Delivery) (o : Outbox)
      → IsCapped o
      → Turned (load j io o).0.events (flush_next_batch j io valid_url send (λ x. x) o)
  unfolding flush_next_batch
  flush-Turned io valid_url send o h =
      let (u, ready) = load j io o in
      let l = load-Loads io o h in
      if_elim (Turned u.events) o.closed (λ _ p. cc)
        (λ c.
          if_elim (Turned u.events) ready
            (λ y p.
              let f = flush_queue-Flushed j io valid_url send u (l.2 y, l.0 ∙ c) in
              (f.0, (f.1 p).0, (f.1 p).1))
            (λ _ p. cc))

  load_ready : (io : Io) (o : Outbox) → o.loaded ≡ true → (load j io o).0 ≡ o
  unfolding load
  load_ready io o h =
      if_elim (λ (r : Outbox × Bool). r.0 ≡ o) o.loaded (λ _. refl) (λ n. absurd (ground arith))

  -- The loop ended, and at an empty queue if it says so.
  abbrev pub HasEnded : Option (Outbox × Drained) → Type 0
  HasEnded none = ⊥
  HasEnded (some (u, d)) = d ≡ drained → u.events ≡ []

  end_of-drained : (e : FlushError) → end_of e ≢ drained
  unfolding end_of
  end_of-drained outbox_closed p = cc
  end_of-drained outbox_unavailable p = cc
  end_of-drained invalid_event p = cc
  end_of-drained batch_rejected p = cc
  end_of-drained send_failed p = cc

  empty_queue : (es : List Event) → length es ≡ 0 → es ≡ []
  empty_queue [] h = refl
  empty_queue (e ∷ es) h = absurd (omega (arith, h))

  -- One turn, when the next ones end.
  turn_ends :
      (es : List Event) (u : Outbox) (r : Report) (rest : Option (Outbox × Drained))
      → Turned es (u, r)
      → (IsReady u → length u.events < length es → HasEnded rest)
      → HasEnded (elim r.failure as (λ _. Option (Outbox × Drained)) [
        | some e ↦ some (u, end_of e)
        | none ↦ if r.pending == 0 then some (u, drained) else rest
      ])
  turn_ends es u r rest t k =
      elim r.failure
          as (λ x.
            (x ≡ none → IsReady u × (r.pending ≡ length u.events) × Shorter u.events es)
            → HasEnded (elim x as (λ _. Option (Outbox × Drained)) [
              | some e ↦ some (u, end_of e)
              | none ↦ if r.pending == 0 then some (u, drained) else rest
            ])) [
              | some e ↦ λ _ p. absurd (end_of-drained e p)
              | none ↦ λ f.
                  let q = f refl in
                  if_elim HasEnded (r.pending == 0)
                    (λ z _. empty_queue u.events (ground (arith, q.1)))
                    (λ z. elim q.2 [
                      | inl n ↦ absurd (ground (arith, q.1, ap length n))
                      | inr lt ↦ k q.0 lt
                    ])
            ]
        t

  drain_ready :
      (turns : ℕ) (io : ℕ → Io) (valid_url : Bool) (send : ℕ → List Event → Delivery) (o : Outbox)
      → IsReady o
      → IsCapped o
      → length o.events < turns
      → HasEnded (drain j turns io valid_url send o)
  unfolding drain
  drain_ready zero io valid_url send o h c le = absurd (omega (arith, le))
  drain_ready (suc n) io valid_url send o h c le =
      let (u, r) = flush_next_batch j (io n) valid_url (send n) (λ x. x) o in
      turn_ends o.events u r (drain j n io valid_url send u)
        (subst (λ x. Turned x.events (u, r)) (load_ready (io n) o h.0)
          (flush-Turned (io n) valid_url (send n) o c))
        (λ q lt. drain_ready n io valid_url send u q (omega (arith, lt, c)) (omega (arith, lt, le)))

  drain_capped :
      (n : ℕ) (io : ℕ → Io) (valid_url : Bool) (send : ℕ → List Event → Delivery) (o : Outbox)
      → IsCapped o
      → outbox_max_queued < n
      → HasEnded (drain j (suc n) io valid_url send o)
  unfolding drain
  drain_capped n io valid_url send o c le =
      let (u, r) = flush_next_batch j (io n) valid_url (send n) (λ x. x) o in
      let l = load-Loads (io n) o c in
      turn_ends (load j (io n) o).0.events u r (drain j n io valid_url send u)
        (flush-Turned (io n) valid_url (send n) o c)
        (λ q lt.
          drain_ready n io valid_url send u q (omega (arith, lt, l.1)) (omega (arith, lt, le, l.1)))

  -- Whatever the file system, the address and the send answer on each turn, the loop of `Flush` over
  -- the store ends within 502 turns, where no other caller uses the outbox meanwhile, the outbox may
  -- or may not have read its file, and its queue is under the cap. If the loop ends without an
  -- error, the queue is empty.
  pub drain-HasEnded :
      (io : ℕ → Io) (valid_url : Bool) (send : ℕ → List Event → Delivery) (o : Outbox)
      → IsCapped o
      → HasEnded (drain j 502 io valid_url send o)
  drain-HasEnded io valid_url send o c = drain_capped 501 io valid_url send o c (omega arith)
