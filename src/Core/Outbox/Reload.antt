-- ===== src/Core/Outbox/Reload.antt =====
-- connectcore/clienttelemetry/outbox.go, `rewriteLocked` and `loadLocked`: a file that was rewritten
-- is read back.
use mathlib.Core.List.{append_assoc, append-nil}
use mathlib.Core.Path.{subst}
use openrung.Base.{
  ℕ, ◌+◌, ◌-◌, ◌≤◌, ◌≡◌, ◌≢◌, refl, sym, ap, ◌∙◌, Bool, true, false, not, ◌&&◌, ◌||◌, List, [], ◌∷◌,
  ◌++◌, Option, some, arith, leb, ◌==◌, length, take, drop, All, if_elim, map,
}
use openrung.Base.Space.{trim_start, skip_spaces, trim_start-brace}
use openrung.Base.Bytes.{Bytes, bytes_eq}
use openrung.Core.Outbox.Batch.{Event, Json, same, is_empty, is_application, sanitize, validate}
use openrung.Core.Outbox.{
  Outbox, Io, newest, split_lines, is_blank, terminated, decode_event, line_needs_scrub,
  parse_lines, parse_file, file_of, rewrite, adopt, load_file, load, outbox_max_queued,
}
use openrung.Core.Outbox.Queue.{new_outbox}

-- An event that a queue may hold: it has its identity fields and no attributes if it is an
-- application's, and JSON writes it as an object on one line that is read back as the event, has the
-- event's attributes and has none of the removed fields.
pub record Stored (j : Json) (e : Event) : Type 0 where
  pub named :
      (is_empty e.event_id || is_empty e.event || is_empty e.client_id || is_empty e.session_id)
      ≡ false
  pub clean : (is_application e && leb 1 (length e.attributes)) ≡ false
  pub text : Bytes
  pub printed : j.marshal e ≡ some text
  pub is_object : (rest : Bytes) × (text ≡ 123 ∷ rest)
  pub one_line : All (λ c. c ≢ 10) text
  pub read_back : j.unmarshal text ≡ some e
  pub none_removed : j.removed_fields text ≡ false
  pub attributes_read : j.attributes_in text ≡ length e.attributes

none_over : (n : ℕ) → n ≤ outbox_max_queued → n - outbox_max_queued ≡ 0
none_over n h = omega (arith, h)

newest_all : (es : List Event) → length es ≤ outbox_max_queued → newest es ≡ es
newest_all es h = ap (λ n. drop n es) (none_over (length es) h)

split_lines-line :
    (l w rest : Bytes)
    → All (λ c. c ≢ 10) w
    → split_lines l (w ++ (10 ∷ rest)) ≡ (l ++ w) ∷ split_lines [] rest
unfolding split_lines
split_lines-line l [] rest h = ap (λ p. p ∷ split_lines [] rest) (sym (append-nil l))
split_lines-line l (c ∷ cs) rest h =
    let n : (c == 10) ≡ false = ground (arith, h.0) in
    rw (n, split_lines)
      (split_lines-line (l ++ c ∷ []) cs rest h.1
        ∙ ap (λ p. p ∷ split_lines [] rest) (append_assoc l (c ∷ []) cs))

sanitize_clean :
    (e : Event) → (is_application e && leb 1 (length e.attributes)) ≡ false → sanitize e ≡ e
unfolding sanitize
sanitize_clean e h =
    if_elim (λ (x : Event). x ≡ e) (is_application e && leb 1 (length e.attributes))
      (λ y. absurd (ground arith)) (λ _. refl)

module _ (j : Json) where
  map-sanitize : (es : List Event) → All (Stored j) es → map sanitize es ≡ es
  map-sanitize [] h = refl
  map-sanitize (e ∷ es) h =
      ap (λ x. x ∷ map sanitize es) (sanitize_clean e h.0.clean)
      ∙ ap (λ r. e ∷ r) (map-sanitize es h.1)

  decode_event-text : (e : Event) (s : Stored j e) → decode_event j s.text ≡ some e
  unfolding decode_event validate
  decode_event-text e s =
      rw (s.read_back, decode_event)
        (if_elim (λ (o : Option Event). o ≡ some e)
          (is_empty e.event_id || is_empty e.event || is_empty e.client_id || is_empty e.session_id)
          (λ y. absurd (ground (arith, s.named))) (λ _. ap some (sanitize_clean e s.clean)))

  is_blank-text : (e : Event) (s : Stored j e) → is_blank s.text ≡ false
  unfolding is_blank
  is_blank-text e s = let (rest, p) = s.is_object in rw (p, trim_start-brace rest) refl

  no_scrub : (e : Event) (s : Stored j e) → line_needs_scrub j s.text e ≡ false
  unfolding line_needs_scrub
  no_scrub e s = rw (s.none_removed, s.attributes_read) (ground (arith, s.clean))

  parse_lines-line :
      (l : Bytes) (ls : List Bytes) (e : Event) (es : List Event) (n : ℕ)
      → is_blank l ≡ false
      → decode_event j l ≡ some e
      → line_needs_scrub j l e ≡ false
      → parse_lines j ls ≡ (es, false, n)
      → parse_lines j (l ∷ ls) ≡ (e ∷ es, false, n + 1)
  unfolding parse_lines
  parse_lines-line l ls e es n b d c h =
      rw (b, d, c, parse_lines)
        (ap (λ (r : List Event × Bool × ℕ). (e ∷ r.0, r.1 || false, r.2 + 1)) h)

  file_of-cons :
      (e : Event) (es : List Event) (s : Stored j e)
      → file_of j (e ∷ es) ≡ s.text ++ (10 ∷ file_of j es)
  unfolding file_of
  file_of-cons e es s = rw (s.printed, file_of) refl

  -- The text of a queue is read back, line by line.
  parse_lines-file_of :
      (es : List Event)
      → All (Stored j) es
      → parse_lines j (split_lines [] (file_of j es)) ≡ (es, false, length es)
  unfolding file_of split_lines parse_lines is_blank trim_start skip_spaces
  parse_lines-file_of [] h = refl
  parse_lines-file_of (e ∷ es) h =
      let s = h.0 in
      ap (λ r. parse_lines j (split_lines [] r)) (file_of-cons e es s)
      ∙ ap (parse_lines j) (split_lines-line [] s.text (file_of j es) (s.one_line))
      ∙ parse_lines-line s.text (split_lines [] (file_of j es)) e es (length es) (is_blank-text e s)
          (decode_event-text e s) (no_scrub e s) (parse_lines-file_of es h.1)
      ∙ ap (λ (n : ℕ). (e ∷ es, false, n)) (omega arith)

  terminated-line :
      (l : Bytes) (rest : Bytes)
      → (rest ≢ [] → terminated rest ≡ true)
      → terminated (l ++ (10 ∷ rest)) ≡ true
  unfolding terminated
  terminated-line [] [] h = refl
  terminated-line [] (c ∷ cs) h = h (λ p. cc)
  terminated-line (c ∷ []) rest h = terminated-line [] rest h
  terminated-line (c ∷ d ∷ l) rest h = terminated-line (d ∷ l) rest h

  terminated-file_of :
      (es : List Event) → All (Stored j) es → file_of j es ≢ [] → terminated (file_of j es) ≡ true
  unfolding file_of
  terminated-file_of [] h n = absurd (n refl)
  terminated-file_of (e ∷ es) h n =
      subst (λ r. terminated r ≡ true) (sym (file_of-cons e es h.0))
        (terminated-line h.0.text (file_of j es) (terminated-file_of es h.1))

  parse_file-object :
      (raw rest : Bytes) (r : List Event × Bool × ℕ)
      → raw ≡ 123 ∷ rest
      → terminated raw ≡ true
      → parse_lines j (split_lines [] raw) ≡ r
      → parse_file j raw ≡ (r.0, r.1 || false, r.2)
  unfolding parse_file bytes_eq
  parse_file-object raw rest r p t h =
      let q : same (take 1 raw) (91 ∷ []) ≡ false = rw (p) refl in
      rw (q, t, parse_file) (ap (λ (x : List Event × Bool × ℕ). (x.0, x.1 || false, x.2)) h)

  parse_file-file_of :
      (e : Event) (es : List Event)
      → All (Stored j) (e ∷ es)
      → (parse_file j (file_of j (e ∷ es)) ≡ (e ∷ es, false, length (e ∷ es)))
        × (file_of j (e ∷ es) ≢ [])
  parse_file-file_of e es h =
      let s = h.0 in
      let (rest, p) = s.is_object in
      let object : file_of j (e ∷ es) ≡ 123 ∷ (rest ++ (10 ∷ file_of j es)) =
        file_of-cons e es s ∙ ap (λ t. t ++ (10 ∷ file_of j es)) p in
      let full : file_of j (e ∷ es) ≢ [] = λ n. cc in
      (
        parse_file-object (file_of j (e ∷ es)) (rest ++ (10 ∷ file_of j es))
            (e ∷ es, false, length (e ∷ es)) object (terminated-file_of (e ∷ es) h full)
            (parse_lines-file_of (e ∷ es) h),
        full,
      )

  full_file : (raw : Bytes) → raw ≢ [] → is_empty raw ≡ false
  full_file [] h = absurd (h refl)
  full_file (c ∷ cs) h = refl

  -- What was read is taken over without a rewrite.
  adopt-clean :
      (io : Io) (o : Outbox) (es : List Event)
      → All (Stored j) es
      → length es ≤ outbox_max_queued
      → adopt j io o (es, false, length es)
        ≡ (record o { loaded = true; events = es; file_lines = length es }, true)
  unfolding adopt
  adopt-clean io o es h c =
      let all : newest (map sanitize es) ≡ es = ap newest (map-sanitize es h) ∙ newest_all es c in
      rw (all) (
        if_elim
          (λ (x : Outbox × Bool).
            x ≡ (record o { loaded = true; events = es; file_lines = length es }, true))
          (not (length es == length es)) (λ bad. absurd (ground arith)) (λ _. refl))

  load_file-file_of :
      (io : Io) (o : Outbox) (es : List Event)
      → All (Stored j) es
      → length es ≤ outbox_max_queued
      → io.read ≡ true
      → o.file ≡ file_of j es
      → load_file j io o ≡ (record o { loaded = true; events = es; file_lines = length es }, true)
  unfolding load_file file_of
  load_file-file_of io o [] h c r f =
      if_elim
        (λ (x : Outbox × Bool). x ≡ (record o { loaded = true; events = []; file_lines = 0 }, true))
        (not io.read) (λ bad. absurd (ground (arith, r)))
        (λ _.
          if_elim
            (λ (x : Outbox × Bool).
              x ≡ (record o { loaded = true; events = []; file_lines = 0 }, true))
            (is_empty o.file) (λ _. refl) (λ n. absurd (ground (arith, ap is_empty f))))
  load_file-file_of io o (e ∷ es) h c r f =
      let u : Outbox = record o { loaded = true; events = e ∷ es; file_lines = length (e ∷ es) } in
      let (parsed, full) = parse_file-file_of e es h in
      if_elim (λ (x : Outbox × Bool). x ≡ (u, true)) (not io.read)
        (λ bad. absurd (ground (arith, r)))
        (λ _.
          if_elim (λ (x : Outbox × Bool). x ≡ (u, true)) (is_empty o.file)
            (λ y. absurd (ground (arith, ap is_empty f, full_file (file_of j (e ∷ es)) full)))
            (λ _. ap (adopt j io o) (ap (parse_file j) f ∙ parsed) ∙ adopt-clean io o (e ∷ es) h c))

  -- Of a queue of at most 500 events that each have their identity fields, and no attributes if they
  -- are an application's: after a rewrite that succeeds, a new outbox that gets the lock and reads the
  -- file has the same events in the same order, and leaves the file as it is. The condition on each
  -- event's JSON is that it is written as a text that starts with a brace and has no line end, and
  -- that this text is read back as the same event, with as many attributes and no removed field.
  pub load-rewrite :
      (io : Io) (o : Outbox)
      → All (Stored j) o.events
      → length o.events ≤ outbox_max_queued
      → io.lock ≡ true
      → io.read ≡ true
      → load j io (new_outbox (rewrite j true o).0.file) ≡ (
        record {
          file = (rewrite j true o).0.file;
          locked = true;
          loaded = true;
          events = o.events;
          file_lines = length o.events;
          closed = false;
        },
        true,
      )
  unfolding load new_outbox rewrite
  load-rewrite io o h c lock r =
      if_elim
        (λ (x : Outbox × Bool). x ≡ (
          record {
            file = file_of j o.events;
            locked = true;
            loaded = true;
            events = o.events;
            file_lines = length o.events;
            closed = false;
          },
          true,
        ))
        io.lock
        (λ _.
          load_file-file_of io (record (new_outbox (file_of j o.events)) { locked = true }) o.events
            h c r refl)
        (λ bad. absurd (ground (arith, lock)))
