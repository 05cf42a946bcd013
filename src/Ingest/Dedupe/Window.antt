-- ===== src/Ingest/Dedupe/Window.antt =====
-- Forgetting old keys changes no answer of the duplicate filter (internal/ingest/dedupe.go).
use agent_action_visualizer.Prelude.Dict.{
  IsDistinct, filter_value, lookup, retain-IsDistinct, put, put-IsDistinct, lookup-retain,
  lookup-put,
}
use agent_action_visualizer.Prelude.Time.{max_duration, sub_time}
use agent_action_visualizer.Prelude.{
  inl, inr, ℕ, ◌+◌, Bool, true, false, Option, none, some, List, [], ◌∷◌, leb, if◌then◌else◌, Text,
  text_eq, ◌≤◌, ◌≡◌, ◌*◌, ◌⊎◌, pos, ◌<◌, ltb_ℤ, arith, refl, not, Bool-cases, sym, ◌∙◌, ap,
}
use agent_action_visualizer.Protocol.Event.{Event}
use agent_action_visualizer.Ingest.Dedupe.{
  Deduper, key_of, duplicate, is_recent, double, note, new_deduper,
}

-- The answers of the filter to a stream of events, each with the time of its arrival.
unfoldable pub answers : Deduper → List (Event × ℕ) → List Bool
answers d [] = []
answers d ((ev, now) ∷ rest) = (duplicate d ev now).1 ∷ answers (duplicate d ev now).0 rest

abbrev pub within : ℕ → ℕ → Option ℕ → Bool
within window now none = false
within window now (some t) = leb now (t + window)

abbrev pub remember : Text → ℕ → (Text → Option ℕ) → Text → Option ℕ
remember key now memory k = if text_eq key k then some now else memory k

-- A filter that remembers for every key when it was last let through, for ever.
unfoldable pub ideal_answers : ℕ → (Text → Option ℕ) → List (Event × ℕ) → List Bool
ideal_answers window memory [] = []
ideal_answers window memory ((ev, now) ∷ rest) =
    let repeat = ideal_answers window memory rest in
    let fresh = ideal_answers window (remember (key_of ev) now memory) rest in
    if within window now (memory (key_of ev)) then true ∷ repeat else false ∷ fresh

-- The arrival times do not fall.
abbrev pub IsMonotone : ℕ → List (Event × ℕ) → Type 0
IsMonotone before [] = Unit {0}
IsMonotone before ((ev, now) ∷ rest) = (before ≤ now) × IsMonotone now rest

-- What the filter knows of a key: all, or it has forgotten a time more than two windows ago.
abbrev Knows : ℕ → ℕ → Option ℕ → Option ℕ → Type 0
Knows window now known truth =
    (known ≡ truth) ⊎ ((known ≡ none) × ((t : ℕ) × (truth ≡ some t) × (t + 2 * window < now)))

record Agrees (window now : ℕ) (d : Deduper) (memory : Text → Option ℕ) : Type 0 where
  same_window : d.window ≡ pos window
  distinct : IsDistinct d.seen
  knows : (k : Text) → Knows window now (lookup k d.seen) (memory k)

duplicate_repeat :
    (d : Deduper) (ev : Event) (now : ℕ)
    → is_recent d.window now (lookup (key_of ev) d.seen) ≡ true
    → duplicate d ev now ≡ (d, true)
unfolding duplicate
duplicate_repeat d ev now e = rw e

duplicate_fresh :
    (d : Deduper) (ev : Event) (now : ℕ)
    → is_recent d.window now (lookup (key_of ev) d.seen) ≡ false
    → duplicate d ev now ≡ (note d (key_of ev) now, false)
unfolding duplicate
duplicate_fresh d ev now e = rw e

module _ (window : ℕ) (small : 2 * window ≤ max_duration) where
  recent-within :
      (before now : ℕ) (known truth : Option ℕ)
      → before ≤ now
      → Knows window before known truth
      → is_recent (pos window) now known ≡ within window now truth
  unfolding is_recent sub_time
  recent-within before now known truth later (inl e) = rw e (same truth)
    where
      same : (o : Option ℕ) → is_recent (pos window) now o ≡ within window now o
      same none = refl
      same (some t) = ground arith
  recent-within before now known truth later (inr (gone, (t, at, old))) = ground (arith, gone, at)

  fresh_entry : (now : ℕ) → ltb_ℤ (double (pos window)) (sub_time now now) ≡ false
  unfolding double sub_time
  fresh_entry now = ground arith

  old_entry :
      (now t : ℕ) → ltb_ℤ (double (pos window)) (sub_time now t) ≡ true → t + 2 * window < now
  unfolding double sub_time
  old_entry now t e = ground arith

  Knows-filter :
      (before now : ℕ) (known truth : Option ℕ)
      → before ≤ now
      → Knows window before known truth
      → Knows window now
          (filter_value (λ t. not (ltb_ℤ (double (pos window)) (sub_time now t))) known)
          truth
  Knows-filter before now none truth later (inl e) = inl e
  Knows-filter before now (some t) truth later (inl e) =
      elim (Bool-cases (ltb_ℤ (double (pos window)) (sub_time now t))) [
        | inl old ↦ inr (ground (arith, old), (t, sym e, old_entry now t old))
        | inr kept ↦ inl (ground (arith, kept, e))
      ]
  Knows-filter before now known truth later (inr (gone, (t, at, old))) =
      inr (rw gone refl, (t, at, omega arith))

  noted :
      (now : ℕ) (key k : Text) (known truth : Option ℕ)
      → Knows window now
          (filter_value (λ t. not (ltb_ℤ (double (pos window)) (sub_time now t))) known)
          truth
      → Knows window now
          (filter_value
            (λ t. not (ltb_ℤ (double (pos window)) (sub_time now t)))
            (if text_eq key k then some now else known))
          (if text_eq key k then some now else truth)
  noted now key k known truth h = elim (Bool-cases (text_eq key k)) [
    | inl same ↦ rw same (inl (ground (arith, fresh_entry now)))
    | inr differs ↦ rw differs h
  ]

  note-Agrees :
      (before now : ℕ) (d : Deduper) (memory : Text → Option ℕ) (key : Text)
      → before ≤ now
      → Agrees window before d memory
      → Agrees window now (note d key now) (remember key now memory)
  unfolding note
  note-Agrees before now d memory key later a = record {
    same_window = a.same_window;
    distinct = retain-IsDistinct _ (put key now d.seen) (put-IsDistinct key now d.seen a.distinct);
    knows = λ k.
        rw (lookup-retain _ k (put key now d.seen) (put-IsDistinct key now d.seen a.distinct)) (
          rw (lookup-put key k now d.seen) (
            rw a.same_window (
              noted now key k (lookup k d.seen) (memory k)
                (Knows-filter before now (lookup k d.seen) (memory k) later (a.knows k)))));
  }

  Agrees-later :
      (before now : ℕ) (d : Deduper) (memory : Text → Option ℕ)
      → before ≤ now
      → Agrees window before d memory
      → Agrees window now d memory
  Agrees-later before now d memory later a = record {
    same_window = a.same_window;
    distinct = a.distinct;
    knows = λ k. elim (a.knows k) [
      | inl e ↦ inl e
      | inr (gone, (t, at, old)) ↦ inr (gone, (t, at, omega arith))
    ];
  }

  answers-ideal_answers_from :
      (before : ℕ) (d : Deduper) (memory : Text → Option ℕ) (stream : List (Event × ℕ))
      → Agrees window before d memory
      → IsMonotone before stream
      → answers d stream ≡ ideal_answers window memory stream
  unfolding answers ideal_answers
  answers-ideal_answers_from before d memory [] a m = refl
  answers-ideal_answers_from before d memory ((ev, now) ∷ rest) a m =
      let test : is_recent d.window now (lookup (key_of ev) d.seen)
          ≡ within window now (memory (key_of ev)) =
        rw a.same_window (
          recent-within before now (lookup (key_of ev) d.seen) (memory (key_of ev)) m.0
            (a.knows (key_of ev))) in
      let old =
        answers-ideal_answers_from now d memory rest (Agrees-later before now d memory m.0 a) m.1 in
      let new =
        answers-ideal_answers_from now (note d (key_of ev) now) (remember (key_of ev) now memory)
          rest (note-Agrees before now d memory (key_of ev) m.0 a) m.1 in
      elim (Bool-cases (within window now (memory (key_of ev)))) [
        | inl repeated ↦
            rw (repeated, duplicate_repeat d ev now (test ∙ repeated)) (ap (◌∷◌ true) old)
        | inr fresh ↦ rw (fresh, duplicate_fresh d ev now (test ∙ fresh)) (ap (◌∷◌ false) new)
      ]

-- With a window that is not negative and not half of what a Duration holds, on a clock that does
-- not run backwards, a new filter calls an event a duplicate exactly when an event of its key was
-- let through within the window before, however many keys the filter has forgotten since.
pub answers-ideal_answers :
    (window : ℕ) (stream : List (Event × ℕ))
    → 2 * window ≤ max_duration
    → IsMonotone 0 stream
    → answers (new_deduper (pos window)) stream ≡ ideal_answers window (λ k. none) stream
unfolding new_deduper
answers-ideal_answers window stream small m =
    answers-ideal_answers_from window small 0 (new_deduper (pos window)) (λ k. none) stream
      (record { same_window = refl; distinct = tt; knows = λ k. inl (unfold lookup in refl) }) m
