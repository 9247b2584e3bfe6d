-- ===== src/State/Filter/Laws.antt =====
-- List and Count against the log as a list of events.
use vortex_dispatch.Prelude.{
  Bool-cases, List, [], ap, append-nil, append_assoc, arith, if◌then◌else◌, inl, inr, length,
  length-append, pred, refl, select, suc, sym, take, zero, ℕ, ◌++◌, ◌+◌, ◌==◌, ◌∙◌, ◌∷◌, ◌≡◌,
}
use vortex_dispatch.State.Event.{Event}
use vortex_dispatch.State.Filter.{
  EventFilter, Line, append, corrupt, count_events, count_lines, event, list_events, passes,
  read_and_filter,
}

-- The events that the file holds.
abbrev pub events_of : List Line → List Event
events_of [] = []
events_of (corrupt ∷ ls) = events_of ls
events_of (event e ∷ ls) = e ∷ events_of ls

-- At most `n` entries, and all of them for 0.
abbrev pub limited : ℕ → List Event → List Event
limited n es = if n == 0 then es else take n es

module _ (f : EventFilter) where
  abbrev matching : List Line → List Event
  matching ls = select (passes f) (events_of ls)

  read_unlimited :
      (ls : List Line) (out : List Event)
      → f.limit ≡ 0
      → read_and_filter f ls out ≡ out ++ matching ls
  unfolding read_and_filter
  read_unlimited [] out h = sym (append-nil out)
  read_unlimited (corrupt ∷ ls) out h = read_unlimited ls out h
  read_unlimited (event e ∷ ls) out h = ground (
    arith,
    h,
    read_unlimited ls out h,
    read_unlimited ls (out ++ e ∷ []) h,
    append_assoc out (e ∷ []) (matching ls),
  )

  read_limited :
      (ls : List Line) (out : List Event) (room : ℕ)
      → f.limit ≡ length out + suc room
      → read_and_filter f ls out ≡ out ++ take (suc room) (matching ls)
  unfolding read_and_filter
  read_limited [] out room h = sym (append-nil out)
  read_limited (corrupt ∷ ls) out room h = read_limited ls out room h
  read_limited (event e ∷ ls) out zero h =
      ground (arith, h, read_limited ls out zero h, length-append out (e ∷ []))
  read_limited (event e ∷ ls) out (suc room) h = ground (
    arith,
    h,
    read_limited ls out (suc room) h,
    read_limited ls (out ++ e ∷ []) room (omega (arith, length-append out (e ∷ []))),
    length-append out (e ∷ []),
    append_assoc out (e ∷ []) (take (suc room) (matching ls)),
  )

  -- List returns the events of the log that pass the filter, in the order of the log, and only the
  -- first of them if the filter has a limit. Corrupt lines are skipped.
  pub list_events_exact : (ls : List Line) → list_events f ls ≡ limited f.limit (matching ls)
  unfolding list_events
  list_events_exact ls = elim (Bool-cases (f.limit == 0)) [
    | inl e ↦ rw e (read_unlimited ls [] (ground (arith, e)))
    | inr e ↦
        let pos : f.limit ≡ suc (pred f.limit) = ground (arith, e) in
        rw e (
          read_limited ls [] (pred f.limit) (omega arith)
          ∙ ap (λ n. take n (matching ls)) (sym pos))
  ]

  count_lines-length :
      (ls : List Line) (out : List Event)
      → count_lines f ls (length out) ≡ length (read_and_filter f ls out)
  unfolding count_lines read_and_filter
  count_lines-length [] out = refl
  count_lines-length (corrupt ∷ ls) out = count_lines-length ls out
  count_lines-length (event e ∷ ls) out = ground (
    arith,
    count_lines-length ls out,
    count_lines-length ls (out ++ e ∷ []),
    length-append out (e ∷ []),
  )

  -- Count agrees with List on every log and filter, limits and corrupt lines included.
  pub count_events-list_events : (ls : List Line) → count_events f ls ≡ length (list_events f ls)
  unfolding count_events list_events
  count_events-list_events ls = count_lines-length ls []

  pub events_of-append :
      (ls : List Line) (e : Event) → events_of (append e ls) ≡ events_of ls ++ e ∷ []
  unfolding append
  events_of-append [] e = refl
  events_of-append (corrupt ∷ ls) e = events_of-append ls e
  events_of-append (event d ∷ ls) e = rw (events_of-append ls e)
