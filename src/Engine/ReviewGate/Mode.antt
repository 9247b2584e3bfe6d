-- ===== src/Engine/ReviewGate/Mode.antt =====
-- The review mode after an event has been appended to the log.
use vortex_dispatch.Engine.ReviewGate.{
  MergeConfig, configured_mode, last_mode, mode_of, of_type, resolve_mode,
}
use vortex_dispatch.Engine.Tier.{file_store}
use vortex_dispatch.Prelude.{
  Bool, Bool-cases, List, String, [], ap, append-nil, arith, false, if◌then◌else◌, inl, inr, none,
  not, refl, select, some, str_eq, sym, true, ℕ, ◌&&◌, ◌++◌, ◌∙◌, ◌∷◌, ◌≡◌,
}
use vortex_dispatch.State.Event.{Event, review_mode_set}
use vortex_dispatch.State.Filter.{EventFilter, Line, append, list_events, passes}
use vortex_dispatch.State.Filter.Laws.{events_of, events_of-append, limited, list_events_exact}

last_mode-append :
    (req_id : String) (es : List Event) (e : Event)
    → last_mode req_id (es ++ e ∷ [])
      ≡ (if str_eq (mode_of req_id e) "" then last_mode req_id es else some (mode_of req_id e))
last_mode-append req_id [] e = refl
last_mode-append req_id (d ∷ es) e = elim (Bool-cases (str_eq (mode_of req_id e) "")) [
  | inl y ↦ simp (last_mode-append req_id es e, y) refl
  | inr n ↦ simp (last_mode-append req_id es e, n) refl
]

select-append :
    (p : Event → Bool) (es : List Event) (e : Event)
    → select p (es ++ e ∷ []) ≡ select p es ++ (if p e then e ∷ [] else [])
select-append p [] e = refl
select-append p (d ∷ es) e = ground (arith, select-append p es e)

limited_zero : (n : ℕ) (es : List Event) → n ≡ 0 → limited n es ≡ es
limited_zero n es h = ground (arith, h)

unlimited :
    (f : EventFilter) (ls : List Line)
    → f.limit ≡ 0
    → list_events f ls ≡ select (passes f) (events_of ls)
unlimited f ls h =
    list_events_exact f ls ∙ limited_zero f.limit (select (passes f) (events_of ls)) h

list_events-append :
    (f : EventFilter) (ls : List Line) (e : Event)
    → f.limit ≡ 0
    → list_events f (append e ls) ≡ list_events f ls ++ (if passes f e then e ∷ [] else [])
list_events-append f ls e h =
    unlimited f (append e ls) h
    ∙ ap (select (passes f)) (events_of-append f ls e)
    ∙ select-append (passes f) (events_of ls) e
    ∙ ap (λ es. es ++ (if passes f e then e ∷ [] else [])) (sym (unlimited f ls h))

abbrev mode_in : String → MergeConfig → List Event → String
mode_in req_id cfg events = elim (last_mode req_id events) [
  | none ↦ configured_mode cfg
  | some mode ↦ mode
]

mode_in-append :
    (req_id : String) (cfg : MergeConfig) (b : Bool) (es : List Event) (e : Event)
    → mode_in req_id cfg (es ++ (if b then e ∷ [] else [])) ≡ (
        if b && not (str_eq (mode_of req_id e) "") then mode_of req_id e else mode_in req_id cfg es)
mode_in-append req_id cfg false es e = ap (mode_in req_id cfg) (append-nil es)
mode_in-append req_id cfg true es e = elim (Bool-cases (str_eq (mode_of req_id e) "")) [
  | inl y ↦ simp (mode_in, last_mode-append req_id es e, y) refl
  | inr n ↦ simp (mode_in, last_mode-append req_id es e, n) refl
]

-- When an event is appended to the log, the mode of a requirement becomes the mode that the event
-- sets for it, if it is a REVIEW_MODE_SET event of this requirement with a mode, and is as before
-- for any other event.
pub resolve_mode-append :
    (ls : List Line) (e : Event) (req_id : String) (cfg : MergeConfig)
    → resolve_mode (file_store (append e ls)) req_id cfg ≡ (
        if passes (of_type review_mode_set) e && not (str_eq (mode_of req_id e) "")
        then mode_of req_id e
        else resolve_mode (file_store ls) req_id cfg)
unfolding resolve_mode
resolve_mode-append ls e req_id cfg =
    ap (mode_in req_id cfg) (list_events-append (of_type review_mode_set) ls e refl)
    ∙ mode_in-append req_id cfg (passes (of_type review_mode_set) e)
        (list_events (of_type review_mode_set) ls) e
