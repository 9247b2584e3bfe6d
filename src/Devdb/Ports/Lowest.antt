-- ===== src/Devdb/Ports/Lowest.antt =====
-- Which port an allocator hands out.
use vortex_dispatch.Devdb.Ports.{
  Acquired, Allocator, acquire, delete_port, exhausted, granted, is_taken, lowest_free, release,
}
use vortex_dispatch.Prelude.{
  Bool-cases, List, Option-cases, [], ap, ap₂, arith, false, inl, inr, none, not, refl, some, suc,
  sym, true, zero, ℕ, ◌&&◌, ◌+◌, ◌-◌, ◌<◌, ◌==◌, ◌∙◌, ◌∷◌, ◌≡◌, ◌≢◌, ◌≤◌, ◌⊎◌,
}

-- `port` is the first of the range that is free.
pub record IsLowest (a : Allocator) (port : ℕ) : Type 0 where
  pub from_start : a.start ≤ port
  pub to_end : port ≤ a.end
  pub free : is_taken a.taken port ≡ false
  pub lowest : (q : ℕ) → a.start ≤ q → q < port → is_taken a.taken q ≡ true

Nat-cases : (a b : ℕ) → (a ≡ b) ⊎ (a ≢ b)
Nat-cases a b = ground arith

lowest_free-found :
    (n start port : ℕ) (taken : List ℕ)
    → lowest_free n start taken ≡ some port
    → (start ≤ port)
      × (port < start + n)
      × (is_taken taken port ≡ false)
      × ((q : ℕ) → start ≤ q → q < port → is_taken taken q ≡ true)
unfolding lowest_free
lowest_free-found zero start port taken h = cc
lowest_free-found (suc n) start port taken h = elim (Bool-cases (is_taken taken start)) [
  | inl y ↦
      let (from, below, free, taken_below) =
        lowest_free-found n (start + 1) port taken (ground (arith, h, y)) in
      (
        omega (arith, from),
        omega (arith, below),
        free,
        λ q ge lt. elim (Nat-cases q start) [
          | inl same ↦ ap (is_taken taken) same ∙ y
          | inr other ↦ taken_below q (omega (arith, ge, other)) lt
        ],
      )
  | inr unused ↦
      let here : some start ≡ some port = ground (arith, h, unused) in
      let same : start ≡ port = cc here in
      (
        omega (arith, same),
        omega (arith, same),
        ap (is_taken taken) (sym same) ∙ unused,
        λ q ge lt. absurd (omega (arith, ge, lt, same)),
      )
]

lowest_free-none :
    (n start : ℕ) (taken : List ℕ)
    → lowest_free n start taken ≡ none
    → (q : ℕ) → start ≤ q
    → q < start + n
    → is_taken taken q ≡ true
unfolding lowest_free
lowest_free-none zero start taken h q from below = absurd (omega arith)
lowest_free-none (suc n) start taken h q from below = elim (Bool-cases (is_taken taken start)) [
  | inl y ↦ elim (Nat-cases q start) [
    | inl same ↦ ap (is_taken taken) same ∙ y
    | inr other ↦
        lowest_free-none n (start + 1) taken (ground (arith, h, y)) q (omega (arith, from, other))
          (omega (arith, below))
  ]
  | inr unused ↦ absurd (ground (arith, h, unused))
]

delete_port-free : (port : ℕ) (ts : List ℕ) → is_taken ts port ≡ false → delete_port port ts ≡ ts
delete_port-free port [] h = refl
delete_port-free port (t ∷ ts) h = ground (arith, delete_port-free port ts)

delete_port-taken :
    (port q : ℕ) (ts : List ℕ)
    → is_taken (delete_port port ts) q ≡ (not (port == q) && is_taken ts q)
delete_port-taken port q [] = ground arith
delete_port-taken port q (t ∷ ts) = ground (arith, delete_port-taken port q ts)

module _ (a : Allocator) where
  -- Acquire grants the lowest port of the range that is free, and marks it and no other. It is
  -- exhausted only if every port of the range is taken.
  pub acquire-IsLowest :
      ((port : ℕ) × (acquire a ≡ granted port (record a { taken = port ∷ a.taken }))
        × IsLowest a port)
      ⊎ ((acquire a ≡ exhausted) × ((q : ℕ) → a.start ≤ q → q ≤ a.end → is_taken a.taken q ≡ true))
  unfolding acquire
  acquire-IsLowest = elim (Option-cases (lowest_free (a.end + 1 - a.start) a.start a.taken)) [
    | inl full ↦ inr (
      rw (acquire, full) refl,
      λ q ge le. lowest_free-none _ _ _ full q ge (omega (arith, ge, le)),
    )
    | inr (port, there) ↦
        let (from, below, free, lowest) = lowest_free-found _ _ _ _ there in
        inl (
          port,
          rw (acquire, there) refl,
          record {
            from_start = from;
            to_end = omega (arith, below, from);
            free = free;
            lowest = lowest;
          },
        )
  ]

  -- Where a port was granted, releasing it gives back the allocator as it was.
  pub release-acquire : (port : ℕ) (b : Allocator) → acquire a ≡ granted port b → release port b ≡ a
  unfolding acquire release
  release-acquire port b h = elim acquire-IsLowest [
    | inl (p, given, l) ↦
        let same : p ≡ port = cc (given, h) in
        let left : record a { taken = p ∷ a.taken } ≡ b = cc (given, h) in
        let removed : delete_port p (p ∷ a.taken) ≡ a.taken =
          ground (arith, delete_port-free p a.taken l.free) in
        ap₂ release (sym same) (sym left) ∙ ap (λ ts. record a { taken = ts }) removed
    | inr (full, all) ↦ absurd (cc (full, h))
  ]

-- The calls that the clients make, in any order.
pub data Call : Type 0 where
  call_acquire : Call
  call_release : ℕ → Call

abbrev pub after_acquire : Allocator → Acquired → Allocator
after_acquire a exhausted = a
after_acquire a (granted port b) = b

abbrev pub run_calls : Allocator → List Call → Allocator
run_calls a [] = a
run_calls a (call_acquire ∷ cs) = run_calls (after_acquire a (acquire a)) cs
run_calls a (call_release port ∷ cs) = run_calls (release port a) cs

abbrev IsDistinctPorts : List ℕ → Type 0
IsDistinctPorts [] = Unit
IsDistinctPorts (t ∷ ts) = (is_taken ts t ≡ false) × IsDistinctPorts ts

-- The ports that are handed out are of the range, and no port is handed out twice.
pub record IsAllocator (a : Allocator) : Type 0 where
  pub distinct : IsDistinctPorts a.taken
  pub in_range : (q : ℕ) → is_taken a.taken q ≡ true → (a.start ≤ q) × (q ≤ a.end)

delete_port-IsDistinctPorts :
    (port : ℕ) (ts : List ℕ) → IsDistinctPorts ts → IsDistinctPorts (delete_port port ts)
delete_port-IsDistinctPorts port [] h = tt
delete_port-IsDistinctPorts port (t ∷ ts) h = elim (Bool-cases (t == port)) [
  | inl y ↦ rw (delete_port, y) (delete_port-IsDistinctPorts port ts h.1)
  | inr other ↦
      rw (delete_port, other)
        (ground (arith, delete_port-taken port t ts, h.0), delete_port-IsDistinctPorts port ts h.1)
]

release-IsAllocator : (port : ℕ) (a : Allocator) → IsAllocator a → IsAllocator (release port a)
unfolding release
release-IsAllocator port a h = record {
  distinct = delete_port-IsDistinctPorts port a.taken h.distinct;
  in_range = λ q t. h.in_range q (ground (arith, t, delete_port-taken port q a.taken));
}

acquire-IsAllocator : (a : Allocator) → IsAllocator a → IsAllocator (after_acquire a (acquire a))
acquire-IsAllocator a h = elim (acquire-IsLowest a) [
  | inl (port, given, l) ↦ rw given (record {
    distinct = (l.free, h.distinct);
    in_range = λ q t. elim (Bool-cases (port == q)) [
      | inl y ↦ ground (arith, y, l.from_start, l.to_end)
      | inr other ↦ h.in_range q (ground (arith, t, other))
    ];
  })
  | inr (full, all) ↦ rw full h
]

-- Whatever calls of Acquire and Release are made, the ports handed out stay distinct and in the
-- range, if they were so before.
pub run_calls-IsAllocator :
    (a : Allocator) (cs : List Call) → IsAllocator a → IsAllocator (run_calls a cs)
run_calls-IsAllocator a [] h = h
run_calls-IsAllocator a (call_acquire ∷ cs) h =
    run_calls-IsAllocator (after_acquire a (acquire a)) cs (acquire-IsAllocator a h)
run_calls-IsAllocator a (call_release port ∷ cs) h =
    run_calls-IsAllocator (release port a) cs (release-IsAllocator port a h)
