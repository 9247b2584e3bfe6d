-- ===== src/Devdb/Tests.antt =====
-- Runs of the allocator, and the theorems on them.
use vortex_dispatch.Devdb.Ports.{
  Allocator, acquire, allocator, exhausted, granted, is_taken, lowest_free, new_allocator, pos,
  release, ℤ,
}
use vortex_dispatch.Devdb.Ports.Lowest.{
  IsAllocator, IsLowest, acquire-IsLowest, call_acquire, call_release, release-acquire, run_calls,
  run_calls-IsAllocator,
}
use vortex_dispatch.Prelude.{
  Option, String, [], arith, if◌then◌else◌, none, refl, some, str_eq, true, ℕ, ◌∷◌, ◌≡◌, ◌≤◌, ◌⊎◌,
}

abbrev two_ports : Allocator
two_ports = record { taken = 5000 ∷ []; start = 5000; end = 5001 }

program : Unit {0}
unfolding acquire lowest_free release new_allocator
program = tt

abbrev cut_range : String → Option (String × String)
cut_range range_spec = if str_eq range_spec "5000-5001" then some ("5000", "5001") else none

abbrev number : String → Option ℤ
number text =
    if str_eq text "5000"
    then some (pos 5000)
    else (if str_eq text "5001" then some (pos 5001) else none)

made :
    new_allocator cut_range (λ text. text) number "5000-5001"
    ≡ allocator (record { taken = []; start = 5000; end = 5001 })
unfolding program
made = refl

second_port :
    acquire two_ports ≡ granted 5001 (record { taken = 5001 ∷ 5000 ∷ []; start = 5000; end = 5001 })
unfolding program
second_port = refl

acquire-IsLowest_example :
    ((port : ℕ) × (acquire two_ports
        ≡ granted port (record two_ports { taken = port ∷ two_ports.taken }))
      × IsLowest two_ports port)
    ⊎ ((acquire two_ports ≡ exhausted)
        × ((q : ℕ) → two_ports.start ≤ q → q ≤ two_ports.end → is_taken two_ports.taken q ≡ true))
acquire-IsLowest_example = acquire-IsLowest two_ports

release-acquire_example :
    release 5001 (record { taken = 5001 ∷ 5000 ∷ []; start = 5000; end = 5001 }) ≡ two_ports
release-acquire_example = release-acquire two_ports 5001 _ second_port

two_ports-IsAllocator : IsAllocator two_ports
two_ports-IsAllocator = record { distinct = (refl, tt); in_range = λ q t. ground (arith, t) }

run_calls-IsAllocator_example :
    IsAllocator (run_calls two_ports (call_acquire ∷ call_release 5000 ∷ call_acquire ∷ []))
run_calls-IsAllocator_example =
    run_calls-IsAllocator two_ports (call_acquire ∷ call_release 5000 ∷ call_acquire ∷ [])
      two_ports-IsAllocator
