-- ===== src/Interrupt/Tests.antt =====
-- The interrupt controller on concrete registers.
use rigel.Prelude.{◌≡◌, refl, true, false, List, [], ◌∷◌, arith}
use rigel.Prelude.Bits.{testbit}
use rigel.Interrupt.{InterruptDomain, current_ipl, reset, raise, clear, write_intena, write_intreq}
use rigel.Interrupt.Priority.{IsHighest}
use rigel.Interrupt.Registers.{Op, intena, irq_raise, poke, run, run-IsHighest, register_bits}

abbrev idle : InterruptDomain
idle = record { intena = 0; intreq = 0; ipl = 0 }

-- Enable the master, PORTS and BLIT; raise both; acknowledge BLIT through INTREQ.
abbrev session : List Op
session = intena 0xc048 ∷ irq_raise 0x0008 ∷ irq_raise 0x0040 ∷ poke 0x09c 0x0040 ∷ []

session_level : current_ipl (run idle session) ≡ 2
unfolding current_ipl run
session_level = refl

run-IsHighest_example :
    IsHighest (run (reset idle) session) (current_ipl (run (reset idle) session))
run-IsHighest_example = run-IsHighest idle session

abbrev busy : InterruptDomain
busy = record { intena = 0x4008; intreq = 0x0048; ipl = 2 }

register_bits_example :
    (testbit (write_intena busy 0x8040).intena 6 ≡ true)
    × (testbit (write_intreq busy 0x8040).intreq 6 ≡ true)
    × (testbit (raise busy 0x8040).intreq 6 ≡ true)
    × (testbit (clear busy 0x8040).intreq 6 ≡ false)
    × ((write_intena busy 0x8040).intreq ≡ 0x48)
    × ((write_intreq busy 0x8040).intena ≡ 0x4008)
    × ((raise busy 0x8040).intena ≡ 0x4008)
    × ((clear busy 0x8040).intena ≡ 0x4008)
unfolding testbit
register_bits_example = register_bits busy 0x8040 6 (omega arith)
