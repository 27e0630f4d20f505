-- ===== src/Copper/Moves.antt =====
-- What a step of the copper's program does.
use rigel.Prelude.{
  ℕ, zero, suc, length, ◌+◌, ◌*◌, ◌<◌, ◌≡◌, ◌^◌, refl, ◌∙◌, arith, bit_and, Bool, true, false, not,
  ◌&&◌, any, leb, ◌==◌, u32, if◌then◌else◌, List, [], ◌∷◌,
}
use rigel.Copper.{CopperState, jump1}
use rigel.Copper.Program.{
  Outside, Machine, copper_owns_reg, service_step_program, copper_exec_move, custom_regs_write16,
  after_move, copper_regs_write, store_reg,
}

-- A MOVE instruction: the register and the value.
abbrev pub Move : Type 0
Move = ℕ × ℕ

-- The register is even and in the area, and neither blocked nor the copper's own.
abbrev pub is_plain : Bool → ℕ → Bool
is_plain danger reg =
    bit_and reg 0x1fe == reg
    && not (any reg 1)
    && leb (if danger then 0x40 else 0x80) reg
    && not (copper_owns_reg reg)

module _ {R : Type 0} (o : Outside R) where
  -- The instructions stand in chip RAM from `pc`.
  abbrev pub stands_at : R → ℕ → List Move → Bool
  stands_at r pc [] = true
  stands_at r pc ((reg, value) ∷ rest) =
      o.fetch16 r pc == reg && o.fetch16 r (pc + 2) == value && stands_at r (pc + 4) rest

  abbrev pub all_plain : Bool → List Move → Bool
  all_plain danger [] = true
  all_plain danger ((reg, value) ∷ rest) = is_plain danger reg && all_plain danger rest

  -- The writes of the program, in order, each with the mark of the frame.
  abbrev pub writes : R → List Move → R
  writes r [] = r
  writes r ((reg, value) ∷ rest) = writes (o.write16 (o.mark_active r) reg value) rest

  unfoldable pub steps : ℕ → Machine R → Machine R
  unfolding service_step_program
  steps zero m = m
  steps (suc n) m = steps n (service_step_program o m)

-- The copper may fetch.
pub record IsReady (c : CopperState) : Type 0 where
  pub on : c.enabled ≡ true
  pub pending : c.fetch_pending ≡ true
  pub not_stopped : c.stopped_until_vbl ≡ false

abbrev pub danger_of : CopperState → Bool
danger_of c = any c.copcon 0x0002

module _ {R : Type 0} (o : Outside R) where
  abbrev moved_on : CopperState → ℕ → CopperState
  moved_on c pc = record c {
    program_counter = pc;
    triggered = true;
    event_latched = true;
    fetch_pending = true;
  }

  exec_plain :
      (m : Machine R) (reg value : ℕ)
      → is_plain (danger_of m.copper) reg ≡ true
      → copper_exec_move o m reg value
        ≡ record m { rest = o.write16 (o.mark_active m.rest) reg value }
  unfolding copper_exec_move custom_regs_write16
  exec_plain m reg value plain = ground arith

  -- The step at a MOVE, whatever its register.
  move_step :
      (m : Machine R) (reg value : ℕ)
      → IsReady m.copper
      → m.copper.program_counter + 4 < 2 ^ 32
      → o.fetch16 m.rest m.copper.program_counter ≡ reg
      → o.fetch16 m.rest (m.copper.program_counter + 2) ≡ value
      → any reg 1 ≡ false
      → service_step_program o m
        ≡ after_move o m.copper.program_counter (
            copper_exec_move o
              (record m { copper = record (m.copper) { fetch_pending = false } })
              reg
              value)
  unfolding service_step_program
  move_step m reg value r fits f1 f2 even =
      let e : u32 (m.copper.program_counter + 2) ≡ m.copper.program_counter + 2 = omega arith in
      rw (r.not_stopped, r.on, r.pending, e, f1, f2, even) refl

  plain_move :
      (m : Machine R) (reg value : ℕ)
      → IsReady m.copper
      → m.copper.program_counter + 4 < 2 ^ 32
      → o.fetch16 m.rest m.copper.program_counter ≡ reg
      → o.fetch16 m.rest (m.copper.program_counter + 2) ≡ value
      → is_plain (danger_of m.copper) reg ≡ true
      → service_step_program o m ≡ record {
        copper = moved_on m.copper (m.copper.program_counter + 4);
        rest = o.write16 (o.mark_active m.rest) reg value;
      }
  unfolding after_move
  plain_move m reg value r fits f1 f2 plain =
      let fetched = record m { copper = record (m.copper) { fetch_pending = false } } in
      rw (move_step m reg value r fits f1 f2 (ground arith), exec_plain fetched reg value plain)
        (ground (arith, r.not_stopped))

  -- The words of a program stay where they are when the registers are written.
  abbrev pub KeepsMemory : Type 0
  KeepsMemory =
      (r : R) (reg value a : ℕ)
      → o.fetch16 (o.write16 (o.mark_active r) reg value) a ≡ o.fetch16 r a

  kept_program :
      (r : R) (reg value pc : ℕ) (ms : List Move)
      → KeepsMemory
      → stands_at o (o.write16 (o.mark_active r) reg value) pc ms ≡ stands_at o r pc ms
  kept_program r reg value pc [] k = refl
  kept_program r reg value pc ((reg2, value2) ∷ ms) k =
      rw (k r reg value pc, k r reg value (pc + 2), kept_program r reg value (pc + 4) ms k) refl

  -- For a copper that is ready to fetch, and a program of MOVEs in chip RAM at its program
  -- counter, below address 2 ^ 32, to registers that are neither blocked nor the copper's own,
  -- where writes to registers leave chip RAM alone: as many steps write exactly its values in its
  -- order, each with the mark of the frame, and leave the copper ready, with the program counter
  -- behind the program.
  pub steps-writes :
      (m : Machine R) (ms : List Move)
      → KeepsMemory
      → IsReady m.copper
      → m.copper.program_counter + 4 * length ms < 2 ^ 32
      → stands_at o m.rest m.copper.program_counter ms ≡ true
      → all_plain o (danger_of m.copper) ms ≡ true
      → let t = steps o (length ms) m in
        (t.rest ≡ writes o m.rest ms)
        × (t.copper.program_counter ≡ m.copper.program_counter + 4 * length ms)
        × IsReady t.copper
  unfolding steps
  steps-writes m [] k r fits there plain = (refl, omega arith, r)
  steps-writes m ((reg, value) ∷ ms) k r fits there plain =
      let pc = m.copper.program_counter in
      let next : Machine R = record {
        copper = moved_on m.copper (pc + 4);
        rest = o.write16 (o.mark_active m.rest) reg value;
      } in
      let one : service_step_program o m ≡ next =
        plain_move m reg value r (omega arith) (ground arith) (ground arith) (ground arith) in
      let rest =
        steps-writes next ms k (record { on = r.on; pending = refl; not_stopped = r.not_stopped })
          (omega arith) (kept_program m.rest reg value (pc + 4) ms k ∙ (ground arith))
          (ground arith) in
      rw (steps, one) (rest.0, rest.1 ∙ (omega arith), rest.2)

  stopped_stays : (n : ℕ) (m : Machine R) → m.copper.stopped_until_vbl ≡ true → steps o n m ≡ m
  unfolding steps service_step_program
  stopped_stays zero m h = refl
  stopped_stays (suc n) m h =
      let e : service_step_program o m ≡ m = ground arith in rw e (stopped_stays n m h)

  exec_blocked :
      (m : Machine R) (reg value : ℕ)
      → bit_and reg 0x1fe < (if danger_of m.copper then 0x40 else 0x80)
      → copper_exec_move o m reg value ≡ record m {
        copper = record (m.copper) {
          waiting = false;
          fetch_pending = false;
          stopped_until_vbl = true;
        };
      }
  unfolding copper_exec_move
  exec_blocked m reg value low = ground arith

  -- For a copper that is ready to fetch a MOVE, below address 2 ^ 32, to a register that is
  -- blocked, below 0x80, or below 0x40 with CDANG: the step writes nothing and stops the copper,
  -- and neither it nor any number of further steps moves the program counter or touches the rest
  -- of the machine.
  pub blocked_move :
      (m : Machine R) (reg value n : ℕ)
      → IsReady m.copper
      → m.copper.program_counter + 4 < 2 ^ 32
      → o.fetch16 m.rest m.copper.program_counter ≡ reg
      → o.fetch16 m.rest (m.copper.program_counter + 2) ≡ value
      → any reg 1 ≡ false
      → bit_and reg 0x1fe < (if danger_of m.copper then 0x40 else 0x80)
      → ((steps o (suc n) m).rest ≡ m.rest)
        × ((steps o (suc n) m).copper.stopped_until_vbl ≡ true)
        × ((steps o (suc n) m).copper.program_counter ≡ m.copper.program_counter)
  unfolding steps after_move
  blocked_move m reg value n r fits f1 f2 even low =
      let fetched = record m { copper = record (m.copper) { fetch_pending = false } } in
      let stopped = record m {
        copper = record (m.copper) {
          waiting = false;
          fetch_pending = false;
          stopped_until_vbl = true;
        };
      } in
      let one : service_step_program o m ≡ stopped =
        move_step m reg value r fits f1 f2 even ∙ (rw (exec_blocked fetched reg value low) refl) in
      rw (steps, one, stopped_stays n stopped refl) (refl, refl, refl)

  -- For a copper that is ready to fetch a MOVE to COPJMP1, below address 2 ^ 32: it continues at
  -- COP1LC, except where COP1LC is the place of this very MOVE: then it does not jump, but goes on
  -- behind it. It is ready afterwards.
  jump1_step :
      (m : Machine R) (value : ℕ)
      → IsReady m.copper
      → m.copper.program_counter + 4 < 2 ^ 32
      → o.fetch16 m.rest m.copper.program_counter ≡ 0x88
      → o.fetch16 m.rest (m.copper.program_counter + 2) ≡ value
      → let t = service_step_program o m in
        (t.copper.program_counter ≡ (
          if m.copper.cop1lc == m.copper.program_counter
          then m.copper.program_counter + 4
          else m.copper.cop1lc))
        × IsReady t.copper
  unfolding after_move copper_exec_move custom_regs_write16 copper_owns_reg copper_regs_write
      store_reg jump1 any
  jump1_step m value r fits f1 f2 = rw (move_step m 0x88 value r fits f1 f2 refl) (
    ground (arith, r.not_stopped),
    record {
      on = ground (arith, r.on, r.not_stopped);
      pending = ground (arith, r.on, r.not_stopped);
      not_stopped = ground (arith, r.on, r.not_stopped);
    },
  )
