-- ===== src/Lib.antt =====
-- The chipset of Rigel: a model of the parts of an Amiga chipset in C that carry its state machines,
-- and what they do.
--
-- The program's parts. Paula (src/domains/interrupt) holds INTENA and INTREQ and computes the
-- interrupt level for the CPU. Two CIAs (src/cia) raise and drop the requests PORTS and EXTER in
-- Paula through `paula_irq_raise` and `paula_irq_clear`; the chipset (src/chipset/chipset.c) steps
-- their timers and pulses their time of day. Agnus (src/chipset/agnus) owns DMACON
-- (src/domains/dma), the beam (beam.c, timing/vblank.c), the copper (copper/,
-- src/domains/copper), which waits for the beam and writes registers of all parts, and the blitter
-- (blitter/), which combines words of chip RAM and raises BLIT. Paula also sends and receives on the
-- serial port (src/chipset/paula/serial.c), raising TBE and RBF. The floppy drives (src/floppy) turn
-- a disk image into the coded words that the disk controller of Paula reads. The clock (src/rtc) turns
-- the time of its host into the registers of an OKI or a Ricoh chip, and back.
--
-- Files and code:
--   Prelude, with modules under Prelude: tests, casts, binary digits; shared by all.
--   Setclr: src/irq/intena.c, src/irq/intreq.c.
--   Interrupt: src/domains/interrupt/interrupt_domain.c, each function under its name without
--     `rigel_interrupt_domain_`. Interrupt/Priority says what the highest source is,
--     Interrupt/Registers runs sequences of operations.
--   Dma: src/domains/dma/dma_domain.c and src/chipset/agnus/dma.c.
--   Cia/State: src/cia/cia.h. Cia/Irq: cia_interrupt.c. Cia/Serial: cia_serial.c. Cia/Timers and
--     Cia/TimerRegisters: cia_timers.c. Cia/Tod: cia_tod.c. Cia/Ports: cia_ports.c. Cia/Chip: cia.c.
--     The functions keep their names without `cia_`, except `cia_reset`, `cia_init`, `cia_step`.
--     Cia/Board: both chips on one Paula, from `rigel_chipset_reset`. Cia/Line: what ties a chip
--     to its request, operation by operation.
--   Beam: src/chipset/agnus/beam.c, beam.h, timing/vblank.c, timing/vblank.h.
--   Copper: src/chipset/agnus/copper/copper.h, copper.c, copper_wait.c and
--     src/domains/copper/copper_domain.c. Copper/Program: copper_regs.c, copper_exec.c,
--     copper_service.c and the register write of src/mmio/custom_regs.c.
--   Blitter: blitter_types.h and blitter.h of src/chipset/agnus/blitter, as are all files here.
--     Blitter/Logic: the word operations of blitter_ref.c, blitter_logic.c and blitter_fill.c.
--     Blitter/Reference, Blitter/Copy: blitter_ref.c, a line and a copy at once. Blitter/Line:
--     blitter_line.c. Blitter/Timing: blitter_timing.c. Blitter/Registers: blitter_regs.c and
--     blitter_command.c. Blitter/Slots: blitter_dma.c. Minterm, Fill, Outcome, Contract, Refinement
--     and the modules under Refinement and Slots are about the code.
--   Floppy: the coding of bits, words and checksums in src/floppy/floppy_mfm.c, Floppy/Sector its
--     sectors and tracks. Floppy/Drive: src/floppy/floppy_drive.c, with Drive/Sound on its
--     positions and Drive/Seek on stepping. Clocks, Buffer, Halves, Masks, RoundTrip and Spacing
--     are about the code.
--   Serial: src/chipset/paula/serial.c. Serial/Queue and Serial/Fifo are about its ring of words,
--     Serial/Sending about the shift register.
--   Rtc: the clock of src/rtc/rtc.c and its host. Rtc/Registers: calendars and registers. Rtc/Clock: the
--     operations. Rtc/Hours is about calendars in the registers, Rtc/WriteBack about a register that is
--     written with what it holds.
--   Chipset: the step of src/chipset/chipset.c, as far as it clocks the CIAs; what Agnus and the rest
--     of Paula do in it is an argument. CIA-B counts the lines of the beam there; docs/api_status.md says
--     that it counts /INDEX of a drive.
--   The modules named Tests run the code on concrete states.
--
-- State. A struct is a record, a function that changes it returns the new one. A CIA writes to Paula
-- through its pointer: its functions take and return a `Link`, the chip and the controller, and the
-- flag `attached` says that the pointer is set. An integer of w bits is a natural number with its
-- wrap-around written out where the C code can reach it; a field that C keeps below 2 ^ w is not
-- bounded by its type, and a theorem that needs the bound has it as a hypothesis. A C `int` is its
-- bit pattern. No pointer to a state is NULL. What the copper meets outside itself is the record
-- `Outside`: the beam, chip RAM, the copies of the registers and a write to a register of another part.
--
-- The blitter and the serial port reach memory and Paula through callbacks: these are functions on a
-- state of the caller, and a read of memory leaves that state as it is. A pointer that may be NULL,
-- the disk of a drive or the memory of a blit, is an option. The host of the clock is read the same
-- way, and shows one time within one operation; libc behind it is an argument, or absent.
--
-- Loops. `cia_timer_advance_events` has fuel for one round per event, `beam_step` one round per clock
-- and one more, since every round but the first uses up at least one; the model of `beam_step`
-- gives `none` when the fuel runs out. The loops of `cia_tod_increment`
-- and over the underflows of timer A are structural, and so are those of the blitter over rows, words
-- and pixels, of the encoder over bits and words, and of the serial port over clocks.
--
-- Not modelled: tracing and logging; the slot scheduler with raster and deadlines, bitplanes and
-- sprites; audio, disk and input of Paula; Denise; the public API; harness and tools.
pub mod Prelude
pub mod Setclr
pub mod Interrupt
pub mod Dma
pub mod Cia
pub mod Beam
pub mod Copper
pub mod Blitter
pub mod Floppy
pub mod Serial
pub mod Rtc
pub mod Chipset
