-- ===== src/Processor/Trap/Return.antt =====
-- riscv/insns/mret.h and sret.h, with `set_pc_and_serialize` (riscv/decode.h): returning from a trap.
pub mod Laws
use spike.Base.{
  ℕ, ◌-◌, ◌*◌, ◌^◌, bit_and, Bool, true, false, ◌&&◌, not, leb, if◌then◌else◌, Option, none, some,
  truth, shl64,
}
use spike.Decode.{get_field, set_field}
use spike.Encoding.{
  prv_u, prv_s, prv_m, mstatus_uie, mstatus_mpie, mstatus_mpp, mstatus_spie, mstatus_spp,
  cause_misaligned_fetch, cause_illegal_instruction,
}
use spike.Processor.State.{Processor, State, set_privilege}
use spike.Processor.Csr.Write.{set_csr}
use spike.Processor.Csr.Read.{supports_extension}
use spike.Processor.Trap.{Trap}

-- What an instruction function leaves: the next pc, or the trap that it throws.
pub data Outcome : Type 0 where
  next : ℕ → Outcome
  thrown : Trap → Outcome

abbrev pub illegal_instruction : Outcome
illegal_instruction = thrown (record { cause = cause_illegal_instruction; badaddr = none })

abbrev pub letter_c : ℕ
letter_c = 2

-- The alignment test of `set_pc`.
unfoldable pub misaligned : Processor → ℕ → Bool
unfolding supports_extension
misaligned p target = truth (bit_and target 2) && not (supports_extension p letter_c)

abbrev pub fetch_misaligned : ℕ → Outcome
fetch_misaligned target = thrown (record { cause = cause_misaligned_fetch; badaddr = some target })

-- `PC_SERIALIZE_AFTER`
abbrev pub serialize_after : ℕ
serialize_after = 5

unfoldable pub mret_status : ℕ → ℕ
mret_status s =
    let prev = get_field s mstatus_mpp in
    let s1 = set_field s (shl64 mstatus_uie prev) (get_field s mstatus_mpie) in
    let s2 = set_field s1 mstatus_mpie 0 in set_field s2 mstatus_mpp prv_u

unfoldable pub mret : Processor → Processor × Outcome
mret p =
    let target = p.state.mepc in
    let s = p.state.mstatus in
    let jumped = record p { state = record p.state { pc = target } } in
    let returned = set_csr 0x300 (set_privilege jumped (get_field s mstatus_mpp)) (mret_status s) in
    if leb prv_m p.state.prv
    then (if misaligned p target
        then (p, fetch_misaligned target)
        else (returned, next serialize_after))
    else (p, illegal_instruction)

unfoldable pub sret_status : ℕ → ℕ
sret_status s =
    let prev = get_field s mstatus_spp in
    let s1 = set_field s (shl64 mstatus_uie prev) (get_field s mstatus_spie) in
    let s2 = set_field s1 mstatus_spie 0 in set_field s2 mstatus_spp prv_u

unfoldable pub sret : Processor → Processor × Outcome
sret p =
    let target = p.state.sepc in
    let s = p.state.mstatus in
    let jumped = record p { state = record p.state { pc = target } } in
    let returned = set_csr 0x300 (set_privilege jumped (get_field s mstatus_spp)) (sret_status s) in
    if leb prv_s p.state.prv
    then (if misaligned p target
        then (p, fetch_misaligned target)
        else (returned, next serialize_after))
    else (p, illegal_instruction)
