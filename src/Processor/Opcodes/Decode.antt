-- ===== src/Processor/Opcodes/Decode.antt =====
-- `decode_insn` in riscv/processor.cc: the cache and the moves change no answer but that for the word 0.
use spike.Base.{
  ℕ, ◌%◌, false, ◌==◌, ◌≡◌, ◌≢◌, inl, inr, refl, ◌∙◌, ap, sym, arith, Bool-cases, some, List,
}
use spike.Processor.Opcodes.{
  InsnDesc, Opcodes, move_to_front, lookup_insn, decode_insn, by_width, set_cache,
  opcode_cache_size,
}
use spike.Processor.Opcodes.Order.{first_match, IsTable, find_insn-some}
use spike.Processor.Opcodes.Move.{move_to_front_lem}

module _ {F : Type 0} where
  -- The functions of an entry for both widths.
  abbrev pub SameFunctions : InsnDesc F → InsnDesc F → Type 0
  SameFunctions d e = (d.rv32 ≡ e.rv32) × (d.rv64 ≡ e.rv64)

  -- A state of the decoder that stands for the table `reference`: every word finds in its table the
  -- entry that it finds first in `reference`, and so it does where the cache holds it. The empty cache
  -- holds the word 0.
  pub record Decodes (reference : List (InsnDesc F)) (o : Opcodes F) : Type 0 where
    pub table : IsTable o.instructions
    pub same : (w : ℕ) → first_match o.instructions w ≡ first_match reference w
    pub cached :
        (w : ℕ)
        → w ≢ 0
        → (o.opcode_cache (w % opcode_cache_size)).match ≡ w
        → (d : InsnDesc F) × (first_match reference w ≡ some d)
          × SameFunctions (o.opcode_cache (w % opcode_cache_size)) d

  -- An entry in the cache for the word that was looked up.
  cached_after :
      (reference : List (InsnDesc F)) (o : Opcodes F) (desc : InsnDesc F) (bits : ℕ)
      → Decodes reference o
      → first_match reference bits ≡ some desc
      → let cache =
          set_cache o.opcode_cache (bits % opcode_cache_size) (record desc { match = bits }) in
        (w : ℕ)
        → w ≢ 0
        → (cache (w % opcode_cache_size)).match ≡ w
        → (d : InsnDesc F) × (first_match reference w ≡ some d)
          × SameFunctions (cache (w % opcode_cache_size)) d
  cached_after reference o desc bits h first w ne =
      elim (Bool-cases (w % opcode_cache_size == bits % opcode_cache_size)) [
        | inl here ↦ rw here (λ e. (desc, ap (first_match reference) (sym e) ∙ first, (refl, refl)))
        | inr other ↦ rw other (h.cached w ne)
      ]

  -- The outcome of a lookup: the functions of the first entry in the reference, and a state that still
  -- stands for it.
  abbrev pub LooksUp : List (InsnDesc F) → Opcodes F → ℕ → Type 0
  LooksUp reference o bits =
      (d : InsnDesc F) × (o' : Opcodes F) × (lookup_insn o bits ≡ some (d, o'))
      × Decodes reference o'

  lookup_miss :
      (reference : List (InsnDesc F)) (o : Opcodes F) (bits : ℕ)
      → Decodes reference o
      → (bits == (o.opcode_cache (bits % opcode_cache_size)).match) ≡ false
      → (d : InsnDesc F) × (o' : Opcodes F) × (lookup_insn o bits ≡ some (d, o'))
        × Decodes reference o'
        × (first_match reference bits ≡ some d)
  unfolding lookup_insn
  lookup_miss reference o bits h miss =
      let (found, e, split, first, misses) =
        find_insn-some o.instructions bits h.table.terminated in
      let (table, same) = move_to_front_lem o.instructions bits found h.table (split, misses) in
      let given : first_match reference bits ≡ some found.desc = sym (h.same bits) ∙ first in
      let cache =
        set_cache o.opcode_cache (bits % opcode_cache_size) (record found.desc { match = bits }) in
      (
        found.desc,
        record { instructions = move_to_front found; opcode_cache = cache },
        rw (miss, e, lookup_insn) refl,
        record {
          table = table;
          same = λ w. same w ∙ h.same w;
          cached = cached_after reference o found.desc bits h given;
        },
        given,
      )

  by_width_same :
      (xlen : ℕ) (c d : InsnDesc F)
      → c.rv32 ≡ d.rv32
      → c.rv64 ≡ d.rv64
      → by_width xlen c ≡ by_width xlen d
  by_width_same xlen c d a b = elim (Bool-cases (xlen == 64)) [
    | inl wide ↦ rw wide b
    | inr narrow ↦ rw narrow a
  ]

  -- Every decoding gives a function, and leaves a state that stands for the same table.
  pub decode_insn-Decodes :
      (reference : List (InsnDesc F)) (xlen : ℕ) (o : Opcodes F) (bits : ℕ)
      → Decodes reference o
      → (f : F) × (o' : Opcodes F) × (decode_insn xlen o bits ≡ some (f, o')) × Decodes reference o'
  unfolding decode_insn lookup_insn
  decode_insn-Decodes reference xlen o bits h =
      let cached = o.opcode_cache (bits % opcode_cache_size) in
      elim (Bool-cases (bits == cached.match)) [
        | inl hit ↦ (by_width xlen cached, o, rw (hit, lookup_insn, decode_insn) refl, h)
        | inr miss ↦
            let (d, o', e, h', first) = lookup_miss reference o bits h miss in
            (by_width xlen d, o', rw (e, decode_insn) refl, h')
      ]

  -- A word other than 0 gives the function that the linear search of the table gives.
  pub decode_insn-first_match :
      (reference : List (InsnDesc F)) (xlen : ℕ) (o : Opcodes F) (bits : ℕ)
      → Decodes reference o
      → bits ≢ 0
      → (d : InsnDesc F) × (o' : Opcodes F) × (first_match reference bits ≡ some d)
        × (decode_insn xlen o bits ≡ some (by_width xlen d, o'))
  unfolding decode_insn lookup_insn
  decode_insn-first_match reference xlen o bits h ne =
      let cached = o.opcode_cache (bits % opcode_cache_size) in
      elim (Bool-cases (bits == cached.match)) [
        | inl hit ↦
            let (d, first, (a, b)) = h.cached bits ne (ground arith) in
            (
              d,
              o,
              first,
              rw (hit, lookup_insn, decode_insn)
                  (ap (λ (f : F). some (f, o)) (by_width_same xlen cached d a b)),
            )
        | inr miss ↦
            let (d, o', e, h', first) = lookup_miss reference o bits h miss in
            (d, o', first, rw (e, decode_insn) refl)
      ]
