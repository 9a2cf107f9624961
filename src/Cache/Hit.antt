-- ===== src/Cache/Hit.antt =====
-- The set-associative cache of riscv/cachesim.cc: a line that was accessed is there.
use native.Mathlib.Decide.{dec_lt}
use native.Mathlib.Nat.{mod-lt}
use spike.Base.{
  ℕ, zero, suc, ◌+◌, ◌/◌, ◌%◌, ◌^◌, ◌≤◌, ◌<◌, bit_and, bit_or, Bool, true, false, ◌≡◌, inl, inr,
  refl, ◌∙◌, ap, sym, arith, Bool-cases, Option-cases, ◌==◌, Option, none, some, shr, not64, bit,
  bit-and, bit-or, bit_ext, bit-high, bit-le-one, bit-pow_self, bit-pow_ne, bit-shr, not64-bit,
  or-lt, lt-pow_of_bits, leb, ltb, ◌&&◌,
}
use spike.Cache.{
  Cache, Tags, ways_array, ordered_map, Handlers, valid, dirty, first_way, line_tag, same_tag,
  find_way, check_slot, check_tag, update, mark_tags, mark_dirty, victim_of, victimize, lfsr_next,
  count_access, count_miss, write_back, fill, miss, access_way, access,
}

-- Marking an entry does not change its tag.
dirty_tag : (v : ℕ) → bit_and (bit_or v dirty) (not64 dirty) ≡ bit_and v (not64 dirty)
dirty_tag v = bit_ext _ _ λ i. elim (Bool-cases (i == 62)) [
  | inl e ↦
      let at : i ≡ 62 = ground arith in
      let d : bit dirty i ≡ 1 = rw at (bit-pow_self 62) in
      omega (
        arith,
        bit-and (bit_or v dirty) (not64 dirty) i,
        bit-and v (not64 dirty) i,
        not64-bit dirty i (omega arith) (omega arith),
        bit-le-one v i,
      )
  | inr e ↦
      let d = bit-pow_ne 62 i (ground arith) in
      omega (
        arith,
        bit-and (bit_or v dirty) (not64 dirty) i,
        bit-and v (not64 dirty) i,
        bit-or v dirty i,
      )
]

-- The tag of a line has a zero where the dirty bit stands.
tag-bit62 : (c : Cache) (addr : ℕ) → 3 ≤ c.idx_shift → addr < 2 ^ 64 → bit (line_tag c addr) 62 ≡ 0
unfolding line_tag
tag-bit62 c addr shift word = omega (
  arith,
  bit-or (shr addr c.idx_shift) valid 62,
  bit-shr c.idx_shift addr 62,
  bit-high 64 addr (62 + c.idx_shift) word (omega arith),
  bit-pow_ne 63 62 (omega arith),
)

tag-lt : (c : Cache) (addr : ℕ) → addr < 2 ^ 64 → line_tag c addr < 2 ^ 64
unfolding line_tag
tag-lt c addr word = or-lt 64 _ _ (shr-lt c.idx_shift addr word) (omega arith)
  where
    shr-lt : (k a : ℕ) → a < 2 ^ 64 → a / 2 ^ k < 2 ^ 64
    shr-lt k a h = lt-pow_of_bits 64 _ λ i p. bit-shr k a i ∙ bit-high 64 a (i + k) h (omega arith)

clean_tag :
    (c : Cache) (addr : ℕ)
    → 3 ≤ c.idx_shift
    → addr < 2 ^ 64
    → bit_and (line_tag c addr) (not64 dirty) ≡ line_tag c addr
clean_tag c addr shift word = bit_ext _ _ λ i. elim (Bool-cases (i == 62)) [
  | inl e ↦
      let at : i ≡ 62 = ground arith in
      rw at (omega (arith, bit-and (line_tag c addr) (not64 dirty) 62, tag-bit62 c addr shift word))
  | inr e ↦
      let d = bit-pow_ne 62 i (ground arith) in
      elim (dec_lt i 64) [
        | yes h ↦ omega (
          arith,
          bit-and (line_tag c addr) (not64 dirty) i,
          not64-bit dirty i (omega arith) h,
          bit-le-one (line_tag c addr) i,
        )
        | no h ↦ omega (
          arith,
          bit-and (line_tag c addr) (not64 dirty) i,
          bit-high 64 (line_tag c addr) i (tag-lt c addr word) (omega arith),
        )
      ]
]

-- A way that holds the tag is found, and what is found holds the tag.
find_way-some :
    (n i : ℕ) (tags : ℕ → ℕ) (tag j : ℕ)
    → j < n
    → same_tag tag (tags (i + j)) ≡ true
    → (s : ℕ) × (find_way n i tags tag ≡ some s)
unfolding find_way
find_way-some zero i tags tag j h e = absurd (omega arith)
find_way-some (suc n) i tags tag zero h e =
    let z : i + 0 ≡ i = omega arith in
    let here : same_tag tag (tags i) ≡ true = ap (λ k. same_tag tag (tags k)) (sym z) ∙ e in
    rw here (i, refl)
find_way-some (suc n) i tags tag (suc j) h e = elim (Bool-cases (same_tag tag (tags i))) [
  | inl here ↦ rw here (i, refl)
  | inr later ↦
      let z : i + suc j ≡ suc i + j = omega arith in
      rw later (
        find_way-some n (suc i) tags tag j (omega arith)
          (ap (λ k. same_tag tag (tags k)) (sym z) ∙ e))
]

same_tags :
    (n i : ℕ) (f g : ℕ → ℕ) (tag : ℕ)
    → ((j : ℕ) → same_tag tag (f j) ≡ same_tag tag (g j))
    → find_way n i f tag ≡ find_way n i g tag
unfolding find_way
same_tags zero i f g tag h = refl
same_tags (suc n) i f g tag h = rw (h i, same_tags n (suc i) f g tag h) refl

marked_tag :
    (tags : ℕ → ℕ) (s tag j : ℕ)
    → same_tag tag (update tags s (bit_or (tags s) dirty) j) ≡ same_tag tag (tags j)
unfolding same_tag
marked_tag tags s tag j = elim (Bool-cases (j == s)) [
  | inl e ↦ let at : j ≡ s = ground arith in rw e (rw (dirty_tag (tags s), at) refl)
  | inr e ↦ rw e refl
]

-- Two caches that hold the same lines.
abbrev SameLines : Cache → Cache → Type 0
SameLines c d =
    (c.sets ≡ d.sets) × (c.ways ≡ d.ways) × (c.idx_shift ≡ d.idx_shift) × (c.tags ≡ d.tags)

check_slot-SameLines :
    (c d : Cache) (t : Tags) (addr : ℕ)
    → c.sets ≡ d.sets
    → c.ways ≡ d.ways
    → c.idx_shift ≡ d.idx_shift
    → check_slot c t addr ≡ check_slot d t addr
unfolding check_slot first_way line_tag
check_slot-SameLines c d (ways_array tags) addr s w i = rw (s, w, i) refl
check_slot-SameLines c d (ordered_map entries) addr s w i = rw i refl

check_tag-SameLines : (c d : Cache) (addr : ℕ) → SameLines c d → check_tag c addr ≡ check_tag d addr
unfolding check_tag
check_tag-SameLines c d addr (s, w, i, t) =
    ap (λ tags. check_slot c tags addr) t ∙ check_slot-SameLines c d d.tags addr s w i

count_access-SameLines :
    (c : Cache) (bytes : ℕ) (store : Bool) → SameLines (count_access c bytes store) c
unfolding count_access
count_access-SameLines c bytes true = (refl, refl, refl, refl)
count_access-SameLines c bytes false = (refl, refl, refl, refl)

count_miss-SameLines : (c : Cache) (store : Bool) → SameLines (count_miss c store) c
unfolding count_miss
count_miss-SameLines c true = (refl, refl, refl, refl)
count_miss-SameLines c false = (refl, refl, refl, refl)

module _ {S : Type 0} (handlers : Handlers S) where
  write_back-SameLines :
      (c : Cache) (below : S) (victim : ℕ) → SameLines ((write_back handlers c below victim).0) c
  unfolding write_back
  write_back-SameLines c below victim =
      elim (Bool-cases (bit_and victim (bit_or valid dirty) == bit_or valid dirty)) [
        | inl e ↦ rw e (refl, refl, refl, refl)
        | inr e ↦ rw e (refl, refl, refl, refl)
      ]

  fill-SameLines :
      (next : Option (S → ℕ → ℕ → Bool → S)) (c : Cache) (below : S) (addr : ℕ)
      → SameLines ((fill handlers next c below addr).0) c
  unfolding fill
  fill-SameLines (some handler) c below addr = (refl, refl, refl, refl)
  fill-SameLines none c below addr = elim (Option-cases handlers.oram_handler) [
    | inl e ↦ rw e (refl, refl, refl, refl)
    | inr (oram, e) ↦ elim (Bool-cases (leb 0x80000000 addr && ltb addr (0x80000000 + 4194304))) [
      | inl near ↦ rw (e, near) (refl, refl, refl, refl)
      | inr far ↦ rw (e, far) (refl, refl, refl, refl)
    ]
  ]

-- The set-associative caches that the theorems below are about.
abbrev pub with_ways : Cache → (ℕ → ℕ) → Cache
with_ways c tags = record c { tags = ways_array tags }

mark_dirty-hit :
    (c : Cache) (tags : ℕ → ℕ) (slot addr : ℕ)
    → check_tag (mark_dirty (with_ways c tags) (some slot)) addr ≡ check_tag (with_ways c tags) addr
unfolding mark_dirty mark_tags check_tag check_slot
mark_dirty-hit c tags slot addr = same_tags c.ways _ _ tags _ (λ j. marked_tag tags slot _ j)

written_tag :
    (tags : ℕ → ℕ) (slot tag : ℕ)
    → bit_and tag (not64 dirty) ≡ tag
    → same_tag tag (update tags slot tag slot) ≡ true
unfolding same_tag
written_tag tags slot tag clean =
    let e : (slot == slot) ≡ true = ground arith in
    rw e (rw clean (let f : (tag == tag) ≡ true = ground arith in f))

-- The line that `victimize` puts in is found.
victimize-hit :
    (c : Cache) (tags : ℕ → ℕ) (addr : ℕ)
    → 0 < c.ways
    → 3 ≤ c.idx_shift
    → addr < 2 ^ 64
    → (s : ℕ) × (check_tag (victimize (with_ways c tags) addr).1 addr ≡ some s)
unfolding victimize victim_of check_tag check_slot first_way line_tag
victimize-hit c tags addr ways shift word =
    find_way-some c.ways _ _ _ (lfsr_next c.lfsr % c.ways) (mod-lt (lfsr_next c.lfsr) ways)
      (written_tag tags _ _ (clean_tag c addr shift word))

victimize-tags :
    (c : Cache) (tags : ℕ → ℕ) (addr : ℕ)
    → (t : ℕ → ℕ) × ((victimize (with_ways c tags) addr).1
        ≡ with_ways (victimize (with_ways c tags) addr).1 t)
unfolding victimize victim_of
victimize-tags c tags addr = (_, refl)

-- Marking the line that was found keeps it found.
marked-hit :
    (d : Cache) (t : ℕ → ℕ) (slot addr : ℕ)
    → d.tags ≡ ways_array t
    → check_tag (mark_dirty d (some slot)) addr ≡ check_tag d addr
marked-hit d t slot addr e =
    ap (λ x. check_tag (mark_dirty (record d { tags = x }) (some slot)) addr) e
    ∙ mark_dirty-hit d t slot addr
    ∙ sym (ap (λ x. check_tag (record d { tags = x }) addr) e)

found_after :
    (c d : Cache) (t : ℕ → ℕ) (addr s : ℕ)
    → SameLines d c
    → c.tags ≡ ways_array t
    → check_tag c addr ≡ some s
    → (check_tag d addr ≡ some s) × (check_tag (mark_dirty d (check_tag d addr)) addr ≡ some s)
found_after c d t addr s same e found =
    let here = check_tag-SameLines d c addr same ∙ found in
    let (_, _, _, tags) = same in (here, rw here (marked-hit d t s addr (tags ∙ e) ∙ here))

module _ {S : Type 0} (handlers : Handlers S) where
  filled-SameLines :
      (c : Cache) (below : S) (victim addr : ℕ)
      → SameLines
          (fill handlers handlers.miss_handler
            (write_back handlers c below victim).0
            (write_back handlers c below victim).1
            addr).0
          c
  filled-SameLines c below victim addr =
      let (s1, w1, i1, t1) =
        fill-SameLines handlers handlers.miss_handler (write_back handlers c below victim).0
          (write_back handlers c below victim).1 addr in
      let (s2, w2, i2, t2) = write_back-SameLines handlers c below victim in
      (s1 ∙ s2, w1 ∙ w2, i1 ∙ i2, t1 ∙ t2)

  -- After the part of `access` that follows a miss, the line is there.
  miss-hit :
      (c : Cache) (tags : ℕ → ℕ) (below : S) (addr : ℕ) (store : Bool)
      → 0 < c.ways
      → 3 ≤ c.idx_shift
      → addr < 2 ^ 64
      → (s : ℕ) × (check_tag (miss handlers (with_ways c tags) below addr store).0 addr ≡ some s)
  unfolding miss count_miss
  miss-hit c tags below addr true ways shift word =
      let (s, found) = victimize-hit (count_miss c true) tags addr ways shift word in
      let (t, e) = victimize-tags (count_miss c true) tags addr in
      let v = victimize (with_ways (count_miss c true) tags) addr in
      let w = write_back handlers v.1 below v.0 in
      let d = (fill handlers handlers.miss_handler w.0 w.1 addr).0 in
      let same = filled-SameLines v.1 below v.0 addr in
      let (_, marked) = found_after v.1 d t addr s same (ap (λ (c : Cache). c.tags) e) found in
      (s, marked)
  miss-hit c tags below addr false ways shift word =
      let (s, found) = victimize-hit (count_miss c false) tags addr ways shift word in
      let (t, e) = victimize-tags (count_miss c false) tags addr in
      let v = victimize (with_ways (count_miss c false) tags) addr in
      let w = write_back handlers v.1 below v.0 in
      let d = (fill handlers handlers.miss_handler w.0 w.1 addr).0 in
      let same = filled-SameLines v.1 below v.0 addr in
      let (here, _) = found_after v.1 d t addr s same (ap (λ (c : Cache). c.tags) e) found in
      (s, here)

  -- An access that hits.
  hit_access :
      (r : Cache × S) (addr bytes : ℕ) (store : Bool) (s : ℕ)
      → check_tag r.0 addr ≡ some s
      → (let (e, under) = access handlers r.0 r.1 addr bytes store in
          (under ≡ r.1) × (e.read_misses ≡ r.0.read_misses) × (e.write_misses ≡ r.0.write_misses))
  unfolding access access_way count_access mark_dirty
  hit_access (d, under) addr bytes true s found =
      let counted =
        check_tag-SameLines (count_access d bytes true) d addr
          (count_access-SameLines d bytes true) in
      rw (counted ∙ found) (refl, refl, refl)
  hit_access (d, under) addr bytes false s found =
      let counted =
        check_tag-SameLines (count_access d bytes false) d addr
          (count_access-SameLines d bytes false) in
      rw (counted ∙ found) (refl, refl, refl)

  -- After an access to a set-associative cache whose lines have 8 bytes or more and that has a way,
  -- the line is there: `check_tag` finds it.
  access-hit :
      (c : Cache) (tags : ℕ → ℕ) (below : S) (addr bytes : ℕ) (store : Bool)
      → 0 < c.ways
      → 3 ≤ c.idx_shift
      → addr < 2 ^ 64
      → (s : ℕ) × (check_tag (access handlers (with_ways c tags) below addr bytes store).0 addr
          ≡ some s)
  unfolding access access_way count_access
  access-hit c tags below addr bytes true ways shift word =
      elim (Option-cases (check_tag (with_ways (count_access c bytes true) tags) addr)) [
        | inl e ↦ rw e (miss-hit (count_access c bytes true) tags below addr true ways shift word)
        | inr (s, e) ↦ rw e (s, mark_dirty-hit (count_access c bytes true) tags s addr ∙ e)
      ]
  access-hit c tags below addr bytes false ways shift word =
      elim (Option-cases (check_tag (with_ways (count_access c bytes false) tags) addr)) [
        | inl e ↦ rw e (miss-hit (count_access c bytes false) tags below addr false ways shift word)
        | inr (s, e) ↦ rw e (s, e)
      ]

  -- In a set-associative cache that has a way and lines of at least 8 bytes, the next access to the same
  -- address, whatever its size and kind, is a hit: what stands below the
  -- cache is not called, and no miss is counted.
  pub access-access :
      (c : Cache) (tags : ℕ → ℕ) (below : S) (addr bytes : ℕ) (store : Bool) (bytes' : ℕ)
      (store' : Bool)
      → 0 < c.ways
      → 3 ≤ c.idx_shift
      → addr < 2 ^ 64
      → (let (d, under) = access handlers (with_ways c tags) below addr bytes store in
          let (e, under') = access handlers d under addr bytes' store' in
          (under' ≡ under) × (e.read_misses ≡ d.read_misses) × (e.write_misses ≡ d.write_misses))
  access-access c tags below addr bytes store bytes' store' ways shift word =
      let (s, found) = access-hit c tags below addr bytes store ways shift word in
      hit_access (access handlers (with_ways c tags) below addr bytes store) addr bytes' store' s
        found
