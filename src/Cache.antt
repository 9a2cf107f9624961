-- ===== src/Cache.antt =====
-- riscv/cachesim.h and riscv/cachesim.cc: the cache simulator, its two organisations and the chain of
-- miss handlers. The parsing of the configuration string, the statistics that it prints and the copy
-- constructor are left out.
pub mod Init
pub mod Hit
use spike.Base.{
  ℕ, zero, suc, ◌+◌, ◌-◌, ◌*◌, ◌/◌, ◌%◌, ◌^◌, bit_and, bit_or, bit_xor, Bool, true, false, ◌&&◌,
  ◌||◌, not, ltb, leb, ◌==◌, if◌then◌else◌, Option, none, some, List, [], ◌∷◌, truth, add64, sub64,
  shl64, shr, not64, length, get_or,
}

-- `VALID` and `DIRTY`
abbrev pub valid : ℕ
valid = 2 ^ 63

abbrev pub dirty : ℕ
dirty = 2 ^ 62

-- `lfsr_t::next`, on the 32-bit register.
unfoldable pub lfsr_next : ℕ → ℕ
lfsr_next reg = bit_xor (shr reg 1) (bit_and ((2 ^ 32 - bit_and reg 1) % 2 ^ 32) 0xd0000001)

-- The tags of `cache_sim_t`, an array, and those of `fa_cache_sim_t`, a `std::map` in the order of
-- its keys.
pub data Tags : Type 0 where
  ways_array : (ℕ → ℕ) → Tags
  ordered_map : List (ℕ × ℕ) → Tags

-- `cache_sim_t`, less its handlers and its name.
pub record Cache : Type 0 where
  pub lfsr : ℕ
  pub sets : ℕ
  pub ways : ℕ
  pub linesz : ℕ
  pub idx_shift : ℕ
  pub tags : Tags
  pub read_accesses : ℕ
  pub read_misses : ℕ
  pub bytes_read : ℕ
  pub write_accesses : ℕ
  pub write_misses : ℕ
  pub bytes_written : ℕ
  pub writebacks : ℕ
  pub oram_accesses : ℕ

-- The loop of `cache_sim_t::init` that takes the logarithm of the line size. A `size_t` has 64 digits,
-- so 64 rounds are enough.
log_rounds : ℕ → ℕ → ℕ
log_rounds zero x = 0
log_rounds (suc fuel) x = let rest = log_rounds fuel (shr x 1) in if ltb 1 x then suc rest else 0

-- The constructor and `cache_sim_t::init`; `none` where `help` ends the program.
unfoldable pub init : ℕ → ℕ → ℕ → Tags → Option Cache
unfolding log_rounds
init sets ways linesz tags =
    if (sets == 0) || truth (bit_and sets (sub64 sets 1))
    then none
    else if ltb linesz 8 || truth (bit_and linesz (sub64 linesz 1))
    then none
    else some (record {
      lfsr = 1;
      sets = sets;
      ways = ways;
      linesz = linesz;
      idx_shift = log_rounds 64 linesz;
      tags = tags;
      read_accesses = 0;
      read_misses = 0;
      bytes_read = 0;
      write_accesses = 0;
      write_misses = 0;
      bytes_written = 0;
      writebacks = 0;
      oram_accesses = 0;
    })

-- `cache_sim_t::construct`, after the configuration string is read.
unfoldable pub construct : ℕ → ℕ → ℕ → Option Cache
unfolding init
construct sets ways linesz =
    if ltb 4 ways && (sets == 1)
    then init 1 ways linesz (ordered_map [])
    else init sets ways linesz (ways_array λ _. 0)

-- The index of the first way of a set, and the tag of a line.
unfoldable pub first_way : Cache → ℕ → ℕ
first_way c addr = bit_and (shr addr c.idx_shift) (sub64 c.sets 1) * c.ways

unfoldable pub line_tag : Cache → ℕ → ℕ
line_tag c addr = bit_or (shr addr c.idx_shift) valid

unfoldable pub same_tag : ℕ → ℕ → Bool
same_tag tag entry = tag == bit_and entry (not64 dirty)

-- The loop of `cache_sim_t::check_tag`, over `n` ways from slot `i` on.
find_way : ℕ → ℕ → (ℕ → ℕ) → ℕ → Option ℕ
unfolding same_tag
find_way zero i tags tag = none
find_way (suc n) i tags tag =
    let rest = find_way n (suc i) tags tag in if same_tag tag (tags i) then some i else rest

-- `std::map::find`, the write of a key, and the erasure of the entry at a position.
find_key : List (ℕ × ℕ) → ℕ → Option ℕ
find_key [] key = none
find_key ((k, v) ∷ rest) key = let found = find_key rest key in if k == key then some v else found

put_key : List (ℕ × ℕ) → ℕ → ℕ → List (ℕ × ℕ)
put_key [] key val = (key, val) ∷ []
put_key ((k, v) ∷ rest) key val =
    let later = put_key rest key val in
    if ltb key k
    then (key, val) ∷ (k, v) ∷ rest
    else if k == key
    then (k, val) ∷ rest
    else (k, v) ∷ later

erase_at : List (ℕ × ℕ) → ℕ → List (ℕ × ℕ)
erase_at [] i = []
erase_at (entry ∷ rest) zero = rest
erase_at (entry ∷ rest) (suc i) = entry ∷ erase_at rest i

entry_at : List (ℕ × ℕ) → ℕ → ℕ
entry_at [] i = 0
entry_at ((k, v) ∷ rest) zero = v
entry_at (entry ∷ rest) (suc i) = entry_at rest i

abbrev pub update : (ℕ → ℕ) → ℕ → ℕ → ℕ → ℕ
update f i v j = if j == i then v else f j

-- `check_tag` of the two classes: the slot of the array, or the key of the map.
check_slot : Cache → Tags → ℕ → Option ℕ
unfolding find_way find_key first_way line_tag
check_slot c (ways_array tags) addr = find_way c.ways (first_way c addr) tags (line_tag c addr)
check_slot c (ordered_map entries) addr = elim (find_key entries (shr addr c.idx_shift)) [
  | none ↦ none
  | some _ ↦ some (shr addr c.idx_shift)
]

unfoldable pub check_tag : Cache → ℕ → Option ℕ
unfolding check_slot
check_tag c addr = check_slot c c.tags addr

-- `*check_tag(addr) |= DIRTY`, on the slot or the key that `check_tag` gave.
mark_tags : Tags → ℕ → Tags
unfolding put_key find_key
mark_tags (ways_array tags) slot = ways_array (update tags slot (bit_or (tags slot) dirty))
mark_tags (ordered_map entries) key = elim (find_key entries key) [
  | none ↦ ordered_map entries
  | some v ↦ ordered_map (put_key entries key (bit_or v dirty))
]

unfoldable pub mark_dirty : Cache → Option ℕ → Cache
unfolding mark_tags
mark_dirty c none = c
mark_dirty c (some slot) = record c { tags = mark_tags c.tags slot }
  where
    open c use {tags}

-- `victimize` of the two classes: the entry that goes, and the cache with the new line.
victim_of : Cache → Tags → ℕ → ℕ × Cache
unfolding lfsr_next first_way line_tag put_key erase_at entry_at
victim_of c (ways_array tags) addr =
    let reg = lfsr_next c.lfsr in
    let slot = first_way c addr + reg % c.ways in
    (tags slot, record c { lfsr = reg; tags = ways_array (update tags slot (line_tag c addr)) })
victim_of c (ordered_map entries) addr =
    let reg = lfsr_next c.lfsr in
    let key = shr addr c.idx_shift in
    if length entries == c.ways
    then (
      entry_at entries (reg % c.ways),
      record c {
        lfsr = reg;
        tags = ordered_map (put_key (erase_at entries (reg % c.ways)) key (line_tag c addr));
      },
    )
    else (0, record c { tags = ordered_map (put_key entries key (line_tag c addr)) })

unfoldable pub victimize : Cache → ℕ → ℕ × Cache
unfolding victim_of
victimize c addr = victim_of c c.tags addr

-- What a cache calls on a miss: `miss_handler` and `oram_handler`, each an access of the state `S` of
-- what stands below, or absent.
pub record Handlers (S : Type 0) : Type 0 where
  pub miss_handler : Option (S → ℕ → ℕ → Bool → S)
  pub oram_handler : Option (S → ℕ → ℕ → Bool → S)

unfoldable pub count_access : Cache → ℕ → Bool → Cache
count_access c bytes true = record c {
  write_accesses = add64 c.write_accesses 1;
  bytes_written = add64 c.bytes_written bytes;
}
count_access c bytes false = record c {
  read_accesses = add64 c.read_accesses 1;
  bytes_read = add64 c.bytes_read bytes;
}

unfoldable pub count_miss : Cache → Bool → Cache
count_miss c true = record c { write_misses = add64 c.write_misses 1 }
count_miss c false = record c { read_misses = add64 c.read_misses 1 }

module _ {S : Type 0} (handlers : Handlers S) where
  abbrev call : Option (S → ℕ → ℕ → Bool → S) → S → ℕ → ℕ → Bool → S
  call none below addr bytes store = below
  call (some handler) below addr bytes store = handler below addr bytes store

  -- The write of a dirty victim.
  unfoldable pub write_back : Cache → S → ℕ → Cache × S
  write_back c below victim =
      if bit_and victim (bit_or valid dirty) == bit_or valid dirty
      then (
        record c { writebacks = add64 c.writebacks 1 },
        call handlers.miss_handler below
            (shl64 (bit_and victim (not64 (bit_or valid dirty))) c.idx_shift) c.linesz true,
      )
      else (c, below)

  -- The read of the line from what stands below.
  unfoldable pub fill : Option (S → ℕ → ℕ → Bool → S) → Cache → S → ℕ → Cache × S
  fill (some handler) c below addr =
      (c, handler below (bit_and addr (not64 (sub64 c.linesz 1))) c.linesz false)
  fill none c below addr = elim handlers.oram_handler [
    | none ↦ (c, below)
    | some oram ↦
        if leb 0x80000000 addr && ltb addr (0x80000000 + 4194304)
        then (record c { oram_accesses = add64 c.oram_accesses 1 }, oram below addr c.linesz false)
        else (c, below)
  ]

  -- The part of `access` after a miss.
  unfoldable pub miss : Cache → S → ℕ → Bool → Cache × S
  unfolding victimize write_back fill count_miss mark_dirty check_tag
  miss c below addr store =
      let (victim, c1) = victimize (count_miss c store) addr in
      let (c2, below2) = write_back c1 below victim in
      let (c3, below3) = fill handlers.miss_handler c2 below2 addr in
      if store then (mark_dirty c3 (check_tag c3 addr), below3) else (c3, below3)

  unfoldable pub access_way : Option ℕ → Cache → S → ℕ → Bool → Cache × S
  unfolding miss mark_dirty
  access_way (some slot) c below addr store =
      if store then (mark_dirty c (some slot), below) else (c, below)
  access_way none c below addr store = miss c below addr store

  -- `cache_sim_t::access`
  unfoldable pub access : Cache → S → ℕ → ℕ → Bool → Cache × S
  unfolding access_way count_access check_tag
  access c below addr bytes store =
      let c1 = count_access c bytes store in access_way (check_tag c1 addr) c1 below addr store
