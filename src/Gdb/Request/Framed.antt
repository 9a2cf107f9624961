-- ===== src/Gdb/Request/Framed.antt =====
-- A packet in the receive buffer of the remote debugger, riscv/gdbserver.cc.
use mathlib.Core.List.{append_assoc, append-nil}
use spike.Base.{
  ℕ, zero, suc, ◌+◌, ◌-◌, ◌<◌, ◌≤◌, ◌≡◌, ◌≢◌, refl, sym, ap, ◌∙◌, arith, Bool, false, List, [], ◌∷◌,
  ◌++◌, length, get_or, length-append, get_or-append_front, get_or-append_back,
}
use spike.Gdb.Buffer.{Buffer, entry}
use spike.Gdb.Request.{is_empty, request, scan}

-- A byte that ends nothing: the packet has begun, and three bytes back there is no `#`.
scan_on :
    (b : Buffer) (ack : Bool) (packet : List ℕ) (c i count : ℕ)
    → is_empty packet ≡ false
    → entry b i ≡ c
    → c ≢ 36
    → get_or (packet ++ c ∷ []) (length (packet ++ c ∷ []) - 3) 0 ≢ 35
    → scan b ack packet i (suc count) ≡ scan b ack (packet ++ c ∷ []) (suc i) count
unfolding scan
scan_on b ack packet c i count begun e plain back = rw (e, scan) (rw (begun, scan) (ground arith))

-- The first byte.
scan_first :
    (b : Buffer) (ack : Bool) (count : ℕ)
    → entry b 0 ≡ 36
    → scan b ack [] 0 (suc count) ≡ scan b ack (36 ∷ []) 1 count
unfolding scan
scan_first b ack count e = ground arith

-- The last byte.
scan_last :
    (b : Buffer) (ack : Bool) (packet : List ℕ) (c i count : ℕ)
    → is_empty packet ≡ false
    → entry b i ≡ c
    → c ≢ 36
    → 3 ≤ length packet
    → get_or (packet ++ c ∷ []) (length (packet ++ c ∷ []) - 3) 0 ≡ 35
    → scan b ack packet i (suc count) ≡ request (packet ++ c ∷ []) (i + 1)
unfolding scan
scan_last b ack packet c i count begun e plain long back =
    let l : 4 ≤ length (packet ++ c ∷ []) = omega (arith, length-append packet (c ∷ [])) in
    rw (e, scan) (rw (begun, scan) (ground arith))

-- No byte of the list is `c`.
unfoldable pub Lacks : ℕ → List ℕ → Type 0
Lacks c [] = Unit
Lacks c (x ∷ xs) = x ≢ c × Lacks c xs

get_or-Lacks : (c : ℕ) (xs : List ℕ) (i : ℕ) → 0 ≢ c → Lacks c xs → get_or xs i 0 ≢ c
unfolding Lacks
get_or-Lacks c [] i z h = z
get_or-Lacks c (x ∷ xs) zero z (h, hs) = h
get_or-Lacks c (x ∷ xs) (suc i) z (h, hs) = get_or-Lacks c xs i z hs

append-Lacks : (c : ℕ) (xs ys : List ℕ) → Lacks c xs → Lacks c ys → Lacks c (xs ++ ys)
unfolding Lacks
append-Lacks c [] ys h k = k
append-Lacks c (x ∷ xs) ys (h, hs) k = (h, append-Lacks c xs ys hs k)

-- The bytes of a list stand in the buffer from the index `i` on.
unfoldable pub Stands : Buffer → ℕ → List ℕ → Type 0
Stands b i [] = Unit
Stands b i (x ∷ xs) = entry b i ≡ x × Stands b (suc i) xs

-- Bytes that are neither `$` nor `#` are taken up.
scan_through :
    (b : Buffer) (ack : Bool) (taken xs : List ℕ) (i count : ℕ)
    → Lacks 35 taken
    → Lacks 35 xs
    → Lacks 36 xs
    → Stands b i xs
    → scan b ack (36 ∷ taken) i (length xs + count)
      ≡ scan b ack (36 ∷ taken ++ xs) (i + length xs) count
unfolding Lacks Stands
scan_through b ack taken [] i count h k l s =
    let e0 : 0 + count ≡ count = omega arith in
    let e1 : i + 0 ≡ i = omega arith in rw e0 (rw e1 (rw (append-nil taken) refl))
scan_through b ack taken (x ∷ xs) i count h (k, ks) (l, ls) (s, ss) =
    let e0 : suc (length xs) + count ≡ suc (length xs + count) = omega arith in
    let e1 : i + suc (length xs) ≡ suc i + length xs = omega arith in
    let taken' = taken ++ x ∷ [] in
    let h' = append-Lacks 35 taken (x ∷ []) h (k, tt) in
    let back =
      get_or-Lacks 35 (36 ∷ taken') (length (36 ∷ taken') - 3) (ground arith) (ground arith, h') in
    rw e0 (
      rw e1 (
        scan_on b ack (36 ∷ taken) x i (length xs + count) refl s l back
        ∙ scan_through b ack taken' xs (suc i) count h' ks ls ss
        ∙ ap (λ zs. scan b ack (36 ∷ zs) (suc i + length xs) count)
            (append_assoc taken (x ∷ []) xs)))

Stands-append :
    (b : Buffer) (i : ℕ) (xs ys : List ℕ)
    → Stands b i (xs ++ ys)
    → Stands b i xs × Stands b (i + length xs) ys
unfolding Stands
Stands-append b i [] ys s = let e : i + 0 ≡ i = omega arith in (tt, rw e s)
Stands-append b i (x ∷ xs) ys (s, ss) =
    let e : i + suc (length xs) ≡ suc i + length xs = omega arith in
    let (front, back) = Stands-append b (suc i) xs ys ss in ((s, front), rw e back)

-- Three bytes back from the end of a packet that `#` and at most one digit have ended.
back_one :
    (packet : List ℕ) (c : ℕ)
    → 0 < length packet
    → Lacks 35 packet
    → get_or (packet ++ c ∷ []) (length (packet ++ c ∷ []) - 3) 0 ≢ 35
back_one packet c one h e =
    let l = length-append packet (c ∷ []) in
    get_or-Lacks 35 packet (length (packet ++ c ∷ []) - 3) (ground arith) h (
      sym (get_or-append_front packet (c ∷ []) (length (packet ++ c ∷ []) - 3) 0 (omega arith)) ∙ e)

back_two :
    (packet : List ℕ) (c d : ℕ)
    → 0 < length packet
    → Lacks 35 packet
    → get_or ((packet ++ c ∷ []) ++ d ∷ []) (length ((packet ++ c ∷ []) ++ d ∷ []) - 3) 0 ≢ 35
back_two packet c d one h e =
    let p = packet ++ c ∷ [] in
    let l = length-append packet (c ∷ []) in
    let l' = length-append p (d ∷ []) in
    let i = length (p ++ d ∷ []) - 3 in
    get_or-Lacks 35 packet i (ground arith) h (
      sym (
        get_or-append_front p (d ∷ []) i 0 (omega arith)
        ∙ get_or-append_front packet (c ∷ []) i 0 (omega arith))
      ∙ e)

back_three :
    (packet : List ℕ) (d f : ℕ)
    → get_or
        (((packet ++ 35 ∷ []) ++ d ∷ []) ++ f ∷ [])
        (length (((packet ++ 35 ∷ []) ++ d ∷ []) ++ f ∷ []) - 3)
        0
      ≡ 35
back_three packet d f =
    let p = packet ++ 35 ∷ [] in
    let p' = p ++ d ∷ [] in
    let l = length-append packet (35 ∷ []) in
    let l' = length-append p (d ∷ []) in
    let l'' = length-append p' (f ∷ []) in
    let i : length (p' ++ f ∷ []) - 3 ≡ length packet + 0 = omega arith in
    ap (λ n. get_or (p' ++ f ∷ []) n 0) i
    ∙ get_or-append_front p' (f ∷ []) (length packet + 0) 0 (omega arith)
    ∙ get_or-append_front p (d ∷ []) (length packet + 0) 0 (omega arith)
    ∙ get_or-append_back packet (35 ∷ []) 0 0

begun_append : (xs ys : List ℕ) → is_empty xs ≡ false → is_empty (xs ++ ys) ≡ false
begun_append [] ys e = absurd (ground arith)
begun_append (x ∷ xs) ys e = refl

-- The mark and the digits of the sum, which are any bytes but `$`.
scan_end :
    (b : Buffer) (ack : Bool) (packet : List ℕ) (high low i count : ℕ)
    → is_empty packet ≡ false
    → 0 < length packet
    → Lacks 35 packet
    → Lacks 36 (high ∷ low ∷ [])
    → Stands b i (35 ∷ high ∷ low ∷ [])
    → scan b ack packet i (suc (suc (suc count))) ≡ request (packet ++ 35 ∷ high ∷ low ∷ []) (i + 3)
unfolding Lacks Stands
scan_end b ack packet high low i count begun one h (k, (k', u)) (s, (s', (s'', u'))) =
    let p = packet ++ 35 ∷ [] in
    let p' = p ++ high ∷ [] in
    let l = length-append packet (35 ∷ []) in
    let l' = length-append p (high ∷ []) in
    scan_on b ack packet 35 i (suc (suc count)) begun s (ground arith) (back_one packet 35 one h)
    ∙ scan_on b ack p high (suc i) (suc count) (begun_append packet _ begun) s' k
        (back_two packet 35 high one h)
    ∙ scan_last b ack p' low (suc (suc i)) count (begun_append p _ (begun_append packet _ begun))
        s'' k' (omega arith) (back_three packet high low)
    ∙ ap (request (p' ++ low ∷ [])) {x = suc (suc i) + 1} {y = i + 3} (omega arith)
    ∙ ap (λ zs. request zs (i + 3))
        (append_assoc p (high ∷ []) (low ∷ []) ∙ append_assoc packet (35 ∷ []) (high ∷ low ∷ []))

-- A whole packet: the digits of the sum are any bytes but `$`.
pub scan_framed :
    (b : Buffer) (ack : Bool) (msg : List ℕ) (high low count : ℕ)
    → Lacks 35 msg
    → Lacks 36 msg
    → Lacks 36 (high ∷ low ∷ [])
    → Stands b 0 (36 ∷ msg ++ 35 ∷ high ∷ low ∷ [])
    → scan b ack [] 0 (length msg + 4 + count)
      ≡ request (36 ∷ msg ++ 35 ∷ high ∷ low ∷ []) (length msg + 4)
unfolding Lacks Stands
scan_framed b ack msg high low count h k l (s, ss) =
    let tail = 35 ∷ high ∷ low ∷ [] in
    let (front, back) = Stands-append b 1 msg tail ss in
    let e0 : length msg + 4 + count ≡ suc (length msg + suc (suc (suc count))) = omega arith in
    let e1 : 1 + length msg + 3 ≡ length msg + 4 = omega arith in
    ap (scan b ack [] 0) e0
    ∙ scan_first b ack (length msg + suc (suc (suc count))) s
    ∙ scan_through b ack [] msg 1 (suc (suc (suc count))) tt h k front
    ∙ scan_end b ack (36 ∷ msg) high low (1 + length msg) count refl (omega arith) (ground arith, h)
        l back
    ∙ ap (request (36 ∷ msg ++ tail)) e1
