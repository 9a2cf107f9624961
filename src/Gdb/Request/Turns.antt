-- ===== src/Gdb/Request/Turns.antt =====
-- The turns of the loop of `process_requests`, riscv/gdbserver.cc: each but the last consumes a byte.
use spike.Base.{◌≡◌, Bool, true, false, not, if◌then◌else◌}
use spike.Gdb.Buffer.{Buffer}
use spike.Gdb.Request.{is_empty, Scan, ended, acknowledged, interrupted, malformed, request}

-- Whether the inner loop has taken up a byte where it ends with the buffer.
abbrev begun : Scan → Bool
begun (ended packet) = not (is_empty packet)
begun acknowledged = true
begun interrupted = true
begun (malformed i) = true
begun (request packet n) = true

begun_if :
    (c : Bool) (x y : Scan) → begun x ≡ true → begun y ≡ true → begun (if c then x else y) ≡ true
begun_if true x y h k = h
begun_if false x y h k = k
