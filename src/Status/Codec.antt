-- ===== src/Status/Codec.antt =====
-- The result code: its fields come back, and the predicates tell the states apart.
use riscv_server_soc_ts.Prelude.{ℕ, ◌+◌, ◌*◌, ◌^◌, ◌<◌, ◌≡◌, arith}
use riscv_server_soc_ts.Bits.{field, low_bits, shl32}
use riscv_server_soc_ts.Bits.Laws.{bit_or-shifted}
use riscv_server_soc_ts.Status.{result, state_of}

-- The three parts of a result code do not overlap, so that `|` is a sum.
pub result-eq-sum :
    (state test_num status : ℕ)
    → state < 16
    → test_num < 2 ^ 16
    → status < 2 ^ 12
    → result state test_num status ≡ state * 2 ^ 28 + test_num * 2 ^ 12 + status
unfolding result
result-eq-sum state test_num status hs ht he =
    let top : shl32 state 28 ≡ state * 2 ^ 28 = omega arith in
    let mid : shl32 test_num 12 ≡ test_num * 2 ^ 12 = omega arith in
    let upper = bit_or-shifted 28 state (test_num * 2 ^ 12) (omega arith) in
    let regroup : state * 2 ^ 28 + test_num * 2 ^ 12 ≡ (state * 2 ^ 16 + test_num) * 2 ^ 12 =
      omega arith in
    rw (top, mid, upper, regroup) (bit_or-shifted 12 (state * 2 ^ 16 + test_num) status he)

-- The state, the test number and the checkpoint packed into a result code, each within its 4, 16
-- and 12 bits, are read back by the masks and shifts of the code, and the code fits 32 bits.
pub result_fields :
    (state test_num status : ℕ)
    → state < 16
    → test_num < 2 ^ 16
    → status < 2 ^ 12
    → (state_of (result state test_num status) ≡ state)
      × (field (result state test_num status) 12 16 ≡ test_num)
      × (low_bits (result state test_num status) 12 ≡ status)
      × (result state test_num status < 2 ^ 32)
result_fields state test_num status hs ht he =
    rw (result-eq-sum state test_num status hs ht he) (omega arith)
