-- ===== src/Pcie/Bdf.antt =====
-- Packed function numbers: what is packed is extracted again.
use riscv_server_soc_ts.Prelude.{ℕ, ◌+◌, ◌*◌, ◌^◌, ◌<◌, ◌≡◌, arith}
use riscv_server_soc_ts.Bits.{shl32, low_bits}
use riscv_server_soc_ts.Bits.Laws.{bit_or-shifted}
use riscv_server_soc_ts.Pcie.{create_bdf, bdf_seg, bdf_bus, bdf_dev, bdf_func}

pub create_bdf-eq-sum :
    (seg bus dev func : ℕ)
    → seg < 256
    → bus < 256
    → dev < 256
    → func < 256
    → create_bdf seg bus dev func ≡ seg * 2 ^ 24 + bus * 2 ^ 16 + dev * 2 ^ 8 + func
unfolding create_bdf
create_bdf-eq-sum seg bus dev func hs hb hd hf =
    let seg' : shl32 seg 24 ≡ seg * 2 ^ 24 = omega arith in
    let bus' : low_bits bus 8 ≡ bus = omega arith in
    let dev' : low_bits dev 8 ≡ dev = omega arith in
    let one = bit_or-shifted 24 seg (bus * 2 ^ 16) (omega arith) in
    let join : seg * 2 ^ 24 + bus * 2 ^ 16 ≡ (seg * 2 ^ 8 + bus) * 2 ^ 16 = omega arith in
    let two = bit_or-shifted 16 (seg * 2 ^ 8 + bus) (dev * 2 ^ 8) (omega arith) in
    let join' : (seg * 2 ^ 8 + bus) * 2 ^ 16 + dev * 2 ^ 8
        ≡ ((seg * 2 ^ 8 + bus) * 2 ^ 8 + dev) * 2 ^ 8 =
      omega arith in
    let three = bit_or-shifted 8 ((seg * 2 ^ 8 + bus) * 2 ^ 8 + dev) func (omega arith) in
    rw (seg', bus', dev', one, join, two, join', three) (omega arith)

-- The segment, bus, device and function packed into a function number, each within a byte, are
-- extracted again, and the number fits 32 bits.
pub create_bdf_fields :
    (seg bus dev func : ℕ)
    → seg < 256
    → bus < 256
    → dev < 256
    → func < 256
    → (bdf_seg (create_bdf seg bus dev func) ≡ seg)
      × (bdf_bus (create_bdf seg bus dev func) ≡ bus)
      × (bdf_dev (create_bdf seg bus dev func) ≡ dev)
      × (bdf_func (create_bdf seg bus dev func) ≡ func)
      × (create_bdf seg bus dev func < 2 ^ 32)
create_bdf_fields seg bus dev func hs hb hd hf =
    rw (create_bdf-eq-sum seg bus dev func hs hb hd hf) (omega arith)
