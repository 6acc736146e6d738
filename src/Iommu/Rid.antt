-- ===== src/Iommu/Rid.antt =====
-- Function numbers and the ids of the IOMMU tables.
use riscv_server_soc_ts.Prelude.{ℕ, ◌+◌, ◌*◌, ◌%◌, ◌^◌, ◌<◌, ◌≡◌, refl, arith, bit_or}
use riscv_server_soc_ts.Bits.{field, low_bits}
use riscv_server_soc_ts.Bits.Laws.{bit_or-shifted}
use riscv_server_soc_ts.Pcie.{create_bdf, bdf_bus, bdf_dev, bdf_func}
use riscv_server_soc_ts.Pcie.Bdf.{create_bdf_fields}
use riscv_server_soc_ts.Iommu.{rid_of_bdf, bdf_of_rid}

rid-eq-sum :
    (bus dev func : ℕ)
    → bus < 256
    → dev < 32
    → func < 8
    → bit_or (bit_or (bus * 2 ^ 8) (dev * 2 ^ 3)) func % 2 ^ 16 ≡ bus * 256 + dev * 8 + func
rid-eq-sum bus dev func hb hd hf =
    let one = bit_or-shifted 8 bus (dev * 2 ^ 3) (omega arith) in
    let join : bus * 2 ^ 8 + dev * 2 ^ 3 ≡ (bus * 2 ^ 5 + dev) * 2 ^ 3 = omega arith in
    let two = bit_or-shifted 3 (bus * 2 ^ 5 + dev) func (omega arith) in
    rw (one, join, two) (omega arith)

rid_parts :
    (rid bus dev func : ℕ)
    → bus < 256
    → dev < 32
    → func < 8
    → rid ≡ bus * 256 + dev * 8 + func
    → (field rid 8 8 ≡ bus) × (field rid 3 5 ≡ dev) × (low_bits rid 3 ≡ func)
rid_parts rid bus dev func hb hd hf e = rw e (omega arith)

rid_of_fields :
    (bdf bus dev func : ℕ)
    → bus < 256
    → dev < 32
    → func < 8
    → bdf_bus bdf ≡ bus
    → bdf_dev bdf ≡ dev
    → bdf_func bdf ≡ func
    → rid_of_bdf bdf ≡ bus * 256 + dev * 8 + func
unfolding rid_of_bdf
rid_of_fields bdf bus dev func hb hd hf b d f =
    rw (b, d, f, rid_of_bdf) (rid-eq-sum bus dev func hb hd hf)

bdf_of_fields :
    (seg rid bus dev func : ℕ)
    → bus < 256
    → dev < 32
    → func < 8
    → rid ≡ bus * 256 + dev * 8 + func
    → bdf_of_rid seg rid ≡ create_bdf seg bus dev func
unfolding bdf_of_rid create_bdf
bdf_of_fields seg rid bus dev func hb hd hf e =
    let (b, d, f) = rid_parts rid bus dev func hb hd hf e in
    let bus' : low_bits bus 8 ≡ bus = omega arith in
    let dev' : low_bits dev 8 ≡ dev = omega arith in rw (b, d, f, bus', dev', bdf_of_rid) refl

-- The id of a valid function is its bus, device and function in 16 bits, and the function number
-- that the register accessors make of an id and a segment is the number it came from.
pub bdf_of_rid-rid_of_bdf :
    (seg bus dev func : ℕ)
    → seg < 256
    → bus < 256
    → dev < 32
    → func < 8
    → (rid_of_bdf (create_bdf seg bus dev func) ≡ bus * 256 + dev * 8 + func)
      × (bdf_of_rid seg (rid_of_bdf (create_bdf seg bus dev func)) ≡ create_bdf seg bus dev func)
bdf_of_rid-rid_of_bdf seg bus dev func hs hb hd hf =
    let (_, b, d, f, _) = create_bdf_fields seg bus dev func hs hb (omega arith) (omega arith) in
    let e = rid_of_fields (create_bdf seg bus dev func) bus dev func hb hd hf b d f in
    (e, bdf_of_fields seg (rid_of_bdf (create_bdf seg bus dev func)) bus dev func hb hd hf e)
