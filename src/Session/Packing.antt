-- ===== src/Session/Packing.antt =====
-- The prefix of a frame: what `struct.pack` writes of its fields, `struct.unpack` reads back.
use stageforge.Prelude.{ℕ, ◌<◌, ◌≡◌, refl, ◌++◌, length, take, drop, length-append, arith}
use stageforge.Prelude.Bytes.{
  Bytes, bound, be, of_be, of_be-be, length-be, take-append, drop-append,
}
use stageforge.Session.Channel.{Prefix, pack, unpack, prefix_size}

-- Every field has its width.
pub record Fits (p : Prefix) : Type 0 where
  pub magic_bytes : length p.magic_bytes ≡ 4
  pub version : p.version < bound 1
  pub flags : p.flags < bound 1
  pub header : p.header < bound 2
  pub session : length p.session ≡ 16
  pub key_epoch : p.key_epoch < bound 8
  pub sequence : p.sequence < bound 8
  pub capability : p.capability < bound 8
  pub size : p.size < bound 4

field_taken : (w v : ℕ) (rest : Bytes) → v < bound w → of_be (take w (be w v ++ rest)) ≡ v
field_taken w v rest h = rw (take-append w (be w v) rest (length-be w v)) (of_be-be w v h)

field_dropped : (w v : ℕ) (rest : Bytes) → drop w (be w v ++ rest) ≡ rest
field_dropped w v rest = drop-append w (be w v) rest (length-be w v)

-- `struct.unpack` reads what `struct.pack` has written.
pub unpack-pack : (p : Prefix) → Fits p → unpack (pack p) ≡ p
unfolding pack unpack
unpack-pack p f =
    let r8 = be 4 p.size in
    let r7 = be 8 p.capability ++ r8 in
    let r6 = be 8 p.sequence ++ r7 in
    let r5 = be 8 p.key_epoch ++ r6 in
    let r4 = p.session ++ r5 in
    let r3 = be 2 p.header ++ r4 in
    let r2 = be 1 p.flags ++ r3 in
    let r1 = be 1 p.version ++ r2 in
    rw
      (
        take-append 4 p.magic_bytes r1 f.magic_bytes,
        drop-append 4 p.magic_bytes r1 f.magic_bytes,
        field_taken 1 p.version r2 f.version,
        field_dropped 1 p.version r2,
        field_taken 1 p.flags r3 f.flags,
        field_dropped 1 p.flags r3,
        field_taken 2 p.header r4 f.header,
        field_dropped 2 p.header r4,
        take-append 16 p.session r5 f.session,
        drop-append 16 p.session r5 f.session,
        field_taken 8 p.key_epoch r6 f.key_epoch,
        field_dropped 8 p.key_epoch r6,
        field_taken 8 p.sequence r7 f.sequence,
        field_dropped 8 p.sequence r7,
        field_taken 8 p.capability r8 f.capability,
        field_dropped 8 p.capability r8,
        of_be-be 4 p.size f.size,
      )
      refl

pub length-pack : (p : Prefix) → Fits p → length (pack p) ≡ prefix_size
unfolding pack
length-pack p f =
    let r8 = be 4 p.size in
    let r7 = be 8 p.capability ++ r8 in
    let r6 = be 8 p.sequence ++ r7 in
    let r5 = be 8 p.key_epoch ++ r6 in
    let r4 = p.session ++ r5 in
    let r3 = be 2 p.header ++ r4 in
    let r2 = be 1 p.flags ++ r3 in
    let r1 = be 1 p.version ++ r2 in
    let t : length (p.magic_bytes ++ r1) ≡ 52 = omega (
      arith,
      f.magic_bytes,
      f.session,
      length-append p.magic_bytes r1,
      length-append (be 1 p.version) r2,
      length-append (be 1 p.flags) r3,
      length-append (be 2 p.header) r4,
      length-append p.session r5,
      length-append (be 8 p.key_epoch) r6,
      length-append (be 8 p.sequence) r7,
      length-append (be 8 p.capability) r8,
      length-be 1 p.version,
      length-be 1 p.flags,
      length-be 2 p.header,
      length-be 8 p.key_epoch,
      length-be 8 p.sequence,
      length-be 8 p.capability,
      length-be 4 p.size,
    ) in
    t
