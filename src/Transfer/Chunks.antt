-- ===== src/Transfer/Chunks.antt =====
-- How a file is cut into chunks: the count that an offer states (chunkCount, files.go), and the size
-- and offset that sender and receiver compute for an index (service.go, sender.go).
use sync_space.Base.{
  ℕ, zero, suc, ◌+◌, ◌-◌, ◌*◌, ◌/◌, ◌^◌, ◌≤◌, ◌<◌, List, [], ◌∷◌, ◌≡◌, ◌∙◌, arith, ltb, leb,
  if◌then◌else◌, ◌==◌, nat_eq, some, length, get_elem?, ap,
}
use sync_space.Base.Int.{
  ℤ, pos, int_eq, ltb_ℤ, wrap64, wrap64_pos, add64, sub64, mul64, div64, ◌+ℤ◌, ◌-ℤ◌, ◌*ℤ◌, ◌/ℤ◌,
}
use native.Mathlib.Nat.{div-eq_of_lt, add-div_right, div-le_self}
use native.Mathlib.Decide.{dec_lt}
use sync_space.Transfer.Models.{File}

unfoldable pub chunk_count : ℤ → ℤ → ℤ
unfolding ◌+ℤ◌ ◌-ℤ◌ ◌/ℤ◌ wrap64
chunk_count size chunk_size =
    if size == pos 0 then pos 0 else div64 (sub64 (add64 size chunk_size) (pos 1)) chunk_size

-- `index * file.ChunkSize`
unfoldable pub chunk_offset : File → ℤ → ℤ
unfolding ◌*ℤ◌ wrap64
chunk_offset file index = mul64 index file.chunk_size

-- What remains of the file at the index, or a whole chunk.
unfoldable pub expected_size : File → ℤ → ℤ
unfolding ◌-ℤ◌ wrap64 chunk_offset
expected_size file index =
    let remaining = sub64 file.size (chunk_offset file index) in
    if ltb_ℤ remaining file.chunk_size then remaining else file.chunk_size

-- The reference: pieces of `c` bytes are cut off until nothing is left of `n` bytes.
unfoldable pub cut : ℕ → ℕ → ℕ → List ℕ
cut zero c n = []
cut (suc steps) c n =
    let rest = cut steps c (n - c) in if n == 0 then [] else if leb c n then c ∷ rest else n ∷ []

pub count_step : (n c : ℕ) → 0 < c → c ≤ n → (n + c - 1) / c ≡ suc ((n - c + c - 1) / c)
count_step n c hc h =
    let e : n + c - 1 ≡ (n - c + c - 1) + c = omega arith in
    ap (λ m. m / c) e ∙ (omega (arith, add-div_right (n - c + c - 1) hc))

cut-length : (steps n c : ℕ) → 0 < c → n ≤ steps → length (cut steps c n) ≡ (n + c - 1) / c
unfolding cut
cut-length zero n c hc h = omega (arith, div-eq_of_lt {n = n + c - 1} {m = c} (omega arith))
cut-length (suc steps) n c hc h = elim (dec_lt n c) [
  | yes p ↦ elim (dec_lt 0 n) [
    | yes q ↦
        let one_piece : n + c - 1 ≡ (n - 1) + c = omega arith in
        let last : (n - 1 + c) / c ≡ 1 =
          omega (arith, add-div_right (n - 1) hc, div-eq_of_lt {n = n - 1} {m = c} (omega arith)) in
        rw one_piece (ground (arith, last))
    | no q ↦ ground (arith, div-eq_of_lt {n = c - 1} {m = c} (omega arith))
  ]
  | no p ↦
      let ih = cut-length steps (n - c) c hc (omega arith) in
      ground (arith, ih, count_step n c hc (omega arith))
]

get_elem?-cut :
    (steps n c i : ℕ)
    → 0 < c
    → n ≤ steps
    → i * c < n
    → get_elem? i (cut steps c n) ≡ some (if ltb (n - i * c) c then n - i * c else c)
unfolding cut
get_elem?-cut zero n c i hc h hi = ground arith
get_elem?-cut (suc steps) n c zero hc h hi = ground arith
get_elem?-cut (suc steps) n c (suc i) hc h hi = elim (dec_lt n c) [
  | yes p ↦ ground arith
  | no p ↦ ground (arith, get_elem?-cut steps (n - c) c i hc (omega arith) (omega arith))
]

-- The count that an offer must state is the number of pieces, for a positive chunk size and where size
-- and chunk size together stay below 2^63.
pub chunk_count-cut :
    (n c : ℕ) → 0 < c → n + c < 2 ^ 63 → chunk_count (pos n) (pos c) ≡ pos (length (cut n c n))
unfolding chunk_count
chunk_count-cut n c hc hn =
    let pieces = cut-length n n c hc (omega arith) in
    let small : (n + c - 1) / c ≤ n + c - 1 = div-le_self (n + c - 1) c in
    elim (dec_lt 0 n) [
      | yes p ↦ ground (
        arith,
        pieces,
        wrap64_pos (n + c) hn,
        wrap64_pos (n + c - 1) (omega arith),
        wrap64_pos ((n + c - 1) / c) (omega arith),
      )
      | no p ↦ ground (arith, pieces, div-eq_of_lt {n = c - 1} {m = c} (omega arith))
    ]

-- For a positive chunk size, where size and chunk size together stay below 2^63 and the chunk starts
-- inside the file, the offset and the size that both sides compute for it are those of the piece with
-- its index, and it ends inside the file.
pub expected_size-cut :
    (file : File) (n c i s : ℕ)
    → file.size ≡ pos n
    → file.chunk_size ≡ pos c
    → 0 < c
    → n + c < 2 ^ 63
    → i * c < n
    → get_elem? i (cut n c n) ≡ some s
    → (chunk_offset file (pos i) ≡ pos (i * c))
      × (expected_size file (pos i) ≡ pos s)
      × (i * c + s ≤ n)
unfolding chunk_offset expected_size ◌*ℤ◌
expected_size-cut file n c i s hs hk hc hn hi h =
    let piece = get_elem?-cut n n c i hc (omega arith) hi in
    (
      ground (arith, wrap64_pos (i * c) (omega arith)),
      ground (arith, piece, wrap64_pos (i * c) (omega arith), wrap64_pos (n - i * c) (omega arith)),
      ground (arith, piece),
    )
