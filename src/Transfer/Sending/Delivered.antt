-- ===== src/Transfer/Sending/Delivered.antt =====
-- What the sender of a chunk sends is what the receiver accepts.
use sync_space.Base.{
  ℕ, zero, suc, ◌+◌, ◌≤◌, ◌<◌, true, ◌&&◌, Option, some, List, [], ◌∷◌, ◌≡◌, refl, sym, ap, arith,
  if◌then◌else◌, ltb, string_eq, nat_eq, str_eq_iff, equal_nat_iff, length, take, drop, Bool-cases,
  inl, inr, ◌⊎◌,
}
use mathlib.Core.Path.{subst}
use sync_space.Base.Int.{ℤ, pos, negsuc, int_eq, equal_int_iff, leb_ℤ, ltb_ℤ, sub64}
use sync_space.Transfer.Models.{Transfer, File, ok, Outcome-cases}
use sync_space.Transfer.Paths.{Platform}
use sync_space.Transfer.Chunks.{chunk_offset, expected_size}
use sync_space.Transfer.Externals.{Externals}
use sync_space.Transfer.Receiving.{ChunkRequest, read_body, read_limit, verified_bytes}
use sync_space.Transfer.Parts.{Contents}
use sync_space.Transfer.Sending.{Encoding, compressible, read_chunk, encode_chunk, chunk_request}

take_all : (n : ℕ) (bs : List ℕ) → length bs ≤ n → take n bs ≡ bs
take_all zero [] h = refl
take_all zero (b ∷ bs) h = ground (arith, h)
take_all (suc n) [] h = refl
take_all (suc n) (b ∷ bs) h = ground (arith, take_all n bs (omega arith))

ℤ-cases : (z : ℤ) → ((n : ℕ) × (z ≡ pos n)) ⊎ ((n : ℕ) × (z ≡ negsuc n))
ℤ-cases (pos n) = inl (n, refl)
ℤ-cases (negsuc n) = inr (n, refl)

smaller-le :
    (r size : ℤ) (n m : ℕ)
    → leb_ℤ size (pos m) ≡ true
    → (if ltb_ℤ r size then r else size) ≡ pos n
    → n ≤ m
smaller-le (pos a) (pos b) n m small h = ground (arith, small, h)
smaller-le (pos a) (negsuc b) n m small h = ground (arith, small, h)
smaller-le (negsuc a) (pos b) n m small h = ground (arith, small, h)
smaller-le (negsuc a) (negsuc b) n m small h = ground (arith, small, h)

expected_size-le :
    (f : File) (index : ℤ) (n : ℕ)
    → leb_ℤ f.chunk_size (pos 16_777_216) ≡ true
    → expected_size f index ≡ pos n
    → n ≤ 16_777_216
unfolding expected_size
expected_size-le f index n small h =
    smaller-le (sub64 f.size (chunk_offset f index)) f.chunk_size n 16_777_216 small h

read_chunk-sized :
    (f : File) (source : List ℕ) (index : ℤ) (contents : List ℕ)
    → read_chunk f source index ≡ ok contents
    → expected_size f index ≡ pos (length contents)
unfolding read_chunk
read_chunk-sized f source index contents h = elim (ℤ-cases (chunk_offset f index)) [
  | inr (n, below) ↦ ground (arith, below, h)
  | inl (offset, at) ↦ elim (ℤ-cases (expected_size f index)) [
    | inr (n, below) ↦ ground (arith, at, below, h)
    | inl (size, of_size) ↦
        let piece = take size (drop offset source) in
        ground (arith, at, of_size, h, equal_nat_iff (length piece) size)
  ]
]

-- Gzip gives back what it was given, read up to any length.
abbrev pub IsGzip : Contents → Encoding → Type 0
IsGzip c e =
    (bs : List ℕ) (n : ℕ)
    → (read : ℕ → Option (List ℕ)) × (c.gunzip (e.gzip bs) ≡ some read)
      × (read n ≡ some (take n bs))

module _ (p : Platform) (c : Contents) (e : Encoding) (x : Externals) where
  encode_chunk-cases :
      (t : Transfer) (f : File) (contents : List ℕ)
      → (encode_chunk p c e t f contents ≡ ("", contents))
        ⊎ ((encode_chunk p c e t f contents ≡ ("gzip", e.gzip contents))
            × (length (e.gzip contents) + 128 < length contents))
  unfolding encode_chunk
  encode_chunk-cases t f contents =
      elim (Bool-cases (
        t.compression
        && compressible p e f.relative_path
        && ltb (length (e.gzip contents) + 128) (length contents))) [
          | inl worth ↦ inr (ground (arith, worth), ground (arith, worth))
          | inr plain ↦ inl (ground (arith, plain))
        ]

  read_plain : (contents : List ℕ) → read_body p c "" contents (length contents + 1) ≡ ok contents
  unfolding read_body
  read_plain contents = ap ok (take_all (length contents + 1) contents (omega arith))

  read_packed :
      (contents : List ℕ)
      → IsGzip c e
      → length (e.gzip contents) ≤ 16_777_217
      → read_body p c "gzip" (e.gzip contents) (length contents + 1) ≡ ok contents
  unfolding read_body
  read_packed contents gz small =
      let (read, opens, gives) = gz contents (length contents + 1) in
      rw (take_all 16_777_217 (e.gzip contents) small, opens, gives)
        (ap ok (take_all (length contents + 1) contents (omega arith)))

  read_back :
      (t : Transfer) (f : File) (contents : List ℕ)
      → IsGzip c e
      → length contents ≤ 16_777_216
      → read_body p c
          (encode_chunk p c e t f contents).0
          (encode_chunk p c e t f contents).1
          (length contents + 1)
        ≡ ok contents
  read_back t f contents gz small = elim (encode_chunk-cases t f contents) [
    | inl plain ↦
        subst (λ r. read_body p c r.0 r.1 (length contents + 1) ≡ ok contents) (sym plain)
          (read_plain contents)
    | inr (packed, shorter) ↦
        subst (λ r. read_body p c r.0 r.1 (length contents + 1) ≡ ok contents) (sym packed)
          (read_packed contents gz (omega arith))
  ]

  accepts :
      (f : File) (q : ChunkRequest) (contents : List ℕ)
      → expected_size f q.index ≡ pos (length contents)
      → q.checksum ≡ c.checksum_bytes contents
      → read_body p c q.encoding q.body (length contents + 1) ≡ ok contents
      → verified_bytes p c x q f ≡ ok contents
  unfolding verified_bytes
  accepts f q contents sized sum back =
      let limit : read_limit p c x (expected_size f q.index) ≡ length contents + 1 =
        ap (read_limit p c x) sized in
      let whole : read_body p c q.encoding q.body (read_limit p c x (expected_size f q.index))
          ≡ ok contents =
        subst (λ n. read_body p c q.encoding q.body n ≡ ok contents) (sym limit) back in
      ground (
        arith,
        whole,
        sized,
        sum,
        equal_int_iff (pos (length contents)) (expected_size f q.index),
        str_eq_iff (c.checksum_bytes contents) q.checksum,
      )

  abbrev request_of : Transfer → File → ℤ → List ℕ → ChunkRequest
  request_of t f index contents = record {
    id = t.id;
    file_id = f.id;
    token = t.session_token;
    index = index;
    checksum = c.checksum_bytes contents;
    encoding = (encode_chunk p c e t f contents).0;
    body = (encode_chunk p c e t f contents).1;
  }

  -- If gzip gives back what it was given, the receiver reads back the sender's bytes, compressed or not,
  -- and finds size and checksum right, for a file that both know with the same sizes and a chunk size of
  -- at most 16 MB.
  pub chunk_request-verified_bytes :
      (t : Transfer) (f : File) (source : List ℕ) (index : ℤ) (q : ChunkRequest)
      → IsGzip c e
      → leb_ℤ f.chunk_size (pos 16_777_216) ≡ true
      → chunk_request p c e t f source index ≡ ok q
      → (contents : List ℕ) × (read_chunk f source index ≡ ok contents)
        × (verified_bytes p c x q f ≡ ok contents)
  unfolding chunk_request
  chunk_request-verified_bytes t f source index q gz small h =
      elim (Outcome-cases (read_chunk f source index)) [
        | inl (failure, bad) ↦ ground (arith, bad, h)
        | inr (contents, good) ↦
            let size = read_chunk-sized f source index contents good in
            let fits = expected_size-le f index (length contents) small size in
            let back = read_back t f contents gz fits in
            let same : request_of t f index contents ≡ q = ground (arith, good, h) in
            (
              contents,
              good,
              subst (λ r. verified_bytes p c x r f ≡ ok contents) same
                  (accepts f (request_of t f index contents) contents size refl back),
            )
      ]
