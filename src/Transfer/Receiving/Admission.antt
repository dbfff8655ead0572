-- ===== src/Transfer/Receiving/Admission.antt =====
-- Which chunks reach the disk and the tables.
use sync_space.Base.{
  ℕ, true, false, not, ◌||◌, some, List, ◌≡◌, arith, string_eq, str_eq_iff, length, Option-cases,
  Bool-cases, inl, inr, ◌⊎◌,
}
use sync_space.Base.Int.{pos, int_eq, equal_int_iff, ltb_ℤ, leb_ℤ}
use sync_space.Transfer.Models.{Transfer, File, ok, Outcome-cases}
use sync_space.Transfer.Paths.{Platform}
use sync_space.Transfer.Chunks.{expected_size}
use sync_space.Transfer.Externals.{Externals, token_matches}
use sync_space.Transfer.Control.{Service, get}
use sync_space.Transfer.Receiving.{
  ChunkEnv, ChunkRequest, find_file, is_receiving, read_body, requested_file, read_limit,
  verified_bytes, store_chunk, receive_chunk,
}
use sync_space.Transfer.Parts.{Contents, Parts}

module _ (p : Platform) (c : Contents) (x : Externals) where
  -- The request belongs to an approved transfer that receives, and its bytes are those of the checksum.
  pub record IsAdmitted (t : Transfer) (f : File) (buffer : List ℕ) (q : ChunkRequest)
      : Type 0 where
    pub matches : t.session_token_hash ≡ x.sha256_hex q.token
    pub approved : t.approved ≡ true
    pub open_state : is_receiving t.status ≡ true
    pub listed : find_file t.files q.file_id ≡ some f
    pub no_directory : f.directory ≡ false
    pub not_below : ltb_ℤ q.index (pos 0) ≡ false
    pub not_above : leb_ℤ f.chunk_count q.index ≡ false
    pub sized : expected_size f q.index ≡ pos (length buffer)
    pub summed : c.checksum_bytes buffer ≡ q.checksum

  requested_file_lem :
      (t : Transfer) (q : ChunkRequest) (f : File)
      → requested_file p c x t.files q ≡ some f
      → (find_file t.files q.file_id ≡ some f)
        × (f.directory ≡ false)
        × (ltb_ℤ q.index (pos 0) ≡ false)
        × (leb_ℤ f.chunk_count q.index ≡ false)
  unfolding requested_file
  requested_file_lem t q f h = elim (Option-cases (find_file t.files q.file_id)) [
    | inl missing ↦ ground (arith, missing, h)
    | inr (g, found) ↦
        let same : g ≡ f = ground (arith, found, h) in
        (
          ground (arith, found, same),
          ground (arith, found, h),
          ground (arith, found, h),
          ground (arith, found, h),
        )
  ]

  verified_bytes_lem :
      (q : ChunkRequest) (f : File) (buffer : List ℕ)
      → verified_bytes p c x q f ≡ ok buffer
      → (expected_size f q.index ≡ pos (length buffer)) × (c.checksum_bytes buffer ≡ q.checksum)
  unfolding verified_bytes
  verified_bytes_lem q f buffer h =
      elim (Outcome-cases
        (read_body p c q.encoding q.body (read_limit p c x (expected_size f q.index)))) [
          | inl (e, unread) ↦ ground (arith, unread, h)
          | inr (bytes, is_read) ↦
              let same : bytes ≡ buffer = ground (arith, is_read, h) in
              let size = equal_int_iff (pos (length bytes)) (expected_size f q.index) in
              (
                ground (arith, is_read, same, size, h),
                ground (arith, is_read, same, str_eq_iff (c.checksum_bytes bytes) q.checksum, h),
              )
        ]

  -- A chunk changes the transfers or the part files only where the transfer is approved and receives,
  -- its token is right, the file is one of its own with a chunk of that index, and the bytes have the
  -- chunk's size and the stated checksum; what then happens is `store_chunk`.
  pub receive_chunk_lem :
      (env : ChunkEnv) (s : Service) (parts : Parts) (q : ChunkRequest)
      → (((receive_chunk p c x env s parts q).1 ≡ s)
          × ((receive_chunk p c x env s parts q).2 ≡ parts))
        ⊎ ((t : Transfer) × (f : File) × (buffer : List ℕ) × (get x.is_uuid env.env s q.id ≡ ok t)
            × IsAdmitted t f buffer q
            × (receive_chunk p c x env s parts q ≡ store_chunk p c env s parts q f buffer))
  unfolding receive_chunk token_matches
  receive_chunk_lem env s parts q = elim (Outcome-cases (get x.is_uuid env.env s q.id)) [
    | inl (e, missing) ↦ inl (ground (arith, missing), ground (arith, missing))
    | inr (t, found) ↦
        elim (Bool-cases (
          not (token_matches x t.session_token_hash q.token)
          || not t.approved
          || not (is_receiving t.status))) [
            | inl shut ↦ inl (ground (arith, found, shut), ground (arith, found, shut))
            | inr passed ↦ elim (Option-cases (requested_file p c x t.files q)) [
              | inl none_such ↦ inl (
                ground (arith, found, passed, none_such),
                ground (arith, found, passed, none_such),
              )
              | inr (f, asked) ↦ elim (Outcome-cases (verified_bytes p c x q f)) [
                | inl (e, bad) ↦ inl (
                  ground (arith, found, passed, asked, bad),
                  ground (arith, found, passed, asked, bad),
                )
                | inr (buffer, good) ↦
                    let (listed, file, low, high) = requested_file_lem t q f asked in
                    let (sized, summed) = verified_bytes_lem q f buffer good in
                    inr (
                      t,
                      f,
                      buffer,
                      found,
                      record {
                        matches =
                            ground (
                              arith,
                              passed,
                              str_eq_iff t.session_token_hash (x.sha256_hex q.token),
                            );
                        approved = ground (arith, passed);
                        open_state = ground (arith, passed);
                        listed = listed;
                        no_directory = file;
                        not_below = low;
                        not_above = high;
                        sized = sized;
                        summed = summed;
                      },
                      ground (arith, found, passed, asked, good),
                    )
              ]
            ]
          ]
  ]
