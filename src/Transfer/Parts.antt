-- ===== src/Transfer/Parts.antt =====
-- The part files of received transfers (`partialPath` and the writes of `ReceiveChunk`,
-- backend/internal/transfer/service.go): a map from paths to bytes.
use sync_space.Base.{
  ℕ, zero, suc, String, ◌<>◌, Option, none, some, List, [], ◌∷◌, string_eq, nat_eq,
}
use sync_space.Base.Dict
use sync_space.Base.Dict.{Dict}
use sync_space.Base.Int.{ℤ, int_eq}
use sync_space.Transfer.Paths.{Platform, secure_join}

-- `gunzip` is none where `gzip.NewReader` refuses its input, and else reads up to a number of bytes.
pub record Contents : Type 0 where
  pub checksum_bytes : List ℕ → String
  pub gunzip : List ℕ → Option (ℕ → Option (List ℕ))
  pub rate : ℤ → ℕ → ℤ
  pub data_directory : String

abbrev pub Parts : Type 0
Parts = Dict String (List ℕ)

-- `WriteAt` on the bytes of a file: a gap is filled with zeros.
unfoldable pub write_at : ℕ → List ℕ → List ℕ → List ℕ
write_at n [] old = old
write_at zero (b ∷ bs) [] = b ∷ write_at zero bs []
write_at zero (b ∷ bs) (x ∷ xs) = b ∷ write_at zero bs xs
write_at (suc n) (b ∷ bs) [] = 0 ∷ write_at n (b ∷ bs) []
write_at (suc n) (b ∷ bs) (x ∷ xs) = x ∷ write_at n (b ∷ bs) xs

abbrev pub bytes_of : Option (List ℕ) → List ℕ
bytes_of none = []
bytes_of (some bytes) = bytes

abbrev part_of : Option String → String
part_of none = ".part"
part_of (some path) = path <> ".part"

-- The part file after `OpenFile` and `WriteAt`.
abbrev pub put_part : String → ℕ → List ℕ → Parts → Parts
put_part path offset buffer parts =
    Dict.insert path (write_at offset buffer (bytes_of (Dict.lookup path parts))) parts

module _ (p : Platform) (c : Contents) where
  unfoldable pub partial_path : String → String → String
  unfolding secure_join
  partial_path transfer_id relative =
      part_of (secure_join p (p.join (p.join c.data_directory "incoming") transfer_id) relative)
