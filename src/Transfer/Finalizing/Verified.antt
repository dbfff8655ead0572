-- ===== src/Transfer/Finalizing/Verified.antt =====
-- What a received transfer has shown before it counts as completed.
use sync_space.Base.{
  String, true, false, List, [], ◌∷◌, ◌≡◌, string_eq, ◌⊎◌, ℕ, suc, some, if◌then◌else◌,
}
use sync_space.Base.Dict
use sync_space.Base.Int.{pos, int_eq}
use sync_space.Transfer.Models.{Transfer, File, Chunk, ok}
use sync_space.Transfer.Store
use sync_space.Transfer.Paths.{Platform}
use sync_space.Transfer.Conflicts.{resolve_conflict}
use sync_space.Transfer.Externals.{Externals}
use sync_space.Transfer.Parts.{Contents, Parts, partial_path}
use sync_space.Transfer.Finalizing.{FinalEnv, complete_of, count_of}

-- A pair stands in a list.
abbrev pub Has : String × String → List (String × String) → Type 0
Has pair [] = ⊥
Has pair (other ∷ pairs) = (pair ≡ other) ⊎ Has pair pairs

-- How many files are no directories.
abbrev pub ordinary : List File → ℕ
ordinary [] = 0
ordinary (f ∷ fs) = let rest = ordinary fs in if f.directory then rest else suc rest

module _ (p : Platform) (c : Contents) (x : Externals) (env : FinalEnv) where
  -- A file all of whose chunks are recorded, and whose part file is there and has its checksum; that of
  -- a file of no size may be missing, since it is made empty.
  pub record IsWhole (parts : Parts) (chunks : List Chunk) (id : String) (f : File) : Type 0 where
    pub counted : pos (count_of (complete_of f.id chunks)) ≡ f.chunk_count
    pub contents : List ℕ
    pub kept :
        (Dict.lookup (partial_path p c id f.relative_path) parts ≡ some contents)
        ⊎ ((f.size ≡ pos 0) × (contents ≡ []))
    pub summed : c.checksum_bytes contents ≡ f.checksum

  abbrev pub IsVerified : Parts → List Chunk → String → File → Type 0
  IsVerified parts chunks id f = (f.directory ≡ true) ⊎ IsWhole parts chunks id f

  -- A directory that was made, or a file whose part was moved to the target that the policy gives it.
  abbrev pub IsPut : Transfer → List (String × String) → File → Type 0
  IsPut t moved f =
      ((f.directory ≡ true) × (env.mkdir_fails f.destination_path ≡ false))
      ⊎ ((target : String) × (resolve_conflict p env.lstat f.destination_path t.conflict_policy
            ≡ ok target)
          × Has (partial_path p c t.id f.relative_path, target) moved)
