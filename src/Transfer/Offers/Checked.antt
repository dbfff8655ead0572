-- ===== src/Transfer/Offers/Checked.antt =====
-- What the loop over an offer's files has checked when it accepts them.
use sync_space.Base.{
  String, true, false, not, ◌||◌, none, List, [], ◌∷◌, ◌≡◌, ◌≢◌, arith, ◌==◌, string_eq, str_eq_iff,
  All,
}
use sync_space.Base.Int.{ℤ, pos, int_eq, equal_int_iff, ltb_ℤ, add64}
use sync_space.Transfer.Models.{File, ok}
use sync_space.Transfer.Paths.{Platform, validate_relative_path, is_one_of}
use sync_space.Transfer.Chunks.{chunk_count}
use sync_space.Transfer.Externals.{Externals, valid_sha256}
use sync_space.Transfer.Offers.{check_file, check_files}

-- The sum of the sizes as Go's `int64` adds them up.
pub total_size : ℤ → List File → ℤ
total_size total [] = total
total_size total (f ∷ fs) = total_size (add64 total f.size) fs

module _ (x : Externals) (p : Platform) where
  -- A file whose path is safe and whose numbers agree.
  pub record IsAcceptable (chunk_size : ℤ) (f : File) : Type 0 where
    pub safe : validate_relative_path p f.relative_path ≡ true
    pub sized : ltb_ℤ f.size (pos 0) ≡ false
    pub chunked : f.chunk_size ≡ chunk_size
    pub counted : f.chunk_count ≡ chunk_count f.size f.chunk_size
    pub summed : f.directory || valid_sha256 x f.checksum ≡ true
    pub hollow : not f.directory || f.size == pos 0 ≡ true

  -- Two files whose paths differ in more than their case.
  abbrev pub DiffersFrom : File → File → Type 0
  DiffersFrom f g = p.to_lower g.relative_path ≢ p.to_lower f.relative_path

  -- Any two files differ.
  abbrev pub AreDistinct : List File → Type 0
  AreDistinct [] = Unit
  AreDistinct (f ∷ fs) = All (DiffersFrom f) fs × AreDistinct fs

  check_file-IsAcceptable :
      (chunk_size : ℤ) (seen : List String) (f : File)
      → check_file x p chunk_size seen f ≡ none
      → IsAcceptable chunk_size f
  unfolding check_file
  check_file-IsAcceptable chunk_size seen f h = record {
    safe = ground (arith, h);
    sized = ground (arith, h);
    chunked = ground (arith, h, equal_int_iff f.chunk_size chunk_size);
    counted = ground (arith, h, equal_int_iff f.chunk_count (chunk_count f.size f.chunk_size));
    summed = ground (arith, h);
    hollow = ground (arith, h);
  }

  check_file-unseen :
      (chunk_size : ℤ) (seen : List String) (f : File)
      → check_file x p chunk_size seen f ≡ none
      → is_one_of (p.to_lower f.relative_path) seen ≡ false
  unfolding check_file
  check_file-unseen chunk_size seen f h = ground (arith, h)

  abbrev IsUnseen : List String → File → Type 0
  IsUnseen seen f = is_one_of (p.to_lower f.relative_path) seen ≡ false

  -- Unseen with one name more: different from it, and unseen without it.
  earlier_names :
      (name : File) (seen : List String) (fs : List File)
      → All (IsUnseen (p.to_lower name.relative_path ∷ seen)) fs
      → All (DiffersFrom name) fs × All (IsUnseen seen) fs
  earlier_names name seen [] h = (tt, tt)
  earlier_names name seen (f ∷ fs) (h, hs) =
      let same = str_eq_iff (p.to_lower f.relative_path) (p.to_lower name.relative_path) in
      let (differ, unseen) = earlier_names name seen fs hs in
      ((ground (arith, h, same), differ), (ground (arith, h, same), unseen))

  abbrev Checked : ℤ → List String → ℤ → List File → ℤ → Type 0
  Checked chunk_size seen total files result =
      All (IsAcceptable chunk_size) files
      × (AreDistinct files × (All (IsUnseen seen) files × (result ≡ total_size total files)))

  check_files-Checked :
      (chunk_size : ℤ) (seen : List String) (total result : ℤ) (files : List File)
      → check_files x p chunk_size seen total files ≡ ok result
      → Checked chunk_size seen total files result
  unfolding check_files total_size
  check_files-Checked chunk_size seen total result [] h = (tt, (tt, (tt, ground (arith, h))))
  check_files-Checked chunk_size seen total result (f ∷ fs) h =
      let key = p.to_lower f.relative_path in
      let next : check_file x p chunk_size seen f ≡ none = ground (arith, h) in
      let (good, (distinct, (unseen, sum))) =
        check_files-Checked chunk_size (key ∷ seen) (add64 total f.size) result fs
          (ground (arith, h)) in
      let (differ, still) = earlier_names f seen fs unseen in
      (
        (check_file-IsAcceptable chunk_size seen f next, good),
        ((differ, distinct), ((check_file-unseen chunk_size seen f next, still), sum)),
      )

  pub check_files_lem :
      (chunk_size total : ℤ) (files : List File)
      → check_files x p chunk_size [] (pos 0) files ≡ ok total
      → All (IsAcceptable chunk_size) files × AreDistinct files × (total ≡ total_size (pos 0) files)
  check_files_lem chunk_size total files h =
      let (good, (distinct, (_, sum))) = check_files-Checked chunk_size [] (pos 0) total files h in
      (good, distinct, sum)
