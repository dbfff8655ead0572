-- ===== src/Transfer/Receiving/Bytes.antt =====
-- The bytes of a file after a write at an offset (`WriteAt`, as `ReceiveChunk` of
-- backend/internal/transfer/service.go calls it), and those of a slice.
use sync_space.Base.{
  ℕ, zero, suc, ◌+◌, ◌-◌, ◌≤◌, ◌<◌, some, List, [], ◌∷◌, ◌≡◌, ◌⊎◌, inr, refl, arith, string_eq,
  length, take, drop, get_elem?,
}
use sync_space.Transfer.Parts.{write_at}

pub write_at-hits :
    (n : ℕ) (bs old : List ℕ) (j v : ℕ)
    → n ≤ j
    → get_elem? (j - n) bs ≡ some v
    → get_elem? j (write_at n bs old) ≡ some v
unfolding write_at
write_at-hits n [] old j v l h = ground (arith, h)
write_at-hits zero (b ∷ bs) [] zero v l h = ground (arith, h)
write_at-hits zero (b ∷ bs) [] (suc j) v l h =
    ground (arith, h, write_at-hits zero bs [] j v (omega arith))
write_at-hits zero (b ∷ bs) (x ∷ xs) zero v l h = ground (arith, h)
write_at-hits zero (b ∷ bs) (x ∷ xs) (suc j) v l h =
    ground (arith, h, write_at-hits zero bs xs j v (omega arith))
write_at-hits (suc n) (b ∷ bs) old zero v l h = ground (arith, l)
write_at-hits (suc n) (b ∷ bs) [] (suc j) v l h =
    ground (arith, h, write_at-hits n (b ∷ bs) [] j v (omega arith))
write_at-hits (suc n) (b ∷ bs) (x ∷ xs) (suc j) v l h =
    ground (arith, h, write_at-hits n (b ∷ bs) xs j v (omega arith))

pub write_at-keeps :
    (n : ℕ) (bs old : List ℕ) (j v : ℕ)
    → (j < n) ⊎ (n + length bs ≤ j)
    → get_elem? j old ≡ some v
    → get_elem? j (write_at n bs old) ≡ some v
unfolding write_at
write_at-keeps n [] old j v out h = h
write_at-keeps n (b ∷ bs) [] j v out h = ground (arith, h)
write_at-keeps zero (b ∷ bs) (x ∷ xs) zero v out h = ground (arith, out)
write_at-keeps zero (b ∷ bs) (x ∷ xs) (suc j) v out h =
    write_at-keeps zero bs xs j v (inr (ground (arith, out))) h
write_at-keeps (suc n) (b ∷ bs) (x ∷ xs) zero v out h = h
write_at-keeps (suc n) (b ∷ bs) (x ∷ xs) (suc j) v out h =
    write_at-keeps n (b ∷ bs) xs j v (ground (arith, out)) h

pub length-write_at :
    (n : ℕ) (bs old : List ℕ) (m : ℕ)
    → n + length bs ≤ m
    → length old ≤ m
    → length (write_at n bs old) ≤ m
unfolding write_at
length-write_at n [] old m h l = l
length-write_at zero (b ∷ bs) [] m h l = omega (arith, length-write_at zero bs [] (m - 1))
length-write_at zero (b ∷ bs) (x ∷ xs) m h l = omega (arith, length-write_at zero bs xs (m - 1))
length-write_at (suc n) (b ∷ bs) [] m h l = omega (arith, length-write_at n (b ∷ bs) [] (m - 1))
length-write_at (suc n) (b ∷ bs) (x ∷ xs) m h l =
    omega (arith, length-write_at n (b ∷ bs) xs (m - 1))

pub get_elem?-take-drop :
    (o c j : ℕ) (xs : List ℕ)
    → o ≤ j
    → j < o + c
    → get_elem? (j - o) (take c (drop o xs)) ≡ get_elem? j xs
get_elem?-take-drop zero zero j xs l h = ground (arith, h)
get_elem?-take-drop zero (suc c) j [] l h = refl
get_elem?-take-drop zero (suc c) zero (x ∷ xs) l h = refl
get_elem?-take-drop zero (suc c) (suc j) (x ∷ xs) l h =
    ground (arith, get_elem?-take-drop zero c j xs (omega arith) (omega arith))
get_elem?-take-drop (suc o) zero j xs l h = ground (arith, l, h)
get_elem?-take-drop (suc o) (suc c) j [] l h = refl
get_elem?-take-drop (suc o) (suc c) zero (x ∷ xs) l h = ground (arith, l)
get_elem?-take-drop (suc o) (suc c) (suc j) (x ∷ xs) l h =
    ground (arith, get_elem?-take-drop o (suc c) j xs (omega arith) (omega arith))

pub length-take : (c : ℕ) (xs : List ℕ) → length (take c xs) ≤ c
length-take zero xs = omega arith
length-take (suc c) [] = omega arith
length-take (suc c) (x ∷ xs) = omega (arith, length-take c xs)

pub length-take-drop :
    (o c : ℕ) (xs : List ℕ) → o ≤ length xs → o + length (take c (drop o xs)) ≤ length xs
length-take-drop zero zero xs h = omega arith
length-take-drop zero (suc c) [] h = omega arith
length-take-drop zero (suc c) (x ∷ xs) h = omega (arith, length-take-drop zero c xs)
length-take-drop (suc o) c [] h = omega arith
length-take-drop (suc o) c (x ∷ xs) h = omega (arith, length-take-drop o c xs)

pub get_elem?-ext :
    (xs ys : List ℕ)
    → length ys ≤ length xs
    → ((j v : ℕ) → get_elem? j xs ≡ some v → get_elem? j ys ≡ some v)
    → ys ≡ xs
get_elem?-ext [] [] l h = refl
get_elem?-ext [] (y ∷ ys) l h = ground (arith, l)
get_elem?-ext (x ∷ xs) [] l h = ground (arith, h 0 x refl)
get_elem?-ext (x ∷ xs) (y ∷ ys) l h =
    let tail = get_elem?-ext xs ys (omega arith) (λ j v e. h (suc j) v e) in
    ground (arith, h 0 x refl, tail)

pub get_elem?-length : (xs : List ℕ) (j v : ℕ) → get_elem? j xs ≡ some v → j < length xs
get_elem?-length [] j v h = ground (arith, h)
get_elem?-length (x ∷ xs) zero v h = omega arith
get_elem?-length (x ∷ xs) (suc j) v h = omega (arith, get_elem?-length xs j v h)
