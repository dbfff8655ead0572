-- ===== src/Transfer/Receiving/Reassembly.antt =====
-- The part file that the chunks of a file leave behind, in whatever order they arrive.
use sync_space.Base.{
  ℕ, ◌+◌, ◌*◌, ◌/◌, ◌≤◌, ◌<◌, String, some, List, [], ◌∷◌, ◌≡◌, ◌≢◌, ◌⊎◌, inl, inr, sym, ◌∙◌, arith,
  if◌then◌else◌, string_eq, str_eq_iff, length, take, drop, get_elem?, All, ◌==◌,
}
use mathlib.Core.Path.{subst}
use native.Mathlib.Decide.{dec_lt}
use native.Mathlib.Nat.{div-mul-le_self, lt-div-mul-add}
use sync_space.Base.Dict
use sync_space.Transfer.Receiving.Bytes.{
  write_at-hits, write_at-keeps, length-write_at, get_elem?-take-drop, length-take,
  length-take-drop, get_elem?-ext, get_elem?-length,
}
use sync_space.Transfer.Parts.{Parts, write_at, put_part, bytes_of}

-- One write to a part file.
pub record Write : Type 0 where
  pub path : String
  pub offset : ℕ
  pub bytes : List ℕ

unfoldable pub write_all : Parts → List Write → Parts
write_all parts [] = parts
write_all parts (w ∷ ws) = write_all (put_part w.path w.offset w.bytes parts) ws

abbrev pub contents_at : String → Parts → List ℕ
contents_at path parts = bytes_of (Dict.lookup path parts)

module _ (path : String) (content : List ℕ) (c : ℕ) where
  -- The write of the chunk with an index.
  abbrev pub IsPiece : ℕ → Write → Type 0
  IsPiece i w =
      (w.path ≡ path)
      × (w.offset ≡ i * c)
      × (w.bytes ≡ take c (drop (i * c) content))
      × (i * c ≤ length content)

  -- A write elsewhere, or of some chunk.
  abbrev pub IsPart : Write → Type 0
  IsPart w = (w.path ≢ path) ⊎ ((i : ℕ) × IsPiece i w)

  abbrev pub HasPiece : ℕ → List Write → Type 0
  HasPiece i [] = ⊥
  HasPiece i (w ∷ ws) = IsPiece i w ⊎ HasPiece i ws

  contents-put :
      (w : Write) (parts : Parts)
      → contents_at path (put_part w.path w.offset w.bytes parts) ≡ (
          if w.path == path
          then write_at w.offset w.bytes (contents_at path parts)
          else contents_at path parts)
  contents-put w parts = ground (
    arith,
    str_eq_iff w.path path,
    Dict.lookup-insert w.path path (write_at w.offset w.bytes (contents_at w.path parts)) parts,
  )

  after_other :
      (w : Write) (parts : Parts)
      → w.path ≢ path
      → contents_at path (put_part w.path w.offset w.bytes parts) ≡ contents_at path parts
  after_other w parts other = ground (arith, contents-put w parts, str_eq_iff w.path path, other)

  after_piece :
      (w : Write) (i : ℕ) (parts : Parts)
      → IsPiece i w
      → contents_at path (put_part w.path w.offset w.bytes parts)
        ≡ write_at (i * c) (take c (drop (i * c) content)) (contents_at path parts)
  after_piece w i parts (same, offset, bytes, inside) =
      ground (arith, contents-put w parts, str_eq_iff w.path path, same, offset, bytes)

  hit :
      (w : Write) (i j v : ℕ) (parts : Parts)
      → IsPiece i w
      → i * c ≤ j
      → j < i * c + c
      → get_elem? j content ≡ some v
      → get_elem? j (contents_at path (put_part w.path w.offset w.bytes parts)) ≡ some v
  hit w i j v parts piece l h e =
      let found = get_elem?-take-drop (i * c) c j content l h in
      let written =
        write_at-hits (i * c) (take c (drop (i * c) content)) (contents_at path parts) j v l
          (found ∙ e) in
      subst (λ file. get_elem? j file ≡ some v) (sym (after_piece w i parts piece)) written

  overwrite :
      (i j v : ℕ) (old : List ℕ)
      → get_elem? j content ≡ some v
      → get_elem? j old ≡ some v
      → get_elem? j (write_at (i * c) (take c (drop (i * c) content)) old) ≡ some v
  overwrite i j v old e h = elim (dec_lt j (i * c)) [
    | yes before ↦ write_at-keeps (i * c) (take c (drop (i * c) content)) old j v (inl before) h
    | no l ↦ elim (dec_lt j (i * c + c)) [
      | yes inside ↦
          write_at-hits (i * c) (take c (drop (i * c) content)) old j v (omega arith)
            (get_elem?-take-drop (i * c) c j content (omega arith) inside ∙ e)
      | no after ↦
          write_at-keeps (i * c) (take c (drop (i * c) content)) old j v
            (inr (omega (arith, length-take c (drop (i * c) content)))) h
    ]
  ]

  keep :
      (w : Write) (j v : ℕ) (parts : Parts)
      → IsPart w
      → get_elem? j content ≡ some v
      → get_elem? j (contents_at path parts) ≡ some v
      → get_elem? j (contents_at path (put_part w.path w.offset w.bytes parts)) ≡ some v
  keep w j v parts (inl other) e h =
      subst (λ file. get_elem? j file ≡ some v) (sym (after_other w parts other)) h
  keep w j v parts (inr (i, piece)) e h =
      subst (λ file. get_elem? j file ≡ some v) (sym (after_piece w i parts piece))
        (overwrite i j v (contents_at path parts) e h)

  kept_throughout :
      (ws : List Write) (j v : ℕ) (parts : Parts)
      → All IsPart ws
      → get_elem? j content ≡ some v
      → get_elem? j (contents_at path parts) ≡ some v
      → get_elem? j (contents_at path (write_all parts ws)) ≡ some v
  unfolding write_all
  kept_throughout [] j v parts a e h = h
  kept_throughout (w ∷ ws) j v parts (a, as_parts) e h =
      kept_throughout ws j v (put_part w.path w.offset w.bytes parts) as_parts e
        (keep w j v parts a e h)

  reach :
      (ws : List Write) (i j v : ℕ) (parts : Parts)
      → All IsPart ws
      → HasPiece i ws
      → i * c ≤ j
      → j < i * c + c
      → get_elem? j content ≡ some v
      → get_elem? j (contents_at path (write_all parts ws)) ≡ some v
  unfolding write_all
  reach [] i j v parts a none_there l h e = elim none_there [ ]
  reach (w ∷ ws) i j v parts (a, as_parts) (inl piece) l h e =
      kept_throughout ws j v (put_part w.path w.offset w.bytes parts) as_parts e
        (hit w i j v parts piece l h e)
  reach (w ∷ ws) i j v parts (a, as_parts) (inr later) l h e =
      reach ws i j v (put_part w.path w.offset w.bytes parts) as_parts later l h e

  shorter :
      (w : Write) (parts : Parts)
      → IsPart w
      → length (contents_at path parts) ≤ length content
      → length (contents_at path (put_part w.path w.offset w.bytes parts)) ≤ length content
  shorter w parts (inl other) l =
      subst (λ file. length file ≤ length content) (sym (after_other w parts other)) l
  shorter w parts (inr (i, piece)) l =
      subst (λ file. length file ≤ length content) (sym (after_piece w i parts piece))
        (length-write_at (i * c) (take c (drop (i * c) content)) (contents_at path parts)
          (length content) (length-take-drop (i * c) c content piece.3) l)

  bounded :
      (ws : List Write) (parts : Parts)
      → All IsPart ws
      → length (contents_at path parts) ≤ length content
      → length (contents_at path (write_all parts ws)) ≤ length content
  unfolding write_all
  bounded [] parts a l = l
  bounded (w ∷ ws) parts (a, as_parts) l =
      bounded ws (put_part w.path w.offset w.bytes parts) as_parts (shorter w parts a l)

  -- The chunks of a file, of a positive size, written in any order, with repeats and with writes to
  -- other files in between, leave exactly the file's bytes in a part file that was not longer, if every
  -- chunk is among them.
  pub write_all-content :
      (ws : List Write) (parts : Parts)
      → 0 < c
      → All IsPart ws
      → ((i : ℕ) → i * c < length content → HasPiece i ws)
      → length (contents_at path parts) ≤ length content
      → contents_at path (write_all parts ws) ≡ content
  write_all-content ws parts hc a every l =
      get_elem?-ext content (contents_at path (write_all parts ws)) (bounded ws parts a l) (λ j v e.
        let below = div-mul-le_self j c in
        let above = lt-div-mul-add {a = j} {b = c} hc in
        reach ws (j / c) j v parts a (every (j / c) (omega (arith, get_elem?-length content j v e)))
          below above e)
