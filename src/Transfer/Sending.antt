-- ===== src/Transfer/Sending.antt =====
-- The sender of a chunk (`sendChunk` and `compressible` of backend/internal/transfer/sender.go). The
-- source file, the answers of the receiver and gzip are arguments.
pub mod Delivered
pub mod Attempts
pub mod Tasks
pub mod Outbound
pub mod Completed
use Prim.Native.String
use Prim.Native.String.{String}
use sync_space.Base.{
  has_prefix, contains, ℕ, zero, suc, ◌+◌, ◌<>◌, Bool, true, false, not, ◌&&◌, ◌||◌, Option, none,
  some, List, [], ◌∷◌, if◌then◌else◌, ltb, leb, ◌==◌, string_eq, nat_eq, length, take, drop,
}
use sync_space.Base.Int.{ℤ, pos, negsuc, int_eq}
use sync_space.Transfer.Models.{Transfer, File, Outcome, ok, err, other}
use sync_space.Transfer.Paths.{Platform}
use sync_space.Transfer.Chunks.{chunk_offset, expected_size}
use sync_space.Transfer.Throttle.{record_congestion}
use sync_space.Transfer.Receiving.{ChunkRequest}
use sync_space.Transfer.Parts.{Contents}

-- `mime.TypeByExtension`, and the gzip writer at its best speed.
pub record Encoding : Type 0 where
  pub type_by_extension : String → String
  pub gzip : List ℕ → List ℕ

unfoldable pub compressible : Platform → Encoding → String → Bool
unfolding contains has_prefix
compressible p e path =
    let kind = e.type_by_extension (p.to_lower (p.ext path)) in
    has_prefix "text/" kind
    || contains "json" kind
    || contains "xml" kind
    || contains "javascript" kind
    || contains "svg" kind

-- The bytes of the chunk, as `ReadAt` reads them; a source that ends before is an error.
unfoldable pub read_chunk : File → List ℕ → ℤ → Outcome (List ℕ)
unfolding chunk_offset expected_size
read_chunk f source index = elim (chunk_offset f index) [
  | negsuc n ↦ err (other "negative offset")
  | pos offset ↦ elim (expected_size f index) [
    | negsuc n ↦ err (other "negative size")
    | pos size ↦
        let contents = take size (drop offset source) in
        if length contents == size then ok contents else err (other "unexpected EOF")
  ]
]

module _ (p : Platform) (c : Contents) (e : Encoding) where
  -- The body and its encoding: compressed where that saves more than 128 bytes.
  unfoldable pub encode_chunk : Transfer → File → List ℕ → String × List ℕ
  unfolding compressible
  encode_chunk t f contents =
      let compressed = e.gzip contents in
      if t.compression
        && compressible p e f.relative_path
        && ltb (length compressed + 128) (length contents)
      then ("gzip", compressed)
      else ("", contents)

  -- The request that every attempt sends.
  unfoldable pub chunk_request : Transfer → File → List ℕ → ℤ → Outcome ChunkRequest
  unfolding read_chunk encode_chunk
  chunk_request t f source index = elim (read_chunk f source index) [
    | err failure ↦ err failure
    | ok contents ↦
        let (encoding, body) = encode_chunk t f contents in
        ok (record {
          id = t.id;
          file_id = f.id;
          token = t.session_token;
          index = index;
          checksum = c.checksum_bytes contents;
          encoding = encoding;
          body = body;
        })
  ]

-- How an attempt ends: the context is done before it, no client can be made, or there is an answer with
-- a status; or no answer. The second part says whether the context is done during the wait after it.
pub data Attempt : Type 0 where
  cancelled_before no_client no_answer : Attempt
  answered : ℕ → Attempt

abbrev pub is_success : ℕ → Bool
is_success status = leb 200 status && ltb status 300

abbrev pub retry_limit : ℕ
retry_limit = 3

-- The attempts that are left, from the one with a number on: the result, the delay of the throttle, and
-- how many requests were sent.
unfoldable pub send_attempts : ℕ → (ℕ → Attempt × Bool) → ℕ → ℕ → ℕ → Outcome Bool × ℕ × ℕ
unfolding record_congestion
send_attempts zero answer attempt delay sent = (err (other "attempts"), delay, sent)
send_attempts (suc left) answer attempt delay sent =
    let rest = send_attempts left answer (attempt + 1) (record_congestion delay true) (sent + 1) in
    let (end, done) = answer attempt in
    elim end [
      | cancelled_before ↦ (err (other "cancelled"), delay, sent)
      | no_client ↦ (err (other "client"), delay, sent)
      | no_answer ↦
          if done then (err (other "cancelled"), record_congestion delay true, sent + 1) else rest
      | answered status ↦
          if is_success status
          then (ok true, record_congestion delay false, sent + 1)
          else if done
          then (err (other "cancelled"), record_congestion delay true, sent + 1)
          else rest
    ]

unfoldable pub send_chunk :
    Platform
    → Contents
    → Encoding
    → Transfer
    → File
    → Option (List ℕ)
    → ℤ
    → (ℕ → Attempt × Bool)
    → ℕ
    → Outcome Bool × ℕ × ℕ
unfolding chunk_request send_attempts
send_chunk p c e t f none index answer delay = (err (other "open source"), delay, 0)
send_chunk p c e t f (some source) index answer delay =
    elim (chunk_request p c e t f source index) [
      | err failure ↦ (err failure, delay, 0)
      | ok request ↦ send_attempts retry_limit answer 1 delay 0
    ]
